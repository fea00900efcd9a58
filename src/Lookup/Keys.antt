-- ===== src/Lookup/Keys.antt =====
-- The indexes of lookup.rs seen as one: under which key a trigger is filed, and the ids filed there.
-- Of a scheduler these are the ids in its `trigger_ids`.
use wavs.Prelude.{
  ◌&&◌, ℕ, ◌≡◌, refl, Bool, true, false, Option, none, some, List, Bytes, bytes_eq, ◌==◌, arith,
  if◌then◌else◌, retain, nat_eq,
}
use wavs.Prelude.Map.{get, get-insert}
use wavs.Prelude.Result.{Result, ok, err, ◌>>=◌}
use wavs.Errors.{TriggerError}
use wavs.Types.Chain.{ChainKey, chain_key_eq}
use wavs.Types.Service.{
  Trigger, cosmos_contract_event, evm_contract_event, block_interval, cron, at_proto_event,
  hypercore_append, manual,
}
use wavs.Scheduler.Interval.{
  new as new_scheduler, LookupId, IntervalScheduler, IntervalState, add_trigger, remove_trigger,
}
use wavs.Scheduler.Block.{BlockScheduler, BlockIntervalState, block_interval_state}
use wavs.Scheduler.Block
use wavs.Scheduler.Cron.{CronCrate, CronIntervalState, cron_interval_state}
use wavs.Scheduler.Cron
use wavs.Lookup.Index.{
  set_insert, set_remove, ids_of, add_to, drop_from, ids_of-add_to, ids_of-drop_from,
}
use wavs.Lookup.Maps.{
  EventKey, AtProtoKey, event_key_eq, at_proto_key_eq, BiMapCrate, has_wildcard, LookupMaps,
  block_scheduler, index_trigger, unindex_trigger, unschedule_block, Outcome, with_block_scheduler,
  with_cron_scheduler,
}

pub data IndexKey : Type 0 where
  evm cosmos : EventKey → IndexKey
  exact pattern_of : AtProtoKey → IndexKey
  feed : Bytes → IndexKey
  blocks : ChainKey → IndexKey
  clock : IndexKey

abbrev pub is_same : IndexKey → IndexKey → Bool
is_same (evm a) (evm b) = a == b
is_same (cosmos a) (cosmos b) = a == b
is_same (exact a) (exact b) = a == b
is_same (pattern_of a) (pattern_of b) = a == b
is_same (feed a) (feed b) = a == b
is_same (blocks a) (blocks b) = a == b
is_same clock clock = true
is_same _ _ = false

abbrev pub key_of : Trigger → Option IndexKey
key_of (evm_contract_event address chain event_hash) =
    some (evm (record { chain = chain; address = address; event = event_hash }))
key_of (cosmos_contract_event address chain event_type) =
    some (cosmos (record { chain = chain; address = address; event = event_type }))
key_of (block_interval chain n_blocks start_block end_block) = some (blocks chain)
key_of (cron schedule start_time end_time) = some clock
key_of (at_proto_event collection repo_did action) =
    let key : AtProtoKey = record {
      collection = collection;
      repo_did = repo_did;
      action = action;
    } in
    if has_wildcard collection then some (pattern_of key) else some (exact key)
key_of (hypercore_append feed_key) = some (feed feed_key)
key_of manual = none

abbrev pub is_ok : {E A : Type 0} → Result E A → Bool
is_ok (ok a) = true
is_ok (err e) = false

abbrev pub is_key : Option IndexKey → IndexKey → Bool
is_key none k = false
is_key (some j) k = is_same j k

-- What happens to the set under a key, if it is the key at hand.
abbrev pub changed : Bool → (List LookupId → List LookupId) → List LookupId → List LookupId
changed b f ids = if b then f ids else ids

module _ (C : CronCrate) (B : BiMapCrate) where
  abbrev pub ids_at : LookupMaps C B → IndexKey → List LookupId
  ids_at l (evm k) = ids_of l.evm k
  ids_at l (cosmos k) = ids_of l.cosmos k
  ids_at l (exact k) = ids_of l.at_proto_exact k
  ids_at l (pattern_of k) = ids_of l.at_proto_pattern k
  ids_at l (feed k) = ids_of l.hypercore k
  ids_at l (blocks chain) = (block_scheduler C B l chain).trigger_ids
  ids_at l clock = l.cron_scheduler.trigger_ids

  unschedule-ids :
      (l : LookupMaps C B) (chain : ChainKey) (id : LookupId) (o : Option BlockScheduler)
      (k : IndexKey)
      → get l.block_schedulers chain ≡ o
      → ids_at (unschedule_block C B l chain id o) k
        ≡ changed (is_same (blocks chain) k) (set_remove id) (ids_at l k)
  unfolding remove_trigger set_remove retain new_scheduler
  unschedule-ids l chain id none (blocks k) e = ground arith
  unschedule-ids l chain id (some sch) (blocks k) e =
      ground (
        arith,
        get-insert chain k (remove_trigger block_interval_state sch id).0 l.block_schedulers,
      )
  unschedule-ids l chain id none _ e = refl
  unschedule-ids l chain id (some sch) _ e = refl

  at_proto-unindex :
      (l : LookupMaps C B) (id : LookupId) (key : AtProtoKey) (wild : Bool) (k : IndexKey)
      → ids_at
          (if wild
            then record l { at_proto_pattern = drop_from key id l.at_proto_pattern }
            else record l { at_proto_exact = drop_from key id l.at_proto_exact })
          k
        ≡ changed
            (is_key (if wild then some (pattern_of key) else some (exact key)) k)
            (set_remove id)
            (ids_at l k)
  at_proto-unindex l id key true (pattern_of k) = ids_of-drop_from key k id l.at_proto_pattern
  at_proto-unindex l id key false (exact k) = ids_of-drop_from key k id l.at_proto_exact
  at_proto-unindex l id key _ _ = refl

  -- Removing an id from the indexes takes it out of the set under its trigger's key, and
  -- touches no other set.
  pub ids_at-unindex_trigger :
      (l : LookupMaps C B) (id : LookupId) (t : Trigger) (k : IndexKey)
      → ids_at (unindex_trigger C B l id t) k
        ≡ changed (is_key (key_of t) k) (set_remove id) (ids_at l k)
  unfolding unindex_trigger
  ids_at-unindex_trigger l id (evm_contract_event address chain event_hash) (evm k) =
      ids_of-drop_from (record { chain = chain; address = address; event = event_hash }) k id l.evm
  ids_at-unindex_trigger l id (cosmos_contract_event address chain event_type) (cosmos k) =
      ids_of-drop_from (record { chain = chain; address = address; event = event_type }) k id
        l.cosmos
  ids_at-unindex_trigger l id (hypercore_append feed_key) (feed k) =
      ids_of-drop_from feed_key k id l.hypercore
  ids_at-unindex_trigger l id (block_interval chain n_blocks start_block end_block) k =
      unschedule-ids l chain id (get l.block_schedulers chain) k refl
  ids_at-unindex_trigger l id (cron schedule start_time end_time) clock =
      unfold remove_trigger set_remove in refl
  ids_at-unindex_trigger l id (at_proto_event collection repo_did action) k =
      at_proto-unindex l id _ (has_wildcard collection) k
  ids_at-unindex_trigger l id _ _ = refl

  add_trigger-ids :
      {S : Type 0} (I : IntervalState S) (sch sch' : IntervalScheduler S) (s : S) (added : Bool)
      → add_trigger I sch s ≡ ok (sch', added)
      → sch'.trigger_ids ≡ set_insert (I.lookup_id s) sch.trigger_ids
  unfolding add_trigger set_insert
  add_trigger-ids I sch sch' s added e = ground arith

  with_block-ids :
      (l : LookupMaps C B) (chain : ChainKey) (s : BlockIntervalState)
      (r : Result TriggerError (BlockScheduler × Bool)) (k : IndexKey)
      → add_trigger block_interval_state (block_scheduler C B l chain) s ≡ r
      → let out = with_block_scheduler C B l chain (block_scheduler C B l chain) r in
        ids_at out.0 k
        ≡ changed (is_ok out.1 && is_same (blocks chain) k) (set_insert s.lookup_id) (ids_at l k)
  with_block-ids l chain s (ok (sch, added)) (blocks k) e = ground (
    arith,
    get-insert chain k sch l.block_schedulers,
    add_trigger-ids block_interval_state (block_scheduler C B l chain) sch s added e,
  )
  with_block-ids l chain s (err x) (blocks k) e =
      ground (arith, get-insert chain k (block_scheduler C B l chain) l.block_schedulers)
  with_block-ids l chain s (ok (sch, added)) _ e = refl
  with_block-ids l chain s (err x) _ e = refl

  with_cron-ids :
      (l : LookupMaps C B) (s : CronIntervalState C)
      (r : Result TriggerError (IntervalScheduler (CronIntervalState C) × Bool)) (k : IndexKey)
      → add_trigger (cron_interval_state C) l.cron_scheduler s ≡ r
      → let out = with_cron_scheduler C B l r in
        ids_at out.0 k
        ≡ changed (is_ok out.1 && is_same clock k) (set_insert s.lookup_id) (ids_at l k)
  with_cron-ids l s (ok (sch, added)) clock e =
      add_trigger-ids (cron_interval_state C) l.cron_scheduler sch s added e
  with_cron-ids l s (err x) clock e = refl
  with_cron-ids l s (ok (sch, added)) _ e = refl
  with_cron-ids l s (err x) _ e = refl

  parsed_cron-ids :
      (l : LookupMaps C B) (id : LookupId) (start end : Option ℕ)
      (r : Result TriggerError C.Schedule) (k : IndexKey)
      → let out = with_cron_scheduler C B l (do
        state ←
            (r >>= λ schedule. ok (record {
              schedule = schedule;
              iterator = none;
              next_trigger_time = none;
              lookup_id = id;
              start_time = start;
              end_time = end;
            }))
        add_trigger (cron_interval_state C) l.cron_scheduler state) in
        ids_at out.0 k ≡ changed (is_ok out.1 && is_same clock k) (set_insert id) (ids_at l k)
  parsed_cron-ids l id start end (ok schedule) k = with_cron-ids l _ _ k refl
  parsed_cron-ids l id start end (err x) k = refl

  at_proto-index :
      (l : LookupMaps C B) (id : LookupId) (key : AtProtoKey) (wild : Bool) (k : IndexKey)
      → let out : Outcome C B =
          if wild
          then (record l { at_proto_pattern = add_to key id l.at_proto_pattern }, ok tt)
          else (record l { at_proto_exact = add_to key id l.at_proto_exact }, ok tt) in
        ids_at out.0 k
        ≡ changed
            (is_ok out.1 && is_key (if wild then some (pattern_of key) else some (exact key)) k)
            (set_insert id)
            (ids_at l k)
  at_proto-index l id key true (pattern_of k) = ids_of-add_to key k id l.at_proto_pattern
  at_proto-index l id key false (exact k) = ids_of-add_to key k id l.at_proto_exact
  at_proto-index l id key true _ = refl
  at_proto-index l id key false _ = refl

  -- Filing a trigger puts the id into the set under the trigger's key, unless it fails, and touches
  -- no other set.
  pub ids_at-index_trigger :
      (l : LookupMaps C B) (id : LookupId) (t : Trigger) (k : IndexKey)
      → let out = index_trigger C B l id t in
        ids_at out.0 k ≡ changed (is_ok out.1 && is_key (key_of t) k) (set_insert id) (ids_at l k)
  unfolding index_trigger Block.new Cron.new
  ids_at-index_trigger l id (evm_contract_event address chain event_hash) (evm k) =
      ids_of-add_to (record { chain = chain; address = address; event = event_hash }) k id l.evm
  ids_at-index_trigger l id (cosmos_contract_event address chain event_type) (cosmos k) =
      ids_of-add_to (record { chain = chain; address = address; event = event_type }) k id l.cosmos
  ids_at-index_trigger l id (hypercore_append feed_key) (feed k) =
      ids_of-add_to feed_key k id l.hypercore
  ids_at-index_trigger l id (block_interval chain n_blocks start_block end_block) k =
      with_block-ids l chain (Block.new id n_blocks start_block end_block) _ k refl
  ids_at-index_trigger l id (cron schedule start_time end_time) k =
      parsed_cron-ids l id start_time end_time (C.parse schedule) k
  ids_at-index_trigger l id (at_proto_event collection repo_did action) k =
      at_proto-index l id _ (has_wildcard collection) k
  ids_at-index_trigger l id _ _ = refl
