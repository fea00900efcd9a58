-- ===== src/Trigger/Active.antt =====
-- The services of the triggers that the events of trigger.rs fire.
use wavs.Prelude.{
  ℕ, ◌≡◌, refl, subst, Bool, true, false, Option, none, some, List, [], ◌∷◌, ◌++◌, Bytes, bytes_eq,
  ◌==◌, nat_eq, if-both, arith, inl, inr, Bool-cases,
}
use wavs.Prelude.Result.{Result, ok, err, ◌>>=◌}
use wavs.Errors.{TriggerError}
use wavs.Types.Chain.{ChainKey, chain_key_eq}
use wavs.Types.Service.{TriggerConfig}
use wavs.Types.Submission.{TriggerAction}
use wavs.Types.TriggerData.{TriggerData}
use wavs.Prelude.Map.{get}
use wavs.Scheduler.Interval.{LookupId}
use wavs.Scheduler.Cron.{CronCrate}
use wavs.Services.Store.{Services, is_active}
use wavs.Lookup.Maps.{BiMapCrate, LookupMaps, event_key_eq}
use wavs.Lookup.Configs.{
  In, get_trigger_config, get_trigger_configs, get_trigger_configs-In, if_active,
}
use wavs.Trigger.Events.{
  DispatcherCommand, trigger, EvmLog, EventCrate, CosmosEvent, CronHit, StreamTrigger, evm_log,
  cosmos_block, evm_block, cron_ticked, at_proto, hypercore, manual_trigger, action_of, actions_of,
  evm_event, uri_event, topic_event, cosmos_event, cosmos_events, cosmos_update, find_uri,
  process_blocks, cron_hit, cron_hits, cron_action, at_proto_event, handle_hypercore_event,
  stream_event,
}
use wavs.Trigger.Contract.{FiresNone, NoTrigger, uri_event-NoTrigger, changed_uri-FiresNone}

-- A manual trigger is passed on as it came.
abbrev pub is_manual : StreamTrigger → Bool
is_manual (manual_trigger a) = true
is_manual _ = false

module _ (services : Services) where
  -- The trigger actions among the commands are of active services.
  abbrev pub AllActive : List DispatcherCommand → Type 0
  AllActive commands =
      (a : TriggerAction TriggerData)
      → In (trigger a) commands
      → is_active services a.config.service_id ≡ true

  append-AllActive :
      (xs ys : List DispatcherCommand) → AllActive xs → AllActive ys → AllActive (xs ++ ys)
  append-AllActive [] ys hx hy a h = hy a h
  append-AllActive (x ∷ xs) ys hx hy a (inl e) = hx a (inl e)
  append-AllActive (x ∷ xs) ys hx hy a (inr h) = append-AllActive xs ys (λ b k. hx b (inr k)) hy a h

  FiresNone-AllActive : (xs : List DispatcherCommand) → FiresNone xs → AllActive xs
  FiresNone-AllActive xs h a k = absurd (h a k)

  one-AllActive :
      (d : TriggerData) (c : TriggerConfig) (a : TriggerAction TriggerData)
      → is_active services c.service_id ≡ true
      → action_of d c ≡ trigger a
      → is_active services a.config.service_id ≡ true
  one-AllActive d c a on e =
      let same : c ≡ a.config = cc e in
      subst (λ (x : TriggerConfig). is_active services x.service_id ≡ true) same on

  actions-AllActive :
      (d : TriggerData) (configs : List TriggerConfig)
      → ((c : TriggerConfig) → In c configs → is_active services c.service_id ≡ true)
      → AllActive (actions_of d configs)
  actions-AllActive d [] h a k = absurd k
  actions-AllActive d (c ∷ configs) h a (inl e) = one-AllActive d c a (h c (inl refl)) e
  actions-AllActive d (c ∷ configs) h a (inr k) =
      actions-AllActive d configs (λ x m. h x (inr m)) a k

module _ (C : CronCrate) (B : BiMapCrate) (services : Services) where
  fired-AllActive :
      (l : LookupMaps C B) (d : TriggerData) (ids : List LookupId)
      → AllActive services (actions_of d (get_trigger_configs C B l services ids))
  fired-AllActive l d ids =
      actions-AllActive services d (get_trigger_configs C B l services ids)
        (λ c h. ((get_trigger_configs-In C B l services ids c).0 h).2.live)

  blocks-AllActive :
      (l : LookupMaps C B) (chain : ChainKey) (height : ℕ)
      → AllActive services (process_blocks C B l services chain height).1
  unfolding process_blocks
  blocks-AllActive l chain height =
      if-both (λ (out : LookupMaps C B × List DispatcherCommand). AllActive services out.1)
        (height == 0) _ _ (λ a h. absurd h) (fired-AllActive _ _ _)

  cron_action-AllActive :
      (time : ℕ) (o : Option TriggerConfig)
      → AllActive services (cron_action time (if_active services o))
  cron_action-AllActive time none = λ a h. absurd h
  cron_action-AllActive time (some c) = elim (Bool-cases (is_active services c.service_id)) [
    | inl on ↦ rw on (λ a h. elim h [
      | inl e ↦ one-AllActive services (TriggerData.cron time) c a on e
      | inr k ↦ absurd k
    ])
    | inr off ↦ rw off (λ a h. absurd h)
  ]

  cron_hit-AllActive :
      (l : LookupMaps C B) (time : ℕ) (ids : List LookupId)
      → AllActive services (cron_hit C B l services time ids)
  unfolding cron_hit get_trigger_config
  cron_hit-AllActive l time [] = λ a h. absurd h
  cron_hit-AllActive l time (id ∷ ids) =
      append-AllActive services _ _ (cron_action-AllActive time (get l.trigger_configs id))
        (cron_hit-AllActive l time ids)

  cron_hits-AllActive :
      (l : LookupMaps C B) (hits : List CronHit)
      → AllActive services (cron_hits C B l services hits)
  unfolding cron_hits
  cron_hits-AllActive l [] = λ a h. absurd h
  cron_hits-AllActive l (hit ∷ hits) =
      append-AllActive services _ _ (cron_hit-AllActive l hit.scheduled_time hit.lookup_ids)
        (cron_hits-AllActive l hits)

module _ (C : CronCrate) (B : BiMapCrate) (V : EventCrate) (services : Services) where
  update-AllActive :
      (l : LookupMaps C B) (e : CosmosEvent) (o : Option Bytes) (actions : List DispatcherCommand)
      → AllActive services actions
      → AllActive services (cosmos_update C B l e o actions)
  update-AllActive l e none actions h = λ a k. absurd k
  update-AllActive l e (some uri) actions h =
      append-AllActive services _ actions
        (FiresNone-AllActive services _ (changed_uri-FiresNone _ uri)) h

  cosmos-AllActive :
      (l : LookupMaps C B) (chain : ChainKey) (height : ℕ) (es : List CosmosEvent)
      → AllActive services (cosmos_events C B V l services chain height es)
  unfolding cosmos_events cosmos_event
  cosmos-AllActive l chain height [] = λ a h. absurd h
  cosmos-AllActive l chain height (e ∷ es) =
      append-AllActive services _ _
        (if-both (AllActive services) (V.is_service_uri_updated e.event) _ _
          (update-AllActive l e (find_uri V e.attributes) _ (fired-AllActive C B services l _ _))
          (fired-AllActive C B services l _ _))
        (cosmos-AllActive l chain height es)

  -- Success brings actions of active services only.
  abbrev OkActive : Result TriggerError (List DispatcherCommand) → Type 0
  OkActive (ok commands) = AllActive services commands
  OkActive (err e) = Unit

  then-OkActive :
      (r : Result TriggerError (List DispatcherCommand)) (actions : List DispatcherCommand)
      → NoTrigger r
      → AllActive services actions
      → OkActive (r >>= λ changes. ok (changes ++ actions))
  then-OkActive (ok changes) actions n h =
      append-AllActive services changes actions (FiresNone-AllActive services changes n) h
  then-OkActive (err e) actions n h = tt

  evm-OkActive :
      (l : LookupMaps C B) (log : EvmLog) (o : Option Bytes)
      → OkActive (topic_event C B V l services log o)
  evm-OkActive l log none = λ a h. absurd h
  evm-OkActive l log (some h) =
      then-OkActive (uri_event C B V l log h) _ (uri_event-NoTrigger C B V l log h)
        (fired-AllActive C B services l _ _)

  events-OkActive :
      (l : LookupMaps C B) (t : StreamTrigger)
      → is_manual t ≡ false
      → OkActive (stream_event C B V l services t).1
  unfolding stream_event evm_event at_proto_event handle_hypercore_event
  events-OkActive l (evm_log log) h = evm-OkActive l log log.topic0
  events-OkActive l (cosmos_block chain events height) h =
      append-AllActive services _ _ (cosmos-AllActive l chain height events)
        (blocks-AllActive C B services l chain height)
  events-OkActive l (evm_block chain height) h = blocks-AllActive C B services l chain height
  events-OkActive l (cron_ticked hits) h = cron_hits-AllActive C B services l hits
  events-OkActive l (at_proto e) h = fired-AllActive C B services l _ _
  events-OkActive l (hypercore e) h = fired-AllActive C B services l _ _
  events-OkActive l (manual_trigger a) h = absurd (ground arith)

  -- Whatever the state of the maps, an event other than a manual trigger fires only triggers of
  -- services that the table has as active.
  pub stream_event-active :
      (l : LookupMaps C B) (t : StreamTrigger) (commands : List DispatcherCommand)
      (a : TriggerAction TriggerData)
      → is_manual t ≡ false
      → (stream_event C B V l services t).1 ≡ ok commands
      → In (trigger a) commands
      → is_active services a.config.service_id ≡ true
  stream_event-active l t commands a m e = subst OkActive e (events-OkActive l t m) a
