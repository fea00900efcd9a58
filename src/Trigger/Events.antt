-- ===== src/Trigger/Events.antt =====
-- trigger.rs: what `start_watcher` sends to the dispatcher for each kind of event, and
-- `process_blocks`. Topic, address and data of a log are read by the crate `alloy`, and a Cosmos
-- event by `cosmwasm_std` and `layer_climb`: parameters.
pub mod Data
pub use Data.{
  DispatcherCommand, trigger, change_service_uri, EvmLog, CosmosEvent, AtProtoEvent,
  HypercoreAppendEvent, CronHit, EventCrate, StreamTrigger, evm_log, cosmos_block, evm_block,
  cron_ticked, at_proto, hypercore, manual_trigger,
}
use wavs.Prelude.{
  ℕ, Bool, true, ◌&&◌, Option, none, some, List, [], ◌∷◌, ◌++◌, map, Bytes, bytes_eq, ◌==◌, Eq,
  nat_eq, if◌then◌else◌,
}
use wavs.Prelude.Map.{Map, get, insert}
use wavs.Prelude.Result.{Result, ok, ok_or, ◌>>=◌}
use wavs.Errors.{TriggerError, uri_creation}
use wavs.Types.Chain.{ChainKey, chain_key_eq}
use wavs.Types.Service.{ServiceId, TriggerConfig, AtProtoAction, Address}
use wavs.Types.Submission.{TriggerAction}
use wavs.Types.TriggerData.{TriggerData}
use wavs.Scheduler.Interval.{LookupId, tick}
use wavs.Scheduler.Block.{BlockScheduler, block_interval_state}
use wavs.Scheduler.Cron.{CronCrate}
use wavs.Services.Store.{Services}
use wavs.Lookup.Index.{ids_of, set_insert}
use wavs.Lookup.Maps.{BiMapCrate, LookupMaps, EventKey, event_key_eq, AtProtoKey, at_proto_key_eq}
use wavs.Lookup.Configs.{get_trigger_config, get_trigger_configs}
use wavs.Trigger.Pattern.{matches_collection_pattern}

abbrev pub action_of : TriggerData → TriggerConfig → DispatcherCommand
action_of d config = trigger (record { config = config; trigger_data = d })

-- One command for each config.
abbrev pub actions_of : TriggerData → List TriggerConfig → List DispatcherCommand
actions_of d configs = map (action_of d) configs

-- `HashSet::extend`.
unfoldable pub extend : List LookupId → List LookupId → List LookupId
unfolding set_insert
extend set [] = set
extend set (id ∷ ids) = extend (set_insert id set) ids

unfoldable pub AtProtoAction-discrete : Discrete AtProtoAction
AtProtoAction-discrete = hlevel

instance abbrev pub action_eq : Eq AtProtoAction
action_eq = record { dec = AtProtoAction-discrete }

abbrev pub accepts : {A : Type 0} ⦃e : Eq A⦄ → Option A → A → Bool
accepts none a = true
accepts (some b) a = b == a

abbrev pub pattern_accepts : AtProtoKey → AtProtoEvent → Bool
pattern_accepts key e =
    matches_collection_pattern key.collection e.collection
    && accepts key.repo_did e.repo
    && accepts key.action e.action

-- The loop over the patterns.
unfoldable pub matched_patterns :
    Map AtProtoKey (List LookupId) → AtProtoEvent → List LookupId → List LookupId
unfolding extend matches_collection_pattern
matched_patterns [] e set = set
matched_patterns ((key, ids) ∷ m) e set =
    matched_patterns m e (if pattern_accepts key e then extend set ids else set)

abbrev pub exact_key : AtProtoEvent → Option Bytes → Option AtProtoAction → AtProtoKey
exact_key e repo action = record { collection = e.collection; repo_did = repo; action = action }

abbrev pub first_uri : Option Bytes → Option Bytes → Option Bytes
first_uri none rest = rest
first_uri (some uri) rest = some uri

-- The first attribute with the key whose value is a URI.
unfoldable pub find_uri : EventCrate → List (Bytes × Bytes) → Option Bytes
find_uri V [] = none
find_uri V ((key, value) ∷ attributes) =
    if key == V.service_uri_key
    then first_uri (V.uri_string value) (find_uri V attributes)
    else find_uri V attributes

abbrev pub evm_data : EvmLog → TriggerData
evm_data log =
    TriggerData.evm_contract_event log.chain log.address log.log_data log.tx_hash log.block_number
      log.log_index log.block_hash log.block_timestamp log.tx_index

abbrev pub evm_key : EvmLog → Bytes → EventKey
evm_key log event_hash = record { chain = log.chain; address = log.address; event = event_hash }

abbrev pub cosmos_key : ChainKey → CosmosEvent → EventKey
cosmos_key chain e = record { chain = chain; address = e.contract_address; event = e.ty }

abbrev pub cosmos_data : ChainKey → ℕ → CosmosEvent → TriggerData
cosmos_data chain height e =
    TriggerData.cosmos_contract_event e.contract_address chain e.event height e.event_index

abbrev pub at_proto_data : AtProtoEvent → TriggerData
at_proto_data e =
    TriggerData.at_proto_event e.sequence e.timestamp e.repo e.collection e.rkey e.action e.cid
      e.json e.rev e.op_index

abbrev pub changed_uri : Option ServiceId → Bytes → List DispatcherCommand
changed_uri none uri = []
changed_uri (some sid) uri = change_service_uri sid uri ∷ []

abbrev pub cron_action : ℕ → Option TriggerConfig → List DispatcherCommand
cron_action time none = []
cron_action time (some config) = action_of (TriggerData.cron time) config ∷ []

module _ (C : CronCrate) (B : BiMapCrate) where
  abbrev pub scheduler_ticked :
      LookupMaps C B → ChainKey → ℕ → Option BlockScheduler → LookupMaps C B × List LookupId
  scheduler_ticked l chain height none = (l, [])
  scheduler_ticked l chain height (some sch) =
      let out = tick block_interval_state sch height in
      (
        record l { block_schedulers = insert chain out.0 l.block_schedulers },
        map (λ (h : LookupId × ℕ). h.0) out.1,
      )

  abbrev pub blocks_fired :
      Services
      → ChainKey
      → ℕ
      → LookupMaps C B × List LookupId
      → LookupMaps C B × List DispatcherCommand
  blocks_fired services chain height (l, ids) = (
    l,
    actions_of (TriggerData.block_interval chain height) (get_trigger_configs C B l services ids),
  )

  -- `NonZeroU64::new` refuses the height 0.
  unfoldable pub process_blocks :
      LookupMaps C B → Services → ChainKey → ℕ → LookupMaps C B × List DispatcherCommand
  process_blocks l services chain height =
      if height == 0
      then (l, [])
      else blocks_fired services chain height
          (scheduler_ticked l chain height (get l.block_schedulers chain))

  abbrev pub cosmos_actions :
      LookupMaps C B → Services → ChainKey → ℕ → CosmosEvent → List DispatcherCommand
  cosmos_actions l services chain height e =
      actions_of (cosmos_data chain height e)
        (get_trigger_configs C B l services (ids_of l.cosmos (cosmos_key chain e)))

  abbrev pub cosmos_update :
      LookupMaps C B → CosmosEvent → Option Bytes → List DispatcherCommand → List DispatcherCommand
  cosmos_update l e none actions = []
  cosmos_update l e (some uri) actions =
      changed_uri (B.get_by_right l.service_manager (Address.cosmos e.contract_address)) uri
      ++ actions

  unfoldable pub cron_hit : LookupMaps C B → Services → ℕ → List LookupId → List DispatcherCommand
  cron_hit l services time [] = []
  cron_hit l services time (id ∷ ids) =
      cron_action time (get_trigger_config C B l services id) ++ cron_hit l services time ids

  unfoldable pub cron_hits : LookupMaps C B → Services → List CronHit → List DispatcherCommand
  unfolding cron_hit
  cron_hits l services [] = []
  cron_hits l services (hit ∷ hits) =
      cron_hit l services hit.scheduled_time hit.lookup_ids ++ cron_hits l services hits

  -- The four exact matches, then the patterns.
  unfoldable pub matched_ids : LookupMaps C B → AtProtoEvent → List LookupId
  unfolding extend matched_patterns
  matched_ids l e =
      let exact = λ (repo : Option Bytes) (action : Option AtProtoAction).
        ids_of l.at_proto_exact (exact_key e repo action) in
      matched_patterns l.at_proto_pattern e (
        extend
          (extend
            (extend (extend [] (exact (some e.repo) (some e.action))) (exact (some e.repo) none))
            (exact none (some e.action)))
          (exact none none))

  -- An empty set gives no command, as the code tests.
  unfoldable pub at_proto_event : LookupMaps C B → Services → AtProtoEvent → List DispatcherCommand
  unfolding matched_ids
  at_proto_event l services e =
      actions_of (at_proto_data e) (get_trigger_configs C B l services (matched_ids l e))

  unfoldable pub handle_hypercore_event :
      LookupMaps C B → Services → HypercoreAppendEvent → List DispatcherCommand
  unfolding extend
  handle_hypercore_event l services e =
      actions_of (TriggerData.hypercore_append e.feed_key e.index e.content)
        (get_trigger_configs C B l services (extend [] (ids_of l.hypercore e.feed_key)))

module _ (C : CronCrate) (B : BiMapCrate) (V : EventCrate) where
  abbrev pub manager_event :
      LookupMaps C B → EvmLog → Option Bytes → Result TriggerError (List DispatcherCommand)
  manager_event l log none = ok []
  manager_event l log (some text) = do
    uri ← ok_or (V.uri_string text) uri_creation
    ok (changed_uri (B.get_by_right l.service_manager (Address.evm log.address)) uri)

  abbrev pub uri_event :
      LookupMaps C B → EvmLog → Bytes → Result TriggerError (List DispatcherCommand)
  uri_event l log event_hash =
      if event_hash == V.service_uri_updated
      then manager_event l log (V.decode_log_data log.log_data)
      else ok []

  abbrev pub topic_event :
      LookupMaps C B
      → Services
      → EvmLog
      → Option Bytes
      → Result TriggerError (List DispatcherCommand)
  topic_event l services log none = ok []
  topic_event l services log (some event_hash) = do
    changes ← uri_event l log event_hash
    ok (
        changes
        ++ actions_of (evm_data log)
            (get_trigger_configs C B l services (ids_of l.evm (evm_key log event_hash))))

  -- `StreamTriggers::Evm`. An error ends the watcher.
  unfoldable pub evm_event :
      LookupMaps C B → Services → EvmLog → Result TriggerError (List DispatcherCommand)
  evm_event l services log = topic_event l services log log.topic0

  -- An update without a URI is skipped, its triggers too.
  unfoldable pub cosmos_event :
      LookupMaps C B → Services → ChainKey → ℕ → CosmosEvent → List DispatcherCommand
  unfolding find_uri
  cosmos_event l services chain height e =
      if V.is_service_uri_updated e.event
      then cosmos_update C B l e (find_uri V e.attributes)
          (cosmos_actions C B l services chain height e)
      else cosmos_actions C B l services chain height e

  unfoldable pub cosmos_events :
      LookupMaps C B → Services → ChainKey → ℕ → List CosmosEvent → List DispatcherCommand
  unfolding cosmos_event
  cosmos_events l services chain height [] = []
  cosmos_events l services chain height (e ∷ es) =
      cosmos_event l services chain height e ++ cosmos_events l services chain height es

  abbrev after_events :
      List DispatcherCommand
      → LookupMaps C B × List DispatcherCommand
      → LookupMaps C B × Result TriggerError (List DispatcherCommand)
  after_events commands (l, more) = (l, ok (commands ++ more))

  -- The `match` of `start_watcher` on one event.
  unfoldable pub stream_event :
      LookupMaps C B
      → Services
      → StreamTrigger
      → LookupMaps C B × Result TriggerError (List DispatcherCommand)
  unfolding evm_event cosmos_events process_blocks cron_hits at_proto_event handle_hypercore_event
  stream_event l services (evm_log log) = (l, evm_event l services log)
  stream_event l services (cosmos_block chain events height) =
      after_events (cosmos_events l services chain height events)
        (process_blocks C B l services chain height)
  stream_event l services (evm_block chain height) =
      after_events [] (process_blocks C B l services chain height)
  stream_event l services (cron_ticked hits) = (l, ok (cron_hits C B l services hits))
  stream_event l services (at_proto e) = (l, ok (at_proto_event C B l services e))
  stream_event l services (hypercore e) = (l, ok (handle_hypercore_event C B l services e))
  stream_event l services (manual_trigger action) = (l, ok (trigger action ∷ []))
