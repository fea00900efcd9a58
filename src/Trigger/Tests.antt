-- ===== src/Trigger/Tests.antt =====
-- Examples of the events of the trigger manager, on maps with one contract trigger and a block trigger.
use wavs.Prelude.{
  ℕ, ◌≡◌, ◌↔◌, ◌⊎◌, refl, true, false, some, none, List, [], ◌∷◌, ◌++◌, bytes, Bytes, bytes_eq,
  arith, inl, ◌==◌, if◌then◌else◌, retain, Bytes-discrete, ℕ_discrete,
}
use wavs.Prelude.Map.{get, insert}
use wavs.Prelude.Result.{ok, err}
use wavs.Errors.{uri_creation}
use wavs.Types.Chain.{ChainKey, chain_key_eq}
use wavs.Types.Service.{
  Service, TriggerConfig, Trigger, evm_contract_event, cosmos_contract_event, hypercore_append,
  create, at_proto_event, id,
}
use wavs.Types.TriggerData.{TriggerData}
use wavs.Services.Store.{Services, save, is_active}
use wavs.Scheduler.Interval.{LookupId, tick}
use wavs.Scheduler.Block.{BlockScheduler, BlockIntervalState, block_interval_state}
use wavs.Scheduler.BlockFiring.{IsReady}
use wavs.Scheduler.BlockPlan.{IsFresh}
use wavs.Scheduler.Cron.{cron_interval_state}
use wavs.Lookup.Maps.{LookupMaps, new_maps, add_service}
use wavs.Lookup.Entries.{has}
use wavs.Lookup.Indexed.{IsIndexed}
use wavs.Lookup.Patterns.{Once}
use wavs.Lookup.Configs.{In, IsLive}
use wavs.Trigger.Pattern.{matches_collection_pattern, matches_collection_pattern_lem}
use wavs.Trigger.Events.{
  DispatcherCommand, trigger, EvmLog, CosmosEvent, AtProtoEvent, HypercoreAppendEvent, action_of,
  evm_data, evm_event, cosmos_data, cosmos_event, at_proto_data, process_blocks, stream_event,
  evm_log, handle_hypercore_event,
}
use wavs.Trigger.Events
use wavs.Trigger.Contract.{
  LiveWith, is_bad_update, evm_event-fires, cosmos_event-fires, handle_hypercore_event-fires,
}
use wavs.Trigger.AtProto.{accepted_by, at_proto_event-fires}
use wavs.Trigger.CronStream.{cron_tick, hit_ids, ids_of_time, HitsAscend, cron_tick_lem}
use wavs.Trigger.Blocks.{due_ids, process_blocks-fires}
use wavs.Trigger.Reached.{Reached, empty, next, added, Reached-IsIndexed}
use wavs.Trigger.Active.{stream_event-active}
use wavs.Trigger.Malformed.{IsMalformed, evm_event-fails}
use wavs.Samples.{ten_cron, list_managers, plain_events, ethereum, service_of, crates}

abbrev L : Type 0
L = LookupMaps ten_cron list_managers

matches_collection_pattern_lem_example :
    (matches_collection_pattern (bytes "a.*") (bytes "a.b") ≡ true) ↔ (
      (bytes "a.*" ≡ bytes "a.b")
      ⊎ ((stem : Bytes) × (rest : Bytes) × (bytes "a.*" ≡ stem ++ bytes ".*")
          × (bytes "a.b" ≡ stem ++ b'.' ∷ rest)))
matches_collection_pattern_lem_example = matches_collection_pattern_lem (bytes "a.*") (bytes "a.b")

-- A service whose trigger is the transfer event of the contract 7.
abbrev transfers : Trigger
transfers = evm_contract_event (7 ∷ []) ethereum (3 ∷ [])

abbrev watched : Service
watched = service_of transfers

abbrev table : Services
table = save crates.hash [] watched

abbrev maps : L
maps =
    (add_service ten_cron list_managers (new_maps ten_cron list_managers) (id crates.hash watched)
      watched).0

maps-Reached : Reached ten_cron list_managers maps
unfolding new_maps
maps-Reached =
    next (new_maps ten_cron list_managers) maps (empty (new_maps ten_cron list_managers) refl) (
      added (new_maps ten_cron list_managers) maps (id crates.hash watched) watched (omega arith)
        refl)

Reached-IsIndexed_example : IsIndexed ten_cron list_managers maps × Once ten_cron list_managers maps
Reached-IsIndexed_example = Reached-IsIndexed ten_cron list_managers maps maps-Reached

maps-IsIndexed : IsIndexed ten_cron list_managers maps
maps-IsIndexed = (Reached-IsIndexed ten_cron list_managers maps maps-Reached).0

abbrev log_of : Bytes → Bytes → EvmLog
log_of topic text = record {
  chain = ethereum;
  address = 7 ∷ [];
  topic0 = some topic;
  log_data = text;
  block_number = 1;
  tx_hash = [];
  block_hash = [];
  tx_index = 0;
  block_timestamp = none;
  log_index = 0;
}

abbrev transfer : EvmLog
transfer = log_of (3 ∷ []) (8 ∷ [])

abbrev config : TriggerConfig
config = record {
  service_id = id crates.hash watched;
  workflow_id = bytes "w";
  trigger = transfers;
}

abbrev fired : List DispatcherCommand
fired = action_of (evm_data transfer) config ∷ []

transfer_fires : evm_event ten_cron list_managers plain_events maps table transfer ≡ ok fired
unfolding evm_event add_service new_maps get insert is_active save Bytes-discrete ℕ_discrete
    wavs.Lookup.Configs.get_trigger_configs retain wavs.Lookup.Index.add_to
    wavs.Lookup.Maps.EventKey-discrete wavs.Types.Chain.ChainKey-discrete
    wavs.Types.Service.manager_bytes
transfer_fires = refl

evm_event-fires_example :
    In (action_of (evm_data transfer) config) fired
    ↔ LiveWith ten_cron list_managers maps table
        (evm_contract_event (7 ∷ []) ethereum (3 ∷ []))
        config
evm_event-fires_example =
    evm_event-fires ten_cron list_managers plain_events maps table transfer (3 ∷ []) fired config
      maps-IsIndexed refl transfer_fires

stream_event-active_example : is_active table (id crates.hash watched) ≡ true
unfolding stream_event
stream_event-active_example =
    stream_event-active ten_cron list_managers plain_events table maps (evm_log transfer) fired
      (record { config = config; trigger_data = evm_data transfer }) refl transfer_fires (inl refl)

-- The report of another contract of an empty URI ends the watcher.
abbrev malformed : EvmLog
malformed = log_of plain_events.service_uri_updated []

evm_event-fails_example :
    (evm_event ten_cron list_managers plain_events maps table malformed ≡ err uri_creation)
    ↔ IsMalformed plain_events malformed
evm_event-fails_example = evm_event-fails ten_cron list_managers plain_events maps table malformed

abbrev moved : CosmosEvent
moved = record {
  contract_address = 9 ∷ [];
  ty = bytes "wasm";
  attributes = (bytes "service_uri", bytes "u") ∷ [];
  event = [];
  event_index = 0;
}

cosmos_event-fires_example :
    ((is_bad_update ten_cron list_managers plain_events moved ≡ true)
      × (cosmos_event ten_cron list_managers plain_events maps table ethereum 4 moved ≡ []))
    ⊎ ((is_bad_update ten_cron list_managers plain_events moved ≡ false)
        × ((c : TriggerConfig)
            → In
                (action_of (cosmos_data ethereum 4 moved) c)
                (cosmos_event ten_cron list_managers plain_events maps table ethereum 4 moved)
              ↔ LiveWith ten_cron list_managers maps table
                  (cosmos_contract_event (9 ∷ []) ethereum (bytes "wasm"))
                  c))
cosmos_event-fires_example =
    cosmos_event-fires ten_cron list_managers plain_events maps table ethereum 4 moved
      maps-IsIndexed

abbrev post : AtProtoEvent
post = record {
  sequence = 1;
  timestamp = 2;
  repo = bytes "did";
  collection = bytes "a.b";
  rkey = bytes "k";
  action = create;
  cid = none;
  json = none;
  rev = none;
  op_index = none;
}

at_proto_event-fires_example :
    In
      (action_of (at_proto_data post) config)
      (Events.at_proto_event ten_cron list_managers maps table post)
    ↔ ((i : LookupId) × IsLive maps.trigger_configs table i config
        × (accepted_by post transfers ≡ true))
at_proto_event-fires_example =
    at_proto_event-fires ten_cron list_managers maps table post config maps-IsIndexed
      (Reached-IsIndexed ten_cron list_managers maps maps-Reached).1

cron_tick_lem_example :
    let (l', hits) = cron_tick ten_cron list_managers maps 20 in
    let (sch, results) = tick (cron_interval_state ten_cron) maps.cron_scheduler 20 in
    (l'.cron_scheduler ≡ sch)
    × ((time : ℕ) → hit_ids time hits ≡ ids_of_time time results)
    × HitsAscend 0 hits
cron_tick_lem_example = cron_tick_lem ten_cron list_managers maps 20

abbrev every_five : BlockIntervalState
every_five = record {
  interval = 5;
  kickoff_time = none;
  lookup_id = 3;
  start_time = some 10;
  end_time = some 15;
}

every_five-IsFresh : IsFresh every_five
every_five-IsFresh = record {
  interval_pos = omega arith;
  interval_u32 = omega arith;
  start_pos = omega arith;
  start_u64 = omega arith;
}

abbrev one_trigger : BlockScheduler
one_trigger = record { triggers = []; unadded_triggers = every_five ∷ []; trigger_ids = 3 ∷ [] }

one_trigger-IsReady : IsReady 10 one_trigger
one_trigger-IsReady = record { ascending = tt; scheduled = tt; fresh = (every_five-IsFresh, tt) }

abbrev with_blocks : L
with_blocks = record maps { block_schedulers = (ethereum, one_trigger) ∷ [] }

its_scheduler : get with_blocks.block_schedulers ethereum ≡ some one_trigger
unfolding get wavs.Types.Chain.ChainKey-discrete Bytes-discrete ℕ_discrete
its_scheduler = refl

process_blocks-fires_example :
    let (l', commands) = process_blocks ten_cron list_managers with_blocks table ethereum 10 in
    ((c : TriggerConfig)
      → In (action_of (TriggerData.block_interval ethereum 10) c) commands ↔ (
          (i : LookupId) × (has i (due_ids 10 one_trigger) ≡ true)
          × IsLive with_blocks.trigger_configs table i c))
    × ((sch' : BlockScheduler) × IsReady 12 sch'
        × ((other : ChainKey)
            → get l'.block_schedulers other
              ≡ (if ethereum == other then some sch' else get with_blocks.block_schedulers other)))
process_blocks-fires_example =
    process_blocks-fires ten_cron list_managers with_blocks table ethereum 10 12 one_trigger
      its_scheduler (omega arith, omega arith) one_trigger-IsReady (omega arith)

-- A service whose trigger is the feed 7.
abbrev feed_service : Service
feed_service = service_of (hypercore_append (7 ∷ []))

abbrev feed_table : Services
feed_table = save crates.hash [] feed_service

abbrev feed_maps : L
feed_maps =
    (add_service ten_cron list_managers (new_maps ten_cron list_managers)
      (id crates.hash feed_service) feed_service).0

feed_maps-IsIndexed : IsIndexed ten_cron list_managers feed_maps
unfolding new_maps
feed_maps-IsIndexed =
    (Reached-IsIndexed ten_cron list_managers feed_maps (
      next (new_maps ten_cron list_managers) feed_maps
        (empty (new_maps ten_cron list_managers) refl)
        (added (new_maps ten_cron list_managers) feed_maps (id crates.hash feed_service)
          feed_service (omega arith) refl))).0

abbrev feed_config : TriggerConfig
feed_config = record {
  service_id = id crates.hash feed_service;
  workflow_id = bytes "w";
  trigger = hypercore_append (7 ∷ []);
}

abbrev appended : HypercoreAppendEvent
appended = record { feed_key = 7 ∷ []; index = 1; content = 5 ∷ [] }

appended_fires :
    handle_hypercore_event ten_cron list_managers feed_maps feed_table appended
    ≡ action_of (TriggerData.hypercore_append (7 ∷ []) 1 (5 ∷ [])) feed_config ∷ []
unfolding handle_hypercore_event add_service new_maps get insert is_active save Bytes-discrete
    ℕ_discrete wavs.Lookup.Configs.get_trigger_configs retain wavs.Lookup.Index.add_to
    wavs.Types.Service.manager_bytes
appended_fires = refl

handle_hypercore_event-fires_example :
    In
      (action_of (TriggerData.hypercore_append (7 ∷ []) 1 (5 ∷ [])) feed_config)
      (handle_hypercore_event ten_cron list_managers feed_maps feed_table appended)
    ↔ LiveWith ten_cron list_managers feed_maps feed_table (hypercore_append (7 ∷ [])) feed_config
handle_hypercore_event-fires_example =
    handle_hypercore_event-fires ten_cron list_managers feed_maps feed_table appended feed_config
      feed_maps-IsIndexed
