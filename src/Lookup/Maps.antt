-- ===== src/Lookup/Maps.antt =====
-- lookup.rs: `LookupMaps` and its operations. The crates `cron` and `bimap` are parameters. Locks
-- are held for the whole of an operation, or its parts touch different maps, so each operation is one
-- function of the state; the state comes back beside an error too.
use wavs.Prelude.{
  ℕ, ◌+◌, ◌%◌, Bool, Option, none, some, List, [], ◌∷◌, Bytes, bytes_lt, Bytes-discrete, bytes_eq,
  Eq, ◌==◌, nat_eq, if◌then◌else◌, any,
}
use wavs.Prelude.Map.{Map, get, insert, insert_by, remove}
use wavs.Prelude.Result.{Result, ok, err, ok_or, ◌>>=◌}
use wavs.Errors.{TriggerError, no_such_service, no_such_workflow, no_such_trigger_data}
use wavs.Types.Chain.{ChainKey, ChainKey-discrete, chain_key_eq}
use wavs.Types.Service.{
  ServiceId, WorkflowId, Trigger, TriggerConfig, Address, AtProtoAction, Service, Workflow,
  manager_address, cosmos_contract_event, evm_contract_event, block_interval, cron, at_proto_event,
  hypercore_append, manual,
}
use wavs.Scheduler.Interval.{LookupId, IntervalScheduler, add_trigger, remove_trigger, new}
use wavs.Scheduler.Block.{BlockScheduler, block_interval_state, u64_mod}
use wavs.Scheduler.Block
use wavs.Scheduler.Cron.{CronCrate, CronIntervalState, cron_interval_state}
use wavs.Scheduler.Cron
use wavs.Lookup.Index.{add_to, drop_from}

-- (chain, contract address, event type or event hash).
pub record EventKey : Type 0 where
  pub chain : ChainKey
  pub address : Bytes
  pub event : Bytes

-- (collection, repo, action).
pub record AtProtoKey : Type 0 where
  pub collection : Bytes
  pub repo_did : Option Bytes
  pub action : Option AtProtoAction

unfoldable pub EventKey-discrete : Discrete EventKey
EventKey-discrete = hlevel (ChainKey-discrete, Bytes-discrete)

unfoldable pub AtProtoKey-discrete : Discrete AtProtoKey
AtProtoKey-discrete = hlevel Bytes-discrete

instance abbrev pub event_key_eq : Eq EventKey
event_key_eq = record { dec = EventKey-discrete }

instance abbrev pub at_proto_key_eq : Eq AtProtoKey
at_proto_key_eq = record { dec = AtProtoKey-discrete }

-- The crate `bimap`: at most one right for each left and one left for each right.
pub record BiMapCrate : Type 1 where
  pub BiMap : Type 0
  pub empty : BiMap
  pub insert : ServiceId → Address → BiMap → BiMap
  pub remove_by_left : ServiceId → BiMap → BiMap
  pub get_by_right : BiMap → Address → Option ServiceId

-- `collection.contains('*')`.
unfoldable pub has_wildcard : Bytes → Bool
unfolding any
has_wildcard collection = any (λ c. c == b'*') collection

unfoldable pub remove_configs :
    List LookupId → Map LookupId TriggerConfig → Map LookupId TriggerConfig
remove_configs [] m = m
remove_configs (id ∷ ids) m = remove_configs ids (remove id m)

abbrev pub values : Map WorkflowId LookupId → List LookupId
values [] = []
values ((wid, id) ∷ m) = id ∷ values m

abbrev pub collect_configs :
    Map LookupId TriggerConfig → List LookupId → Result TriggerError (List TriggerConfig)
collect_configs configs [] = ok []
collect_configs configs (id ∷ ids) = do
  config ← ok_or (get configs id) (no_such_trigger_data id)
  rest ← collect_configs configs ids
  ok (config ∷ rest)

module _ (C : CronCrate) (B : BiMapCrate) where
  pub record LookupMaps : Type 0 where
    pub trigger_configs : Map LookupId TriggerConfig
    pub cosmos : Map EventKey (List LookupId)
    pub evm : Map EventKey (List LookupId)
    pub at_proto_exact : Map AtProtoKey (List LookupId)
    pub at_proto_pattern : Map AtProtoKey (List LookupId)
    pub hypercore : Map Bytes (List LookupId)
    pub service_manager : B.BiMap
    pub block_schedulers : Map ChainKey BlockScheduler
    pub service_workflows : Map ServiceId (Map WorkflowId LookupId)
    pub lookup_id : ℕ
    pub cron_scheduler : IntervalScheduler (CronIntervalState C)

  unfoldable pub new_maps : LookupMaps
  new_maps = record {
    trigger_configs = [];
    cosmos = [];
    evm = [];
    at_proto_exact = [];
    at_proto_pattern = [];
    hypercore = [];
    service_manager = B.empty;
    block_schedulers = [];
    service_workflows = [];
    lookup_id = 0;
    cron_scheduler = new;
  }

  abbrev pub Outcome : Type 0
  Outcome = LookupMaps × Result TriggerError (Unit {0})

  -- The scheduler of a chain; `entry(chain).or_default()`.
  abbrev pub scheduler_or_new : Option BlockScheduler → BlockScheduler
  scheduler_or_new none = new
  scheduler_or_new (some sch) = sch

  abbrev pub block_scheduler : LookupMaps → ChainKey → BlockScheduler
  block_scheduler l chain = scheduler_or_new (get l.block_schedulers chain)

  abbrev pub with_block_scheduler :
      LookupMaps → ChainKey → BlockScheduler → Result TriggerError (BlockScheduler × Bool) → Outcome
  with_block_scheduler l chain old (ok (sch, added)) =
      (record l { block_schedulers = insert chain sch l.block_schedulers }, ok tt)
  with_block_scheduler l chain old (err e) =
      (record l { block_schedulers = insert chain old l.block_schedulers }, err e)

  abbrev pub with_cron_scheduler :
      LookupMaps → Result TriggerError (IntervalScheduler (CronIntervalState C) × Bool) → Outcome
  with_cron_scheduler l (ok (sch, added)) = (record l { cron_scheduler = sch }, ok tt)
  with_cron_scheduler l (err e) = (l, err e)

  -- The `match config.trigger` of `add_trigger`.
  unfoldable pub index_trigger : LookupMaps → LookupId → Trigger → Outcome
  unfolding has_wildcard
  index_trigger l id (evm_contract_event address chain event_hash) = (
    record l {
      evm = add_to (record { chain = chain; address = address; event = event_hash }) id l.evm;
    },
    ok tt,
  )
  index_trigger l id (cosmos_contract_event address chain event_type) = (
    record l {
      cosmos = add_to (record { chain = chain; address = address; event = event_type }) id l.cosmos;
    },
    ok tt,
  )
  index_trigger l id (block_interval chain n_blocks start_block end_block) =
      with_block_scheduler l chain (block_scheduler l chain) (
        add_trigger block_interval_state (block_scheduler l chain)
          (Block.new id n_blocks start_block end_block))
  index_trigger l id (cron schedule start_time end_time) = with_cron_scheduler l (do
    state ← Cron.new C id schedule start_time end_time
    add_trigger (cron_interval_state C) l.cron_scheduler state)
  index_trigger l id (at_proto_event collection repo_did action) =
      let key : AtProtoKey = record {
        collection = collection;
        repo_did = repo_did;
        action = action;
      } in
      if has_wildcard collection
      then (record l { at_proto_pattern = add_to key id l.at_proto_pattern }, ok tt)
      else (record l { at_proto_exact = add_to key id l.at_proto_exact }, ok tt)
  index_trigger l id (hypercore_append feed_key) =
      (record l { hypercore = add_to feed_key id l.hypercore }, ok tt)
  index_trigger l id manual = (l, ok tt)

  abbrev pub workflows_or_empty : Option (Map WorkflowId LookupId) → Map WorkflowId LookupId
  workflows_or_empty none = []
  workflows_or_empty (some m) = m

  -- The end of `add_trigger`, which every kind of trigger shares.
  unfoldable pub record_config : LookupMaps → LookupId → TriggerConfig → LookupMaps
  record_config l id config = record l {
    service_workflows =
        insert_by bytes_lt config.service_id
          (insert_by bytes_lt config.workflow_id id
            (workflows_or_empty (get l.service_workflows config.service_id)))
          l.service_workflows;
    trigger_configs = insert id config l.trigger_configs;
  }

  abbrev pub finish_add : LookupId → TriggerConfig → Outcome → Outcome
  finish_add id config (l, err e) = (l, err e)
  finish_add id config (l, ok _) = (record_config l id config, ok tt)

  -- `fetch_add` wraps.
  unfoldable pub add_config : LookupMaps → TriggerConfig → Outcome
  unfolding index_trigger record_config
  add_config l config = finish_add l.lookup_id config (
      index_trigger (record l { lookup_id = (l.lookup_id + 1) % u64_mod }) l.lookup_id
        config.trigger)

  abbrev pub continue : (LookupMaps → Outcome) → Outcome → Outcome
  continue k (l, ok _) = k l
  continue k (l, err e) = (l, err e)

  -- The loop of `add_service`, which stops at the first error.
  unfoldable pub add_workflows : LookupMaps → ServiceId → Map WorkflowId Workflow → Outcome
  unfolding add_config
  add_workflows l sid [] = (l, ok tt)
  add_workflows l sid ((wid, w) ∷ rest) =
      continue (λ l'. add_workflows l' sid rest)
        (add_config l (record { service_id = sid; workflow_id = wid; trigger = w.trigger }))

  -- `sid` is `service.id()`.
  unfoldable pub add_service : LookupMaps → ServiceId → Service → Outcome
  unfolding add_workflows
  add_service l sid service =
      add_workflows
        (record l {
          service_manager = B.insert sid (manager_address service.manager) l.service_manager;
        })
        sid service.workflows

  abbrev pub unschedule_block :
      LookupMaps → ChainKey → LookupId → Option BlockScheduler → LookupMaps
  unschedule_block l chain id none = l
  unschedule_block l chain id (some sch) = record l {
    block_schedulers =
        insert chain (remove_trigger block_interval_state sch id).0 l.block_schedulers;
  }

  -- The `match` on the trigger in `remove_workflow`, and again in `remove_service`.
  unfoldable pub unindex_trigger : LookupMaps → LookupId → Trigger → LookupMaps
  unfolding has_wildcard
  unindex_trigger l id (evm_contract_event address chain event_hash) = record l {
    evm = drop_from (record { chain = chain; address = address; event = event_hash }) id l.evm;
  }
  unindex_trigger l id (cosmos_contract_event address chain event_type) = record l {
    cosmos =
        drop_from (record { chain = chain; address = address; event = event_type }) id l.cosmos;
  }
  unindex_trigger l id (block_interval chain n_blocks start_block end_block) =
      unschedule_block l chain id (get l.block_schedulers chain)
  unindex_trigger l id (cron schedule start_time end_time) = record l {
    cron_scheduler = (remove_trigger (cron_interval_state C) l.cron_scheduler id).0;
  }
  unindex_trigger l id (at_proto_event collection repo_did action) =
      let key : AtProtoKey = record {
        collection = collection;
        repo_did = repo_did;
        action = action;
      } in
      if has_wildcard collection
      then record l { at_proto_pattern = drop_from key id l.at_proto_pattern }
      else record l { at_proto_exact = drop_from key id l.at_proto_exact }
  unindex_trigger l id (hypercore_append feed_key) = record l {
    hypercore = drop_from feed_key id l.hypercore;
  }
  unindex_trigger l id manual = l

  abbrev pub unindex_config : LookupMaps → LookupId → Option TriggerConfig → LookupMaps
  unindex_config l id none = l
  unindex_config l id (some config) = unindex_trigger l id config.trigger

  -- Without the id in the workflow map of its service.
  unfoldable pub forget_id : LookupMaps → LookupId → LookupMaps
  unfolding unindex_trigger
  forget_id l id =
      let l' = unindex_config l id (get l.trigger_configs id) in
      record l' { trigger_configs = remove id l'.trigger_configs }

  abbrev pub remove_found_workflow :
      LookupMaps → ServiceId → WorkflowId → Map WorkflowId LookupId → Option LookupId → Outcome
  remove_found_workflow l sid wid m none = (l, err (no_such_workflow sid wid))
  remove_found_workflow l sid wid m (some id) = (
    forget_id
        (record l { service_workflows = insert_by bytes_lt sid (remove wid m) l.service_workflows })
        id,
    ok tt,
  )

  abbrev pub remove_from_service :
      LookupMaps → ServiceId → WorkflowId → Option (Map WorkflowId LookupId) → Outcome
  remove_from_service l sid wid none = (l, err (no_such_service sid))
  remove_from_service l sid wid (some m) = remove_found_workflow l sid wid m (get m wid)

  unfoldable pub remove_workflow : LookupMaps → ServiceId → WorkflowId → Outcome
  unfolding forget_id
  remove_workflow l sid wid = remove_from_service l sid wid (get l.service_workflows sid)

  -- The two loops of `remove_service`: out of the indexes first, then the configs.
  unfoldable pub unindex_all : LookupMaps → List LookupId → LookupMaps
  unfolding unindex_trigger
  unindex_all l [] = l
  unindex_all l (id ∷ ids) = unindex_all (unindex_config l id (get l.trigger_configs id)) ids

  abbrev pub remove_workflows :
      LookupMaps → ServiceId → Option (Map WorkflowId LookupId) → LookupMaps
  remove_workflows l sid none = l
  remove_workflows l sid (some m) =
      let l' = unindex_all l (values m) in
      record l' {
        trigger_configs = remove_configs (values m) l'.trigger_configs;
        service_workflows = remove sid l'.service_workflows;
      }

  unfoldable pub remove_service : LookupMaps → ServiceId → LookupMaps
  unfolding unindex_all remove_configs
  remove_service l sid =
      remove_workflows (record l { service_manager = B.remove_by_left sid l.service_manager }) sid
        (get l.service_workflows sid)

  unfoldable pub configs_for_service :
      LookupMaps → ServiceId → Result TriggerError (List TriggerConfig)
  configs_for_service l sid = do
    m ← ok_or (get l.service_workflows sid) (no_such_service sid)
    collect_configs l.trigger_configs (values m)
