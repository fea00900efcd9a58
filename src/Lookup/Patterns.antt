-- ===== src/Lookup/Patterns.antt =====
-- lookup.rs: how often each pattern stands in its map of patterns.
use wavs.Prelude.{◌+◌, ◌%◌, Bool, Option, none, some, List, [], ◌∷◌, if-both, bytes_eq, nat_eq}
use wavs.Prelude.Map.{Map, get}
use wavs.Prelude.Distinct.{IsDistinct, insert-IsDistinct, remove-IsDistinct}
use wavs.Prelude.Result.{Result, ok, err}
use wavs.Errors.{TriggerError}
use wavs.Types.Chain.{chain_key_eq}
use wavs.Types.Service.{
  ServiceId, WorkflowId, Workflow, Service, TriggerConfig, Trigger, block_interval, cron,
  at_proto_event,
}
use wavs.Scheduler.Interval.{LookupId, IntervalScheduler, add_trigger}
use wavs.Scheduler.Block.{BlockScheduler, u64_mod, block_interval_state}
use wavs.Scheduler.Block
use wavs.Scheduler.Cron.{CronCrate, CronIntervalState}
use wavs.Lookup.Index.{add_to, drop_from, drop_found, store_set, set_remove}
use wavs.Lookup.Maps.{
  BiMapCrate, LookupMaps, AtProtoKey, at_proto_key_eq, has_wildcard, index_trigger, unindex_trigger,
  unschedule_block, with_block_scheduler, with_cron_scheduler, block_scheduler, unindex_config,
  forget_id, remove_workflow, remove_found_workflow, remove_from_service, unindex_all,
  remove_workflows, remove_service, values, add_config, finish_add, record_config, add_workflows,
  add_service, continue, Outcome,
}

store_set-IsDistinct :
    (k : AtProtoKey) (ids : List LookupId) (m : Map AtProtoKey (List LookupId))
    → IsDistinct m
    → IsDistinct (store_set k ids m)
store_set-IsDistinct k [] m d = remove-IsDistinct k m d
store_set-IsDistinct k (i ∷ ids) m d = insert-IsDistinct k (i ∷ ids) m d

drop_found-IsDistinct :
    (k : AtProtoKey) (id : LookupId) (m : Map AtProtoKey (List LookupId))
    (o : Option (List LookupId))
    → IsDistinct m
    → IsDistinct (drop_found k id m o)
drop_found-IsDistinct k id m none d = d
drop_found-IsDistinct k id m (some ids) d = store_set-IsDistinct k (set_remove id ids) m d

module _ (C : CronCrate) (B : BiMapCrate) where
  -- Each pattern stands once.
  abbrev pub Once : LookupMaps C B → Type 0
  Once l = IsDistinct l.at_proto_pattern

  Once-unindex_trigger :
      (l : LookupMaps C B) (id : LookupId) (t : Trigger)
      → Once l
      → Once (unindex_trigger C B l id t)
  unfolding unindex_trigger
  Once-unindex_trigger l id (block_interval chain n s e) d = kept (get l.block_schedulers chain)
    where
      kept : (o : Option BlockScheduler) → Once (unschedule_block C B l chain id o)
      kept none = d
      kept (some sch) = d
  Once-unindex_trigger l id (at_proto_event collection repo_did action) d =
      if-both Once (has_wildcard collection) _ _
        (unfold drop_from in drop_found-IsDistinct _ id l.at_proto_pattern _ d) d
  Once-unindex_trigger l id _ d = d

  Once-index_trigger :
      (l : LookupMaps C B) (id : LookupId) (t : Trigger)
      → Once l
      → Once (index_trigger C B l id t).0
  unfolding index_trigger
  Once-index_trigger l id (block_interval chain n s e) d =
      kept (add_trigger block_interval_state (block_scheduler C B l chain) (Block.new id n s e))
    where
      kept :
          (r : Result TriggerError (BlockScheduler × Bool))
          → Once (with_block_scheduler C B l chain (block_scheduler C B l chain) r).0
      kept (ok (sch, added)) = d
      kept (err x) = d
  Once-index_trigger l id (cron schedule start end) d = kept _
    where
      kept :
          (r : Result TriggerError (IntervalScheduler (CronIntervalState C) × Bool))
          → Once (with_cron_scheduler C B l r).0
      kept (ok (sch, added)) = d
      kept (err x) = d
  Once-index_trigger l id (at_proto_event collection repo_did action) d =
      if-both (λ (o : Outcome C B). Once o.0) (has_wildcard collection) _ _
        (unfold add_to in insert-IsDistinct _ _ l.at_proto_pattern d) d
  Once-index_trigger l id _ d = d

  Once-unindex_config :
      (l : LookupMaps C B) (id : LookupId) (o : Option TriggerConfig)
      → Once l
      → Once (unindex_config C B l id o)
  Once-unindex_config l id none d = d
  Once-unindex_config l id (some c) d = Once-unindex_trigger l id c.trigger d

  pub Once-remove_workflow :
      (l : LookupMaps C B) (sid : ServiceId) (wid : WorkflowId)
      → Once l
      → Once (remove_workflow C B l sid wid).0
  unfolding remove_workflow forget_id
  Once-remove_workflow l sid wid d = from_service (get l.service_workflows sid)
    where
      found :
          (m : Map WorkflowId LookupId) (o : Option LookupId)
          → Once (remove_found_workflow C B l sid wid m o).0
      found m none = d
      found m (some id) = Once-unindex_config _ id _ d

      from_service :
          (o : Option (Map WorkflowId LookupId)) → Once (remove_from_service C B l sid wid o).0
      from_service none = d
      from_service (some m) = found m (get m wid)

  Once-unindex_all :
      (ids : List LookupId) (l : LookupMaps C B) → Once l → Once (unindex_all C B l ids)
  unfolding unindex_all
  Once-unindex_all [] l d = d
  Once-unindex_all (id ∷ ids) l d =
      Once-unindex_all ids _ (Once-unindex_config l id (get l.trigger_configs id) d)

  pub Once-remove_service :
      (l : LookupMaps C B) (sid : ServiceId) → Once l → Once (remove_service C B l sid)
  unfolding remove_service
  Once-remove_service l sid d = removed (get l.service_workflows sid)
    where
      removed :
          (o : Option (Map WorkflowId LookupId))
          → Once (
              remove_workflows C B
                (record l { service_manager = B.remove_by_left sid l.service_manager })
                sid
                o)
      removed none = d
      removed (some m) = Once-unindex_all (values m) _ d

  Once-finish :
      (id : LookupId) (config : TriggerConfig) (out : Outcome C B)
      → Once out.0
      → Once (finish_add C B id config out).0
  unfolding record_config
  Once-finish id config (l, ok _) d = d
  Once-finish id config (l, err e) d = d

  Once-add_config :
      (l : LookupMaps C B) (config : TriggerConfig) → Once l → Once (add_config C B l config).0
  unfolding add_config
  Once-add_config l config d =
      let l1 : LookupMaps C B = record l { lookup_id = (l.lookup_id + 1) % u64_mod } in
      Once-finish l.lookup_id config (index_trigger C B l1 l.lookup_id config.trigger)
        (Once-index_trigger l1 l.lookup_id config.trigger d)

  Once-continue :
      (k : LookupMaps C B → Outcome C B) (out : Outcome C B)
      → ((l : LookupMaps C B) → Once l → Once (k l).0)
      → Once out.0
      → Once (continue C B k out).0
  Once-continue k (l, ok _) h d = h l d
  Once-continue k (l, err e) h d = d

  Once-add_workflows :
      (ws : Map WorkflowId Workflow) (l : LookupMaps C B) (sid : ServiceId)
      → Once l
      → Once (add_workflows C B l sid ws).0
  unfolding add_workflows
  Once-add_workflows [] l sid d = d
  Once-add_workflows ((wid, w) ∷ ws) l sid d =
      let config : TriggerConfig = record {
        service_id = sid;
        workflow_id = wid;
        trigger = w.trigger;
      } in
      Once-continue (λ l'. add_workflows C B l' sid ws) (add_config C B l config)
        (λ l' d'. Once-add_workflows ws l' sid d') (Once-add_config l config d)

  pub Once-add_service :
      (l : LookupMaps C B) (sid : ServiceId) (service : Service)
      → Once l
      → Once (add_service C B l sid service).0
  unfolding add_service
  Once-add_service l sid service d = Once-add_workflows service.workflows _ sid d
