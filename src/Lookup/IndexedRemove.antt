-- ===== src/Lookup/IndexedRemove.antt =====
-- `remove_service` of lookup.rs keeps the indexes in agreement with the configs, and leaves none of
-- the service's ids.
use wavs.Prelude.{
  ◌≡◌, refl, sym, ap, ◌∙◌, subst, ◌<◌, Bool, true, false, ◌||◌, Option, none, some, List, [], ◌∷◌,
  bytes_eq, bytes_lt, eq_refl, ◌==◌, nat_eq, arith, if◌then◌else◌, any,
}
use wavs.Prelude.Map.{Map, get, remove, insert_by, get-insert_by}
use wavs.Prelude.Result.{ok}
use wavs.Types.Service.{ServiceId, WorkflowId}
use wavs.Scheduler.Interval.{LookupId}
use wavs.Scheduler.Cron.{CronCrate}
use wavs.Lookup.Maps.{
  BiMapCrate, LookupMaps, values, remove_configs, workflows_or_empty, unindex_config, unindex_all,
  remove_service, remove_workflow, forget_id, remove_workflows,
}
use wavs.Lookup.Keys.{IndexKey, ids_at}
use wavs.Lookup.Entries.{has, get-remove_configs, SameRest, SameRest-trans}
use wavs.Lookup.Indexed.{
  IsIndexed, OnlyFiled, files, files-if, kept, ids_at-rest, unfile, configs_without,
  remove_workflow-IsIndexed, SameRest-unindex_config, rest-IsIndexed,
}

if-true : (b x : Bool) → (if b then false else x) ≡ true → x ≡ true
if-true b x h = ground arith

if-or :
    (a b x : Bool) → (if b then false else if a then false else x) ≡ (if a || b then false else x)
if-or a b x = ground arith

module _ (C : CronCrate) (B : BiMapCrate) where
  unindex-OnlyFiled :
      (l : LookupMaps C B) (id : LookupId)
      → OnlyFiled C B l
      → OnlyFiled C B (unindex_config C B l id (get l.trigger_configs id))
  unindex-OnlyFiled l id w k j h =
      subst (λ m. files (get m j) k ≡ true)
        (sym (SameRest-unindex_config C B l id (get l.trigger_configs id)).configs)
        (w k j
          (if-true (id == j) _ (sym (unfile C B l id j k (get l.trigger_configs id) (w k id)) ∙ h)))

  pub SameRest-unindex_all :
      (ids : List LookupId) (l : LookupMaps C B) → SameRest C B l (unindex_all C B l ids)
  unfolding unindex_all
  SameRest-unindex_all [] l = record { configs = refl; workflows = refl; counter = refl }
  SameRest-unindex_all (id ∷ ids) l =
      SameRest-trans C B (SameRest-unindex_config C B l id (get l.trigger_configs id))
        (SameRest-unindex_all ids _)

  unfile_all :
      (ids : List LookupId) (l : LookupMaps C B) (j : LookupId) (k : IndexKey)
      → OnlyFiled C B l
      → has j (ids_at C B (unindex_all C B l ids) k)
        ≡ (if has j ids then false else has j (ids_at C B l k))
  unfolding unindex_all any
  unfile_all [] l j k w = refl
  unfile_all (id ∷ ids) l j k w =
      unfile_all ids (unindex_config C B l id (get l.trigger_configs id)) j k
        (unindex-OnlyFiled l id w)
      ∙ ap (λ x. if has j ids then false else x)
          (unfile C B l id j k (get l.trigger_configs id) (w k id))
      ∙ if-or (id == j) (has j ids) (has j (ids_at C B l k))

  configs_after :
      (l : LookupMaps C B) (ids : List LookupId) (j : LookupId)
      → get (remove_configs ids (unindex_all C B l ids).trigger_configs) j
        ≡ (if has j ids then none else get l.trigger_configs j)
  configs_after l ids j =
      get-remove_configs ids (unindex_all C B l ids).trigger_configs j
      ∙ ap (λ m. if has j ids then none else get m j) (SameRest-unindex_all ids l).configs

  workflows-IsIndexed :
      (l : LookupMaps C B) (sid : ServiceId) (o : Option (Map WorkflowId LookupId))
      → IsIndexed C B l
      → IsIndexed C B (remove_workflows C B l sid o)
  workflows-IsIndexed l sid none w = w
  workflows-IsIndexed l sid (some m) w =
      let ids = values m in
      let l' = unindex_all C B l ids in
      record {
        filed = λ k j.
            ap (has j) (
              ids_at-rest C B l' (remove_configs ids l'.trigger_configs)
                (remove sid l'.service_workflows) l'.service_manager l'.lookup_id k)
            ∙ unfile_all ids l j k (λ k' id h. sym (w.filed k' id) ∙ h)
            ∙ ap (λ x. if has j ids then false else x) (w.filed k j)
            ∙ sym (files-if (has j ids) (get l.trigger_configs j) k)
            ∙ sym (ap (λ x. files x k) (configs_after l ids j));
        below = λ j c e.
            subst (λ n. j < n) (sym (SameRest-unindex_all ids l).counter)
              (w.below j c
                (kept (has j ids) (get l.trigger_configs j) c (sym (configs_after l ids j) ∙ e)));
      }

  removed :
      (l : LookupMaps C B) (sid : ServiceId) (o : Option (Map WorkflowId LookupId)) (j : LookupId)
      → get (remove_workflows C B l sid o).trigger_configs j
        ≡ (if has j (values (workflows_or_empty C B o)) then none else get l.trigger_configs j)
  unfolding any
  removed l sid none j = refl
  removed l sid (some m) j = configs_after l (values m) j

  -- From indexes that agree with the configs, `remove_service` keeps them in agreement, removes the
  -- configs of exactly the ids in the service's workflow map, and keeps every other config.
  pub remove_service-IsIndexed :
      (l : LookupMaps C B) (sid : ServiceId)
      → IsIndexed C B l
      → let l' = remove_service C B l sid in
        IsIndexed C B l'
        × ((id : LookupId)
            → get l'.trigger_configs id ≡ (
                if has id (values (workflows_or_empty C B (get l.service_workflows sid)))
                then none
                else get l.trigger_configs id))
  unfolding remove_service
  remove_service-IsIndexed l sid w =
      let l₀ : LookupMaps C B = record l {
        service_manager = B.remove_by_left sid l.service_manager;
      } in
      (
        workflows-IsIndexed l₀ sid (get l.service_workflows sid)
            (rest-IsIndexed C B l l.service_workflows (B.remove_by_left sid l.service_manager) w),
        removed l₀ sid (get l.service_workflows sid),
      )

  -- From indexes that agree with the configs, removing a workflow that its service has succeeds,
  -- removes the config of its id and no other, takes the workflow out of the service's map, and keeps
  -- the indexes in agreement.
  pub remove_workflow_lem :
      (l : LookupMaps C B) (sid : ServiceId) (wid : WorkflowId) (m : Map WorkflowId LookupId)
      (id : LookupId)
      → IsIndexed C B l
      → get l.service_workflows sid ≡ some m
      → get m wid ≡ some id
      → let (l', result) = remove_workflow C B l sid wid in
        (result ≡ ok tt)
        × ((j : LookupId)
            → get l'.trigger_configs j ≡ (if id == j then none else get l.trigger_configs j))
        × (get l'.service_workflows sid ≡ some (remove wid m))
        × IsIndexed C B l'
  unfolding remove_workflow forget_id
  remove_workflow_lem l sid wid m id w e f =
      let l₀ : LookupMaps C B = record l {
        service_workflows = insert_by bytes_lt sid (remove wid m) l.service_workflows;
      } in
      let s = SameRest-unindex_config C B l₀ id (get l.trigger_configs id) in
      (
        rw (e, f) refl,
        λ j. rw (e, f) (configs_without C B id j s),
        rw (e, f)
            (ap (λ x. get x sid) s.workflows
              ∙ get-insert_by bytes_lt sid sid (remove wid m) l.service_workflows
              ∙ rw (eq_refl sid) refl),
        remove_workflow-IsIndexed C B l sid wid w,
      )
