-- ===== src/Lookup/Entries.antt =====
-- Membership in the sets of lookup.rs, and what filing and unfiling leave alone.
use wavs.Errors.{TriggerError}
use wavs.Prelude.Result.{Result, ok, err, ◌>>=◌}
use wavs.Prelude.{
  ◌∙◌, if-both, ◌≡◌, refl, Bool, true, false, Option, none, some, List, [], ◌∷◌, arith,
  if◌then◌else◌, any, retain, ◌==◌, nat_eq, bytes_eq,
}
use wavs.Prelude.Map.{Map, get, remove, get-remove}
use wavs.Types.Chain.{chain_key_eq}
use wavs.Types.Service.{TriggerConfig, Trigger, block_interval, at_proto_event, cron}
use wavs.Scheduler.Interval.{LookupId, IntervalScheduler, add_trigger}
use wavs.Scheduler.Block.{BlockScheduler, block_interval_state}
use wavs.Scheduler.Block
use wavs.Scheduler.Cron
use wavs.Scheduler.Cron.{CronCrate, CronIntervalState, cron_interval_state}
use wavs.Lookup.Index.{set_insert, set_remove}
use wavs.Lookup.Maps.{
  BiMapCrate, LookupMaps, remove_configs, has_wildcard, unindex_trigger, unschedule_block,
  index_trigger, block_scheduler, Outcome, with_block_scheduler, with_cron_scheduler,
}

abbrev pub has : LookupId → List LookupId → Bool
has id ids = any (λ j. j == id) ids

pub has-set_insert :
    (id j : LookupId) (ids : List LookupId)
    → has id (set_insert j ids) ≡ (if j == id then true else has id ids)
unfolding set_insert any
has-set_insert id j ids = ground arith

pub has-set_remove :
    (id j : LookupId) (ids : List LookupId)
    → has id (set_remove j ids) ≡ (if j == id then false else has id ids)
unfolding set_remove any retain
has-set_remove id j [] = ground arith
has-set_remove id j (i ∷ ids) = ground (arith, has-set_remove id j ids)

pub get-remove_configs :
    (ids : List LookupId) (m : Map LookupId TriggerConfig) (id : LookupId)
    → get (remove_configs ids m) id ≡ (if has id ids then none else get m id)
unfolding remove_configs any
get-remove_configs [] m id = refl
get-remove_configs (j ∷ ids) m id =
    ground (arith, get-remove_configs ids (remove j m) id, get-remove j id m)

-- Filing and unfiling leave the configs, the workflow maps and the id counter alone.
module _ (C : CronCrate) (B : BiMapCrate) where
  pub record SameRest (l l' : LookupMaps C B) : Type 0 where
    pub configs : l'.trigger_configs ≡ l.trigger_configs
    pub workflows : l'.service_workflows ≡ l.service_workflows
    pub counter : l'.lookup_id ≡ l.lookup_id

  pub SameRest-trans : {l m n : LookupMaps C B} → SameRest l m → SameRest m n → SameRest l n
  SameRest-trans h k = record {
    configs = k.configs ∙ h.configs;
    workflows = k.workflows ∙ h.workflows;
    counter = k.counter ∙ h.counter;
  }

  pub SameRest-unindex_trigger :
      (l : LookupMaps C B) (id : LookupId) (t : Trigger) → SameRest l (unindex_trigger C B l id t)
  unfolding unindex_trigger
  SameRest-unindex_trigger l id (block_interval chain n s e) = same (get l.block_schedulers chain)
    where
      same : (o : Option BlockScheduler) → SameRest l (unschedule_block C B l chain id o)
      same none = record { configs = refl; workflows = refl; counter = refl }
      same (some sch) = record { configs = refl; workflows = refl; counter = refl }
  SameRest-unindex_trigger l id (at_proto_event collection repo_did action) =
      if-both (SameRest l) (has_wildcard collection) _ _
        (record { configs = refl; workflows = refl; counter = refl })
        (record { configs = refl; workflows = refl; counter = refl })
  SameRest-unindex_trigger l id _ = record { configs = refl; workflows = refl; counter = refl }

  pub SameRest-index_trigger :
      (l : LookupMaps C B) (id : LookupId) (t : Trigger) → SameRest l (index_trigger C B l id t).0
  unfolding index_trigger
  SameRest-index_trigger l id (block_interval chain n s e) =
      same (add_trigger block_interval_state (block_scheduler C B l chain) (Block.new id n s e))
    where
      same :
          (r : Result TriggerError (BlockScheduler × Bool))
          → SameRest l (with_block_scheduler C B l chain (block_scheduler C B l chain) r).0
      same (ok (sch, added)) = record { configs = refl; workflows = refl; counter = refl }
      same (err x) = record { configs = refl; workflows = refl; counter = refl }
  SameRest-index_trigger l id (cron schedule start end) = same (do
    state ← Cron.new C id schedule start end
    add_trigger (cron_interval_state C) l.cron_scheduler state)
    where
      same :
          (r : Result TriggerError (IntervalScheduler (CronIntervalState C) × Bool))
          → SameRest l (with_cron_scheduler C B l r).0
      same (ok (sch, added)) = record { configs = refl; workflows = refl; counter = refl }
      same (err x) = record { configs = refl; workflows = refl; counter = refl }
  SameRest-index_trigger l id (at_proto_event collection repo_did action) =
      if-both (λ (o : Outcome C B). SameRest l o.0) (has_wildcard collection) _ _
        (record { configs = refl; workflows = refl; counter = refl })
        (record { configs = refl; workflows = refl; counter = refl })
  SameRest-index_trigger l id _ = record { configs = refl; workflows = refl; counter = refl }
