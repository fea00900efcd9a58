-- ===== src/Lookup/Indexed.antt =====
-- The indexes of lookup.rs agree with its configs, and every operation keeps it so.
use wavs.Prelude.{
  ℕ, ◌<◌, ◌≡◌, refl, sym, ap, ◌∙◌, subst, Bool, true, false, Option, none, some, List, bytes_lt,
  bytes_eq, ◌==◌, nat_eq, eq_iff, arith, if◌then◌else◌, any, Bool-cases, inl, inr,
}
use wavs.Prelude.Map.{Map, get, insert_by, remove, get-remove}
use wavs.Types.Service.{ServiceId, WorkflowId, TriggerConfig}
use wavs.Scheduler.Interval.{LookupId, new}
use wavs.Scheduler.Cron.{CronCrate}
use wavs.Lookup.Index.{set_insert, set_remove}
use wavs.Lookup.Maps.{
  BiMapCrate, LookupMaps, new_maps, unindex_config, forget_id, remove_workflow, remove_from_service,
  remove_found_workflow,
}
use wavs.Lookup.Keys.{
  IndexKey, evm, cosmos, exact, pattern_of, feed, blocks, clock, key_of, is_key, ids_at, changed,
  ids_at-unindex_trigger,
}
use wavs.Lookup.Entries.{has, has-set_insert, has-set_remove, SameRest, SameRest-unindex_trigger}

-- Whether a stored config is to be found under a key.
abbrev pub files : Option TriggerConfig → IndexKey → Bool
files none k = false
files (some c) k = is_key (key_of c.trigger) k

has-changed-remove :
    (id j : LookupId) (b : Bool) (ids : List LookupId)
    → has j (changed b (set_remove id) ids)
      ≡ (if b then (if id == j then false else has j ids) else has j ids)
has-changed-remove id j true ids = has-set_remove j id ids
has-changed-remove id j false ids = refl

pub has-changed-insert :
    (id j : LookupId) (b : Bool) (ids : List LookupId)
    → has j (changed b (set_insert id) ids)
      ≡ (if b then (if id == j then true else has j ids) else has j ids)
has-changed-insert id j true ids = has-set_insert j id ids
has-changed-insert id j false ids = refl

-- Taking out an id that is not there changes nothing.
absent :
    (id j : LookupId) (ids : List LookupId)
    → (has id ids ≡ true → false ≡ true)
    → has j ids ≡ (if id == j then false else has j ids)
absent id j ids h = elim (Bool-cases (id == j)) [
  | inl same ↦ elim (Bool-cases (has id ids)) [
    | inl there ↦ absurd (ground (arith, h there))
    | inr gone ↦ rw same (subst (λ x. has x ids ≡ false) ((eq_iff id j).0 same) gone)
  ]
  | inr apart ↦ rw apart refl
]

drop-if :
    (id j : LookupId) (ids : List LookupId) (b : Bool)
    → (has id ids ≡ true → b ≡ true)
    → (if b then (if id == j then false else has j ids) else has j ids)
      ≡ (if id == j then false else has j ids)
drop-if id j ids true h = refl
drop-if id j ids false h = absent id j ids h

pub files-if :
    (b : Bool) (o : Option TriggerConfig) (k : IndexKey)
    → files (if b then none else o) k ≡ (if b then false else files o k)
files-if true o k = refl
files-if false o k = refl

pub kept :
    (b : Bool) (o : Option TriggerConfig) (c : TriggerConfig)
    → (if b then none else o) ≡ some c
    → o ≡ some c
kept true o c e = absurd (ground arith)
kept false o c e = e

module _ (C : CronCrate) (B : BiMapCrate) where
  -- Under every key stand exactly the ids whose config has that key; ids are below the counter.
  pub record IsIndexed (l : LookupMaps C B) : Type 0 where
    pub filed :
        (k : IndexKey) (id : LookupId)
        → has id (ids_at C B l k) ≡ files (get l.trigger_configs id) k
    pub below :
        (id : LookupId) (c : TriggerConfig) → get l.trigger_configs id ≡ some c → id < l.lookup_id

  abbrev pub OnlyFiled : LookupMaps C B → Type 0
  OnlyFiled l =
      (k : IndexKey) (id : LookupId)
      → has id (ids_at C B l k) ≡ true
      → files (get l.trigger_configs id) k ≡ true

  -- Only the indexes and the schedulers matter for what stands under a key.
  pub ids_at-rest :
      (l : LookupMaps C B) (configs : Map LookupId TriggerConfig)
      (workflows : Map ServiceId (Map WorkflowId LookupId)) (manager : B.BiMap) (counter : ℕ)
      (k : IndexKey)
      → ids_at C B
          (record l {
            trigger_configs = configs;
            service_workflows = workflows;
            service_manager = manager;
            lookup_id = counter;
          })
          k
        ≡ ids_at C B l k
  ids_at-rest l configs workflows manager counter (evm k) = refl
  ids_at-rest l configs workflows manager counter (cosmos k) = refl
  ids_at-rest l configs workflows manager counter (exact k) = refl
  ids_at-rest l configs workflows manager counter (pattern_of k) = refl
  ids_at-rest l configs workflows manager counter (feed k) = refl
  ids_at-rest l configs workflows manager counter (blocks chain) = refl
  ids_at-rest l configs workflows manager counter clock = refl

  pub unfile :
      (l : LookupMaps C B) (id j : LookupId) (k : IndexKey) (o : Option TriggerConfig)
      → (has id (ids_at C B l k) ≡ true → files o k ≡ true)
      → has j (ids_at C B (unindex_config C B l id o) k)
        ≡ (if id == j then false else has j (ids_at C B l k))
  unfile l id j k none h = absent id j (ids_at C B l k) h
  unfile l id j k (some c) h =
      ap (has j) (ids_at-unindex_trigger C B l id c.trigger k)
      ∙ has-changed-remove id j (is_key (key_of c.trigger) k) (ids_at C B l k)
      ∙ drop-if id j (ids_at C B l k) (is_key (key_of c.trigger) k) h

  pub SameRest-unindex_config :
      (l : LookupMaps C B) (id : LookupId) (o : Option TriggerConfig)
      → SameRest C B l (unindex_config C B l id o)
  SameRest-unindex_config l id none = record { configs = refl; workflows = refl; counter = refl }
  SameRest-unindex_config l id (some c) = SameRest-unindex_trigger C B l id c.trigger

  none_filed : (k : IndexKey) (id : LookupId) → has id (ids_at C B (new_maps C B) k) ≡ false
  unfolding new_maps get any new
  none_filed (evm k) id = refl
  none_filed (cosmos k) id = refl
  none_filed (exact k) id = refl
  none_filed (pattern_of k) id = refl
  none_filed (feed k) id = refl
  none_filed (blocks chain) id = refl
  none_filed clock id = refl

  pub new_maps-IsIndexed : IsIndexed (new_maps C B)
  unfolding new_maps get
  new_maps-IsIndexed = record { filed = none_filed; below = λ id c e. absurd (ground arith) }

  pub configs_without :
      {l l' : LookupMaps C B} (id j : LookupId)
      → SameRest C B l l'
      → get (remove id l'.trigger_configs) j ≡ (if id == j then none else get l.trigger_configs j)
  configs_without {l} {l'} id j s =
      get-remove id j l'.trigger_configs ∙ ap (λ m. if id == j then none else get m j) s.configs

  forget_id-IsIndexed :
      (l : LookupMaps C B) (id : LookupId) → IsIndexed l → IsIndexed (forget_id C B l id)
  unfolding forget_id
  forget_id-IsIndexed l id w =
      let o = get l.trigger_configs id in
      let l' = unindex_config C B l id o in
      let s = SameRest-unindex_config l id o in
      record {
        filed = λ k j.
            ap (has j) (
              ids_at-rest l' (remove id l'.trigger_configs) l'.service_workflows l'.service_manager
                l'.lookup_id k)
            ∙ unfile l id j k o (λ h. sym (w.filed k id) ∙ h)
            ∙ ap (λ x. if id == j then false else x) (w.filed k j)
            ∙ sym (files-if (id == j) (get l.trigger_configs j) k)
            ∙ sym (ap (λ x. files x k) (configs_without id j s));
        below = λ j c e.
            subst (λ n. j < n) (sym s.counter)
              (w.below j c
                (kept (id == j) (get l.trigger_configs j) c (sym (configs_without id j s) ∙ e)));
      }

  pub rest-IsIndexed :
      (l : LookupMaps C B) (workflows : Map ServiceId (Map WorkflowId LookupId)) (manager : B.BiMap)
      → IsIndexed l
      → IsIndexed (record l { service_workflows = workflows; service_manager = manager })
  rest-IsIndexed l workflows manager w = record {
    filed = λ k id.
        ap (has id) (ids_at-rest l l.trigger_configs workflows manager l.lookup_id k)
        ∙ w.filed k id;
    below = w.below;
  }

  found-IsIndexed :
      (l : LookupMaps C B) (sid : ServiceId) (wid : WorkflowId) (m : Map WorkflowId LookupId)
      (o : Option LookupId)
      → IsIndexed l
      → IsIndexed (remove_found_workflow C B l sid wid m o).0
  found-IsIndexed l sid wid m none w = w
  found-IsIndexed l sid wid m (some id) w = forget_id-IsIndexed _ id (
      rest-IsIndexed l (insert_by bytes_lt sid (remove wid m) l.service_workflows) l.service_manager
        w)

  from_service-IsIndexed :
      (l : LookupMaps C B) (sid : ServiceId) (wid : WorkflowId)
      (o : Option (Map WorkflowId LookupId))
      → IsIndexed l
      → IsIndexed (remove_from_service C B l sid wid o).0
  from_service-IsIndexed l sid wid none w = w
  from_service-IsIndexed l sid wid (some m) w = found-IsIndexed l sid wid m (get m wid) w

  -- `remove_workflow`, failed or not, keeps the indexes in agreement with the configs.
  pub remove_workflow-IsIndexed :
      (l : LookupMaps C B) (sid : ServiceId) (wid : WorkflowId)
      → IsIndexed l
      → IsIndexed (remove_workflow C B l sid wid).0
  unfolding remove_workflow
  remove_workflow-IsIndexed l sid wid w =
      from_service-IsIndexed l sid wid (get l.service_workflows sid) w
