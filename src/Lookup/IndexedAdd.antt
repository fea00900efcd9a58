-- ===== src/Lookup/IndexedAdd.antt =====
-- `add_trigger` and `add_service` of lookup.rs keep the indexes in agreement with the configs, also
-- where they fail.
use wavs.Prelude.{
  ◌+◌, ◌%◌, ◌<◌, ◌≡◌, refl, sym, ap, ◌∙◌, ◌&&◌, Bool, true, false, Option, none, some, [], ◌∷◌,
  bytes_eq, ◌==◌, nat_eq, eq_iff, arith, if◌then◌else◌, Bool-cases, inl, inr, length,
}
use wavs.Prelude.Map.{Map, get, insert, get-insert}
use wavs.Prelude.Result.{ok, err}
use wavs.Types.Service.{ServiceId, WorkflowId, TriggerConfig, Service, Workflow, manager_address}
use wavs.Scheduler.Interval.{LookupId}
use wavs.Scheduler.Block.{u64_mod}
use wavs.Scheduler.Cron.{CronCrate}
use wavs.Lookup.Index.{set_insert}
use wavs.Lookup.Maps.{
  BiMapCrate, LookupMaps, Outcome, index_trigger, record_config, finish_add, add_config, continue,
  add_workflows, add_service,
}
use wavs.Lookup.Keys.{IndexKey, key_of, is_key, is_ok, ids_at, changed, ids_at-index_trigger}
use wavs.Lookup.Entries.{has, SameRest, SameRest-index_trigger}
use wavs.Lookup.Indexed.{IsIndexed, files, has-changed-insert, ids_at-rest, rest-IsIndexed}

-- The config of a new id, and those of the others.
added-files :
    (b : Bool) (c : TriggerConfig) (o : Option TriggerConfig) (k : IndexKey)
    → files (if b then some c else o) k ≡ (if b then is_key (key_of c.trigger) k else files o k)
added-files true c o k = refl
added-files false c o k = refl

-- The id is in no set before.
insert-new :
    (b x y f : Bool)
    → x ≡ f
    → (b ≡ true → f ≡ false)
    → (if y then (if b then true else x) else x) ≡ (if b then y else f)
insert-new b x y f e n = elim (Bool-cases b) [
  | inl same ↦ ground (arith, n same)
  | inr apart ↦ ground arith
]

module _ (C : CronCrate) (B : BiMapCrate) where
  no_config :
      (l : LookupMaps C B) (k : IndexKey) (j : LookupId)
      → IsIndexed C B l
      → (l.lookup_id == j) ≡ true
      → (o : Option TriggerConfig) → get l.trigger_configs j ≡ o
      → files o k ≡ false
  no_config l k j w same none e = refl
  no_config l k j w same (some c) e =
      let n : l.lookup_id ≡ j = (eq_iff l.lookup_id j).0 same in
      absurd (omega (arith, n, w.below j c e))

  stored :
      (l l' : LookupMaps C B) (config : TriggerConfig)
      → SameRest C B (record l { lookup_id = (l.lookup_id + 1) % u64_mod }) l'
      → (j : LookupId)
      → get (insert l.lookup_id config l'.trigger_configs) j
        ≡ (if l.lookup_id == j then some config else get l.trigger_configs j)
  stored l l' config s j =
      get-insert l.lookup_id j config l'.trigger_configs
      ∙ ap (λ m. if l.lookup_id == j then some config else get m j) s.configs

  below_new :
      (l l' : LookupMaps C B) (config : TriggerConfig)
      → SameRest C B (record l { lookup_id = (l.lookup_id + 1) % u64_mod }) l'
      → l.lookup_id + 1 < u64_mod
      → (j : LookupId) (c : TriggerConfig)
      → get (insert l.lookup_id config l'.trigger_configs) j ≡ some c
      → IsIndexed C B l
      → j < l'.lookup_id
  below_new l l' config s lt j c e w = elim (Bool-cases (l.lookup_id == j)) [
    | inl same ↦
        let n : l.lookup_id ≡ j = (eq_iff l.lookup_id j).0 same in omega (arith, n, s.counter, lt)
    | inr apart ↦
        let old : get l.trigger_configs j ≡ some c =
          sym (stored l l' config s j ∙ rw apart refl) ∙ e in
        omega (arith, w.below j c old, s.counter, lt)
  ]

  finish-IsIndexed :
      (l : LookupMaps C B) (config : TriggerConfig) (out : Outcome C B)
      → IsIndexed C B l
      → SameRest C B (record l { lookup_id = (l.lookup_id + 1) % u64_mod }) out.0
      → ((k : IndexKey)
          → ids_at C B out.0 k
            ≡ changed
                (is_ok out.1 && is_key (key_of config.trigger) k)
                (set_insert l.lookup_id)
                (ids_at C B l k))
      → l.lookup_id + 1 < u64_mod
      → IsIndexed C B (finish_add C B l.lookup_id config out).0
  unfolding record_config
  finish-IsIndexed l config (l', err e) w s h lt = record {
    filed = λ k j. ap (has j) (h k) ∙ w.filed k j ∙ ap (λ m. files (get m j) k) (sym s.configs);
    below = λ j c e'.
        let old : j < l.lookup_id = w.below j c (ap (λ m. get m j) (sym s.configs) ∙ e') in
        omega (arith, old, s.counter, lt);
  }
  finish-IsIndexed l config (l', ok _) w s h lt = record {
    filed = λ k j.
        ap (has j) (
          ids_at-rest C B l' (insert l.lookup_id config l'.trigger_configs)
            (record_config C B l' l.lookup_id config).service_workflows l'.service_manager
            l'.lookup_id k)
        ∙ ap (has j) (h k)
        ∙ has-changed-insert l.lookup_id j (is_key (key_of config.trigger) k) (ids_at C B l k)
        ∙ insert-new (l.lookup_id == j) _ (is_key (key_of config.trigger) k)
            (files (get l.trigger_configs j) k) (w.filed k j)
            (λ same. no_config l k j w same (get l.trigger_configs j) refl)
        ∙ sym (added-files (l.lookup_id == j) config (get l.trigger_configs j) k)
        ∙ ap (λ o. files o k) (sym (stored l l' config s j));
    below = λ j c e. below_new l l' config s lt j c e w;
  }

  counter-finish :
      (id : LookupId) (config : TriggerConfig) (out : Outcome C B)
      → (finish_add C B id config out).0.lookup_id ≡ out.0.lookup_id
  unfolding record_config
  counter-finish id config (l', err e) = refl
  counter-finish id config (l', ok _) = refl

  counter-add_config :
      (l : LookupMaps C B) (config : TriggerConfig)
      → (add_config C B l config).0.lookup_id ≡ (l.lookup_id + 1) % u64_mod
  unfolding add_config
  counter-add_config l config =
      counter-finish l.lookup_id config _
      ∙ (SameRest-index_trigger C B (record l { lookup_id = (l.lookup_id + 1) % u64_mod })
          l.lookup_id config.trigger).counter

  -- Adding a trigger to indexes that agree with the configs keeps them in agreement, whether it
  -- succeeds or fails, while the counter has room below 2^64.
  pub add_config-IsIndexed :
      (l : LookupMaps C B) (config : TriggerConfig)
      → IsIndexed C B l
      → l.lookup_id + 1 < u64_mod
      → IsIndexed C B (add_config C B l config).0
  unfolding add_config
  add_config-IsIndexed l config w lt =
      let l1 : LookupMaps C B = record l { lookup_id = (l.lookup_id + 1) % u64_mod } in
      finish-IsIndexed l config (index_trigger C B l1 l.lookup_id config.trigger) w
        (SameRest-index_trigger C B l1 l.lookup_id config.trigger)
        (λ k.
          ids_at-index_trigger C B l1 l.lookup_id config.trigger k
          ∙ ap (changed _ (set_insert l.lookup_id)) (
              ids_at-rest C B l l.trigger_configs l.service_workflows l.service_manager l1.lookup_id
                k))
        lt

  continue-IsIndexed :
      (next : LookupMaps C B → Outcome C B) (out : Outcome C B)
      → IsIndexed C B out.0
      → (IsIndexed C B out.0 → IsIndexed C B (next out.0).0)
      → IsIndexed C B (continue C B next out).0
  continue-IsIndexed next (l, ok _) w h = h w
  continue-IsIndexed next (l, err e) w h = w

  workflows-IsIndexed :
      (ws : Map WorkflowId Workflow) (l : LookupMaps C B) (sid : ServiceId)
      → IsIndexed C B l
      → l.lookup_id + length ws < u64_mod
      → IsIndexed C B (add_workflows C B l sid ws).0
  unfolding add_workflows
  workflows-IsIndexed [] l sid w lt = w
  workflows-IsIndexed ((wid, wf) ∷ ws) l sid w lt =
      let config : TriggerConfig = record {
        service_id = sid;
        workflow_id = wid;
        trigger = wf.trigger;
      } in
      let out = add_config C B l config in
      continue-IsIndexed (λ l'. add_workflows C B l' sid ws) out
        (add_config-IsIndexed l config w (omega (arith, lt)))
        (λ w'. workflows-IsIndexed ws out.0 sid w' (omega (arith, lt, counter-add_config l config)))

  -- Adding a service to indexes that agree with the configs keeps them in agreement, also if one of
  -- its triggers fails, while the counter has room for its workflows below 2^64.
  pub add_service-IsIndexed :
      (l : LookupMaps C B) (sid : ServiceId) (service : Service)
      → IsIndexed C B l
      → l.lookup_id + length service.workflows < u64_mod
      → IsIndexed C B (add_service C B l sid service).0
  unfolding add_service
  add_service-IsIndexed l sid service w lt =
      workflows-IsIndexed service.workflows _ sid
        (rest-IsIndexed C B l l.service_workflows
          (B.insert sid (manager_address service.manager) l.service_manager) w)
        lt
