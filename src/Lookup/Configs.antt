-- ===== src/Lookup/Configs.antt =====
-- lookup.rs: the configs that stand behind ids, those of active services only.
use wavs.Prelude.{
  ◌≡◌, refl, sym, ap, ◌∙◌, subst, Bool, true, false, Option, none, some, List, [], ◌∷◌, ◌==◌,
  nat_eq, if◌then◌else◌, retain, any, arith, ◌↔◌, ◌⊎◌, inl, inr, Bool-cases, eq_iff, eq_refl,
}
use wavs.Prelude.Map.{Map, get}
use wavs.Types.Service.{TriggerConfig}
use wavs.Scheduler.Interval.{LookupId}
use wavs.Scheduler.Cron.{CronCrate}
use wavs.Services.Store.{Services, is_active}
use wavs.Lookup.Maps.{BiMapCrate, LookupMaps}
use wavs.Lookup.Entries.{has}

abbrev pub if_active : Services → Option TriggerConfig → Option TriggerConfig
if_active services none = none
if_active services (some config) =
    if is_active services config.service_id then some config else none

abbrev pub with_id : Option TriggerConfig → List TriggerConfig → List TriggerConfig
with_id none rest = rest
with_id (some config) rest = config ∷ rest

-- The `filter_map` over the ids.
unfoldable pub configs_of : Map LookupId TriggerConfig → List LookupId → List TriggerConfig
configs_of configs [] = []
configs_of configs (id ∷ ids) = with_id (get configs id) (configs_of configs ids)

module _ (C : CronCrate) (B : BiMapCrate) where
  unfoldable pub get_trigger_config : LookupMaps C B → Services → LookupId → Option TriggerConfig
  get_trigger_config l services id = if_active services (get l.trigger_configs id)

  unfoldable pub get_trigger_configs :
      LookupMaps C B → Services → List LookupId → List TriggerConfig
  unfolding configs_of
  get_trigger_configs l services ids =
      retain (λ config. is_active services config.service_id) (configs_of l.trigger_configs ids)

abbrev pub In : {A : Type 0} → A → List A → Type 0
In a [] = ⊥
In a (x ∷ xs) = (x ≡ a) ⊎ In a xs

-- The config of an id, its service being active.
pub record IsLive (configs : Map LookupId TriggerConfig) (services : Services) (id : LookupId)
    (config : TriggerConfig) : Type 0 where
  pub stored : get configs id ≡ some config
  pub live : is_active services config.service_id ≡ true

In-if :
    {A : Type 0} {c : A} (b : Bool) (d : A) (rest : List A)
    → In c (if b then d ∷ rest else rest)
    → ((b ≡ true) × (d ≡ c)) ⊎ In c rest
In-if true d rest (inl e) = inl (refl, e)
In-if true d rest (inr k) = inr k
In-if false d rest k = inr k

In-later :
    {A : Type 0} (c : A) (b : Bool) (d : A) (rest : List A)
    → In c rest
    → In c (if b then d ∷ rest else rest)
In-later c true d rest k = inr k
In-later c false d rest k = k

module _ (configs : Map LookupId TriggerConfig) (services : Services) (c : TriggerConfig) where
  abbrev Behind : List LookupId → Type 0
  Behind ids = (id : LookupId) × (has id ids ≡ true) × IsLive configs services id c

  abbrev live_configs : List LookupId → List TriggerConfig
  live_configs ids =
      retain (λ config. is_active services config.service_id) (configs_of configs ids)

  sound-step :
      (i : LookupId) (ids : List LookupId) (o : Option TriggerConfig)
      → get configs i ≡ o
      → (In c (live_configs ids) → Behind ids)
      → In c (
          retain
            (λ config. is_active services config.service_id)
            (with_id o (configs_of configs ids)))
      → Behind (i ∷ ids)
  unfolding retain any
  sound-step i ids none e ih h = let b = ih h in (b.0, ground (arith, b.1), b.2)
  sound-step i ids (some d) e ih h =
      elim (In-if (is_active services d.service_id) d (live_configs ids) h) [
        | inl (on, same) ↦ (
          i,
          ground (arith, eq_refl i),
          record {
            stored = e ∙ ap some same;
            live = subst (λ (x : TriggerConfig). is_active services x.service_id ≡ true) same on;
          },
        )
        | inr k ↦ let b = ih k in (b.0, ground (arith, b.1), b.2)
      ]

  live_sound : (ids : List LookupId) → In c (live_configs ids) → Behind ids
  unfolding retain configs_of
  live_sound [] h = absurd h
  live_sound (i ∷ ids) h = sound-step i ids (get configs i) refl (live_sound ids) h

  complete-step :
      (i : LookupId) (ids : List LookupId) (o : Option TriggerConfig)
      → (get configs i ≡ o)
      → (id : LookupId) → IsLive configs services id c
      → (has id ids ≡ true → In c (live_configs ids))
      → has id (i ∷ ids) ≡ true
      → In c (
          retain
            (λ config. is_active services config.service_id)
            (with_id o (configs_of configs ids)))
  unfolding retain any
  complete-step i ids none e id w ih h = ih (elim (Bool-cases (i == id)) [
    | inl same ↦
        let there : get configs i ≡ some c = ap (get configs) ((eq_iff i id).0 same) ∙ w.stored in
        absurd (ground (arith, e, there))
    | inr other ↦ ground (arith, h, other)
  ])
  complete-step i ids (some d) e id w ih h = elim (Bool-cases (i == id)) [
    | inl same ↦
        let there : some d ≡ some c = sym e ∙ ap (get configs) ((eq_iff i id).0 same) ∙ w.stored in
        let d_is : d ≡ c = cc there in
        rw (ap (λ (x : TriggerConfig). is_active services x.service_id) d_is ∙ w.live) (inl d_is)
    | inr other ↦
        In-later c (is_active services d.service_id) d (live_configs ids)
          (ih (ground (arith, h, other)))
  ]

  live_complete :
      (ids : List LookupId) (id : LookupId)
      → has id ids ≡ true
      → IsLive configs services id c
      → In c (live_configs ids)
  unfolding retain configs_of any
  live_complete [] id h w = absurd (ground arith)
  live_complete (i ∷ ids) id h w =
      complete-step i ids (get configs i) refl id w (λ k. live_complete ids id k w) h

-- The ids behind a config, of an active service, are those that the list has.
module _ (C : CronCrate) (B : BiMapCrate) where
  pub get_trigger_configs-In :
      (l : LookupMaps C B) (services : Services) (ids : List LookupId) (c : TriggerConfig)
      → In c (get_trigger_configs C B l services ids)
        ↔ ((id : LookupId) × (has id ids ≡ true) × IsLive l.trigger_configs services id c)
  unfolding get_trigger_configs
  get_trigger_configs-In l services ids c = (
    live_sound l.trigger_configs services c ids,
    λ b. live_complete l.trigger_configs services c ids b.0 b.1 b.2,
  )
