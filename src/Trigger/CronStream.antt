-- ===== src/Trigger/CronStream.antt =====
-- packages/wavs/src/subsystems/trigger/streams/cron_stream.rs: the tick of the cron scheduler each
-- second, its results grouped by their times.
use wavs.Prelude.{
  ℕ, suc, ◌≤◌, ◌<◌, ◌≡◌, refl, ap, ◌∙◌, sym, Bool, true, false, List, [], ◌∷◌, ◌++◌, map, ◌==◌,
  nat_eq, if◌then◌else◌, retain, arith, inl, inr,
}
use mathlib.Core.List.{append_assoc, append-nil}
use wavs.Prelude.Map.{Map}
use wavs.Scheduler.Interval.{LookupId, tick, push_at}
use wavs.Scheduler.Keys.{Ascending, push_at-Ascending, compare-cases}
use wavs.Scheduler.Cron.{CronCrate, cron_interval_state}
use wavs.Lookup.Maps.{BiMapCrate, LookupMaps}
use wavs.Trigger.Events.{CronHit}

-- `entry(scheduled_time).or_default().push(lookup_id)` for each result.
unfoldable pub group : List (LookupId × ℕ) → Map ℕ (List LookupId) → Map ℕ (List LookupId)
unfolding push_at
group [] m = m
group ((id, time) ∷ results) m = group results (push_at time id m)

unfoldable pub to_hits : Map ℕ (List LookupId) → List CronHit
to_hits [] = []
to_hits ((time, ids) ∷ m) = record { lookup_ids = ids; scheduled_time = time } ∷ to_hits m

module _ (C : CronCrate) (B : BiMapCrate) where
  unfoldable pub cron_tick : LookupMaps C B → ℕ → LookupMaps C B × List CronHit
  unfolding group to_hits
  cron_tick l now =
      let (sch, results) = tick (cron_interval_state C) l.cron_scheduler now in
      (record l { cron_scheduler = sch }, to_hits (group results []))

-- The ids of the results of one time, in their order.
abbrev pub ids_of_time : ℕ → List (LookupId × ℕ) → List LookupId
ids_of_time time results =
    map (λ (r : LookupId × ℕ). r.0) (retain (λ (r : LookupId × ℕ). r.1 == time) results)

-- The ids of all hits of one time.
abbrev pub hit_ids : ℕ → List CronHit → List LookupId
hit_ids time [] = []
hit_ids time (h ∷ hits) =
    if h.scheduled_time == time then h.lookup_ids ++ hit_ids time hits else hit_ids time hits

abbrev pub HitsAscend : ℕ → List CronHit → Type 0
HitsAscend lo [] = Unit
HitsAscend lo (h ∷ hits) = (lo ≤ h.scheduled_time) × HitsAscend (suc h.scheduled_time) hits

HitsAscend-to_hits :
    (lo : ℕ) (m : Map ℕ (List LookupId)) → Ascending lo m → HitsAscend lo (to_hits m)
unfolding to_hits
HitsAscend-to_hits lo [] a = tt
HitsAscend-to_hits lo ((t, ids) ∷ m) a = (a.0, HitsAscend-to_hits (suc t) m a.1)

none_before :
    (time lo : ℕ) (m : Map ℕ (List LookupId))
    → time < lo
    → Ascending lo m
    → hit_ids time (to_hits m) ≡ []
unfolding to_hits
none_before time lo [] lt a = refl
none_before time lo ((t, ids) ∷ m) lt a = ground (arith, none_before time (suc t) m)

pushed :
    (time t lo : ℕ) (id : LookupId) (m : Map ℕ (List LookupId))
    → Ascending lo m
    → hit_ids time (to_hits (push_at t id m))
      ≡ (if t == time then hit_ids time (to_hits m) ++ id ∷ [] else hit_ids time (to_hits m))
unfolding to_hits push_at
pushed time t lo id [] a = refl
pushed time t lo id ((u, ids) ∷ m) a = elim (compare-cases t u) [
  | inl e ↦
      rw (e, push_at)
        (ground (
          arith,
          none_before time u ((u, ids) ∷ m),
          append-nil (hit_ids time (to_hits ((u, ids) ∷ m))),
        ))
  | inr (inl (e, same)) ↦
      rw (e, push_at)
        (ground (arith, none_before time (suc u) m, append-nil (ids ++ id ∷ []), append-nil ids))
  | inr (inr e) ↦
      rw (e, push_at)
        (ground (
          arith,
          pushed time t (suc u) id m,
          append_assoc ids (hit_ids time (to_hits m)) (id ∷ []),
        ))
]

counted :
    (b : Bool) (id : LookupId) (before : List LookupId) (results : List (LookupId × ℕ)) (time t : ℕ)
    → (if b then before ++ id ∷ [] else before) ++ ids_of_time time results
      ≡ before
        ++ map
            (λ (r : LookupId × ℕ). r.0)
            (if b
              then (id, t) ∷ retain (λ (r : LookupId × ℕ). r.1 == time) results
              else retain (λ (r : LookupId × ℕ). r.1 == time) results)
counted true id before results time t = append_assoc before (id ∷ []) (ids_of_time time results)
counted false id before results time t = refl

grouped :
    (results : List (LookupId × ℕ)) (m : Map ℕ (List LookupId)) (time : ℕ)
    → Ascending 0 m
    → (hit_ids time (to_hits (group results m))
        ≡ hit_ids time (to_hits m) ++ ids_of_time time results)
      × Ascending 0 (group results m)
unfolding group retain
grouped [] m time a = (sym (append-nil _), a)
grouped ((id, t) ∷ results) m time a =
    let rest = grouped results (push_at t id m) time (push_at-Ascending 0 t id m (omega arith) a) in
    (
      rest.0
          ∙ ap (λ x. x ++ ids_of_time time results) (pushed time t 0 id m a)
          ∙ counted (t == time) id (hit_ids time (to_hits m)) results time t,
      rest.1,
    )

module _ (C : CronCrate) (B : BiMapCrate) where
  -- The hits of a tick of the cron stream have, for each time, the ids that the scheduler reports with
  -- that time, in its order, and their times strictly ascend; the tick keeps the scheduler's new state.
  pub cron_tick_lem :
      (l : LookupMaps C B) (now : ℕ)
      → let (l', hits) = cron_tick C B l now in
        let (sch, results) = tick (cron_interval_state C) l.cron_scheduler now in
        (l'.cron_scheduler ≡ sch)
        × ((time : ℕ) → hit_ids time hits ≡ ids_of_time time results)
        × HitsAscend 0 hits
  unfolding cron_tick
  cron_tick_lem l now =
      let results = (tick (cron_interval_state C) l.cron_scheduler now).1 in
      (
        refl,
        λ time. (grouped results [] time tt).0,
        HitsAscend-to_hits 0 (group results []) (grouped results [] 0 tt).1,
      )
