-- ===== src/Scheduler/Unique.antt =====
-- The lookup ids in interval_scheduler.rs: `trigger_ids` guards against duplicates, and a removed
-- trigger is gone from every place.
use wavs.Prelude.{
  ℕ, ◌+◌, ◌≤◌, ◌≡◌, refl, ◌⊎◌, inl, inr, Bool, true, false, not, List, [], ◌∷◌, ◌++◌, arith,
  if◌then◌else◌, retain, retain-append, any, ◌==◌, nat_eq, eq_refl, Bool-cases, ◌∙◌,
}
use wavs.Prelude.Map.{Map}
use wavs.Errors.{interval_start_after_end}
use wavs.Prelude.Result.{ok, err}
use wavs.Scheduler.Interval.{
  LookupId, IntervalState, IntervalScheduler, add_trigger, tick, is_other, cons_nonempty, remove_id,
  remove_trigger, starts_after_end, new,
}
use wavs.Scheduler.Keys.{states}
use wavs.Scheduler.Ids.{KeepsId, named, occ, occ-append, total, named-append, tick-total}

abbrev pub knows : {S : Type 0} → IntervalScheduler S → LookupId → Bool
knows sch id = any (λ j. j == id) sch.trigger_ids

module _ {S : Type 0} (I : IntervalState S) where
  -- Every id is held by one state at most, and by none if `trigger_ids` lacks it.
  abbrev pub IsUnique : IntervalScheduler S → Type 0
  IsUnique sch =
      (id : LookupId)
      → occ I id sch.unadded_triggers + occ I id (states sch.triggers)
        ≤ (if knows sch id then 1 else 0)

  pub new-IsUnique : IsUnique new
  unfolding new any retain
  new-IsUnique id = omega arith

  states-cons_nonempty :
      (t : ℕ) (ss : List S) (m : Map ℕ (List S)) → states (cons_nonempty t ss m) ≡ ss ++ states m
  unfolding cons_nonempty
  states-cons_nonempty t [] m = refl
  states-cons_nonempty t (s ∷ ss) m = refl

  -- What stays is exactly the other states, in their order.
  states-remove_id :
      (id : LookupId) (m : Map ℕ (List S))
      → states (remove_id I id m) ≡ retain (is_other I id) (states m)
  unfolding remove_id
  states-remove_id id [] = unfold retain in refl
  states-remove_id id ((t, ss) ∷ m) =
      rw (states-cons_nonempty, retain-append, states-remove_id id m)

  occ-retain :
      (id j : LookupId) (ss : List S)
      → occ I j (retain (is_other I id) ss) ≡ (if j == id then 0 else occ I j ss)
  unfolding retain is_other
  occ-retain id j [] = ground arith
  occ-retain id j (s ∷ ss) = ground (arith, occ-retain id j ss)

  knows-retain :
      (id j : LookupId) (l : List LookupId)
      → any (λ k. k == j) (retain (λ k. not (k == id)) l)
        ≡ (if j == id then false else any (λ k. k == j) l)
  unfolding retain any
  knows-retain id j [] = ground arith
  knows-retain id j (k ∷ l) = ground (arith, knows-retain id j l)

  remove_trigger-IsUnique :
      (sch : IntervalScheduler S) (id : LookupId)
      → IsUnique sch
      → IsUnique (remove_trigger I sch id).0
  unfolding remove_trigger
  remove_trigger-IsUnique sch id u j = rw (states-remove_id id sch.triggers) (
      ground (
        arith,
        u j,
        occ-retain id j sch.unadded_triggers,
        occ-retain id j (states sch.triggers),
        knows-retain id j sch.trigger_ids,
      ))

  pub add_trigger-IsUnique :
      (sch sch' : IntervalScheduler S) (s : S) (added : Bool)
      → IsUnique sch
      → add_trigger I sch s ≡ ok (sch', added)
      → IsUnique sch'
  unfolding add_trigger any retain
  add_trigger-IsUnique sch sch' s added u e id =
      ground (arith, u id, u (I.lookup_id s), occ-append I id sch.unadded_triggers (s ∷ []))

  tick-IsUnique :
      KeepsId I → (now : ℕ) (sch : IntervalScheduler S) → IsUnique sch → IsUnique (tick I sch now).0
  unfolding tick
  tick-IsUnique K now sch u id = omega (arith, u id, tick-total I K id now sch)

  -- From a scheduler without duplicates: a start after the end is refused; a known id leaves the
  -- scheduler as it was; a new one is known from then on, and held once. No duplicate arises.
  pub add_trigger_cases :
      (sch : IntervalScheduler S) (s : S)
      → IsUnique sch
      → ((starts_after_end (I.start_time s) (I.end_time s) ≡ true)
          × (add_trigger I sch s ≡ err interval_start_after_end))
        ⊎ ((starts_after_end (I.start_time s) (I.end_time s) ≡ false)
            × (knows sch (I.lookup_id s) ≡ true)
            × (add_trigger I sch s ≡ ok (sch, false)))
        ⊎ ((sch' : IntervalScheduler S) × (knows sch (I.lookup_id s) ≡ false)
            × (add_trigger I sch s ≡ ok (sch', true))
            × (knows sch' (I.lookup_id s) ≡ true)
            × (total I (I.lookup_id s) sch' ≡ 1)
            × IsUnique sch')
  unfolding add_trigger any retain
  add_trigger_cases sch s u = elim (Bool-cases (starts_after_end (I.start_time s) (I.end_time s))) [
    | inl bad ↦ inl (bad, rw bad)
    | inr fine ↦ elim (Bool-cases (knows sch (I.lookup_id s))) [
      | inl old ↦ inr (inl (fine, old, rw (fine, old)))
      | inr fresh ↦ inr (
          inr (
            record sch {
              trigger_ids = I.lookup_id s ∷ sch.trigger_ids;
              unadded_triggers = sch.unadded_triggers ++ s ∷ [];
            },
            fresh,
            rw (fine, fresh),
            ground arith,
            ground (
              arith,
              u (I.lookup_id s),
              occ-append I (I.lookup_id s) sch.unadded_triggers (s ∷ []),
            ),
            λ id.
                ground
                  (arith, u id, u (I.lookup_id s), occ-append I id sch.unadded_triggers (s ∷ [])),
          ))
    ]
  ]

  -- Ticks at the times of a list, one after another, and all that they report.
  abbrev pub reported_over : IntervalScheduler S → List ℕ → List (LookupId × ℕ)
  reported_over sch [] = []
  reported_over sch (now ∷ later) =
      let (sch', rs) = tick I sch now in rs ++ reported_over sch' later

  knows-tick :
      (sch : IntervalScheduler S) (now : ℕ) (id : LookupId)
      → knows (tick I sch now).0 id ≡ knows sch id
  unfolding tick
  knows-tick sch now id = refl

  unknown_never_reported :
      KeepsId I
      → (sch : IntervalScheduler S) (id : LookupId) (times : List ℕ) → IsUnique sch
      → knows sch id ≡ false
      → named id (reported_over sch times) ≡ 0
  unknown_never_reported K sch id [] u e = unfold retain in refl
  unknown_never_reported K sch id (now ∷ times) u e =
      let rest =
        unknown_never_reported K (tick I sch now).0 id times (tick-IsUnique K now sch u)
          (knows-tick sch now id ∙ e) in
      let none_here : total I id sch ≡ 0 = ground (arith, u id) in
      omega (
        arith,
        none_here,
        rest,
        tick-total I K id now sch,
        named-append id (tick I sch now).1 (reported_over (tick I sch now).0 times),
      )

  -- From a scheduler without duplicates, whose states keep their ids, `remove_trigger` says
  -- whether the id was known and keeps exactly the other states in their order; the ticks after
  -- it, at any times, do not report the id.
  pub remove_trigger_lem :
      KeepsId I
      → (sch : IntervalScheduler S) (id : LookupId) (times : List ℕ) → IsUnique sch
      → let (sch', existed) = remove_trigger I sch id in
        (existed ≡ knows sch id)
        × (states sch'.triggers ≡ retain (is_other I id) (states sch.triggers))
        × (sch'.unadded_triggers ≡ retain (is_other I id) sch.unadded_triggers)
        × (named id (reported_over sch' times) ≡ 0)
  unfolding remove_trigger
  remove_trigger_lem K sch id times u = (
    refl,
    states-remove_id id sch.triggers,
    refl,
    unknown_never_reported K (remove_trigger I sch id).0 id times (remove_trigger-IsUnique sch id u)
        (knows-retain id id sch.trigger_ids ∙ rw (eq_refl id)),
  )

  -- From a scheduler without duplicates, whose states keep their ids, a tick reports a known id
  -- at most once and an unknown one never, and leaves no duplicates.
  tick_reports_once :
      KeepsId I
      → (now : ℕ) (sch : IntervalScheduler S) (id : LookupId) → IsUnique sch
      → (named id (tick I sch now).1 ≤ (if knows sch id then 1 else 0))
        × IsUnique (tick I sch now).0
  tick_reports_once K now sch id u =
      (omega (arith, u id, tick-total I K id now sch), tick-IsUnique K now sch u)
