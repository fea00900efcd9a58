-- ===== src/Scheduler/Ids.antt =====
-- How often a lookup id occurs in the scheduler of interval_scheduler.rs, and that a tick neither
-- reports it more often nor duplicates its state.
use wavs.Prelude.{
  ℕ, ◌+◌, ◌≤◌, ◌≡◌, refl, inl, inr, Option, none, some, List, [], ◌∷◌, ◌++◌, arith, ltb, retain,
  retain-append, length, length-append, ◌==◌, nat_eq, Bool-cases,
}
use wavs.Prelude.Map.{Map}
use wavs.Scheduler.Interval.{
  LookupId, IntervalState, IntervalScheduler, push_at, push_all, with_time, next_time, until_end,
  add_unadded, visit, visit_all, pop_due, tick,
}
use wavs.Scheduler.Keys.{states, compare-cases}

pub record KeepsId {S : Type 0} (I : IntervalState S) : Type 0 where
  pub hit : (s : S) (now : ℕ) → I.lookup_id (I.interval_hit s now).0 ≡ I.lookup_id s
  pub init : (s : S) (now : ℕ) → I.lookup_id (I.initialize s now).0 ≡ I.lookup_id s

-- How many of the results name an id.
abbrev pub named : LookupId → List (LookupId × ℕ) → ℕ
named id rs = length (retain (λ r. r.0 == id) rs)

abbrev pub values : {S : Type 0} → List (ℕ × S) → List S
values [] = []
values ((t, s) ∷ l) = s ∷ values l

values-append : {S : Type 0} (l k : List (ℕ × S)) → values (l ++ k) ≡ values l ++ values k
values-append [] k = refl
values-append ((t, s) ∷ l) k = rw (values-append l k)

pub named-append :
    (id : LookupId) (l k : List (LookupId × ℕ)) → named id (l ++ k) ≡ named id l + named id k
named-append id l k = rw retain-append (length-append _ _)

module _ {S : Type 0} (I : IntervalState S) where
  -- How many states have an id.
  abbrev pub occ : LookupId → List S → ℕ
  occ id ss = length (retain (λ s. I.lookup_id s == id) ss)

  abbrev pub total : LookupId → IntervalScheduler S → ℕ
  total id sch = occ id sch.unadded_triggers + occ id (states sch.triggers)

  pub occ-append : (id : LookupId) (ss us : List S) → occ id (ss ++ us) ≡ occ id ss + occ id us
  occ-append id ss us = rw retain-append (length-append _ _)

  occ-push_at :
      (id : LookupId) (t : ℕ) (s : S) (m : Map ℕ (List S))
      → occ id (states (push_at t s m)) ≡ occ id (s ∷ []) + occ id (states m)
  unfolding push_at retain
  occ-push_at id t s [] = omega arith
  occ-push_at id t s ((u, ss) ∷ m) = elim (compare-cases t u) [
    | inl e ↦ rw (e, push_at) (occ-append id (s ∷ []) (ss ++ states m))
    | inr (inl (e, _)) ↦
        rw (e, push_at)
          (omega (
            arith,
            occ-append id ss (s ∷ []),
            occ-append id (ss ++ s ∷ []) (states m),
            occ-append id ss (states m),
          ))
    | inr (inr e) ↦
        rw (e, push_at)
          (omega (
            arith,
            occ-push_at id t s m,
            occ-append id ss (states m),
            occ-append id ss (states (push_at t s m)),
          ))
  ]

  occ-push_all :
      (id : LookupId) (l : List (ℕ × S)) (m : Map ℕ (List S))
      → occ id (states (push_all l m)) ≡ occ id (values l) + occ id (states m)
  unfolding push_all retain
  occ-push_all id [] m = omega arith
  occ-push_all id ((t, s) ∷ l) m = omega (
    arith,
    occ-push_all id l (push_at t s m),
    occ-push_at id t s m,
    occ-append id (s ∷ []) (values l),
  )

  occ_cons : (id : LookupId) (s : S) (ss : List S) → occ id (s ∷ ss) ≡ occ id (s ∷ []) + occ id ss
  occ_cons id s ss = occ-append id (s ∷ []) ss

module _ {S : Type 0} (I : IntervalState S) (K : KeepsId I) (id : LookupId) (now : ℕ) where
  -- A visit names and keeps no state that was not there.
  abbrev Bounded : List S → List (LookupId × ℕ) → List (ℕ × S) → Type 0
  Bounded ss r a = (named id r ≤ occ I id ss) × (occ I id (values a) ≤ occ I id ss)

  visit-Bounded : (t : ℕ) (s : S) → Bounded (s ∷ []) (visit I now t s).0 (visit I now t s).1
  unfolding visit retain next_time until_end
  visit-Bounded t s = ground (arith, K.hit s now)

  both-Bounded :
      (ss us : List S) (r q : List (LookupId × ℕ)) (a b : List (ℕ × S))
      → Bounded ss r a
      → Bounded us q b
      → Bounded (ss ++ us) (r ++ q) (a ++ b)
  both-Bounded ss us r q a b h k = rw (values-append a b) (
      omega (
        arith,
        named-append id r q,
        occ-append I id ss us,
        occ-append I id (values a) (values b),
        h,
        k,
      ))

  visit_all-Bounded :
      (t : ℕ) (ss : List S) → Bounded ss (visit_all I now t ss).0 (visit_all I now t ss).1
  unfolding visit_all
  visit_all-Bounded t [] = unfold retain in (omega arith, omega arith)
  visit_all-Bounded t (s ∷ ss) =
      both-Bounded (s ∷ []) ss _ _ _ _ (visit-Bounded t s) (visit_all-Bounded t ss)

  pop_due-Bounded :
      (m : Map ℕ (List S))
      → (named id (pop_due I now m).1 ≤ occ I id (states m))
        × (occ I id (values (pop_due I now m).2) + occ I id (states (pop_due I now m).0)
            ≤ occ I id (states m))
  unfolding pop_due
  pop_due-Bounded [] = unfold retain in (omega arith, omega arith)
  pop_due-Bounded ((t, ss) ∷ m) = elim (Bool-cases (ltb now t)) [
    | inl late ↦ rw (late, pop_due) (unfold retain in (omega arith, omega arith))
    | inr due ↦
        rw (due, pop_due)
          (rw values-append (
            omega (
              arith,
              visit_all-Bounded t ss,
              pop_due-Bounded m,
              named-append id (visit_all I now t ss).0 (pop_due I now m).1,
              occ-append I id ss (states m),
              occ-append I id (values (visit_all I now t ss).1) (values (pop_due I now m).2),
            )))
  ]

  with_time-occ :
      (s : S) (next : Option ℕ) → occ I id (values (with_time s next)) ≤ occ I id (s ∷ [])
  unfolding retain
  with_time-occ s none = omega arith
  with_time-occ s (some t) = omega arith

  same-occ : (s u : S) → I.lookup_id s ≡ I.lookup_id u → occ I id (s ∷ []) ≡ occ I id (u ∷ [])
  unfolding retain
  same-occ s u e = ground arith

  add_unadded-occ :
      (ss : List S) (m : Map ℕ (List S))
      → occ I id (states (add_unadded I now ss m)) ≤ occ I id ss + occ I id (states m)
  unfolding add_unadded
  add_unadded-occ [] m = unfold retain in omega arith
  add_unadded-occ (s ∷ ss) m =
      let (s', next) = I.initialize s now in
      omega (
        arith,
        add_unadded-occ ss (push_all (with_time s' next) m),
        occ-push_all I id (with_time s' next) m,
        with_time-occ s' next,
        same-occ s' s (K.init s now),
        occ_cons I id s ss,
      )

  -- A tick reports an id at most as often as the scheduler holds it, and duplicates no state.
  pub tick-total :
      (sch : IntervalScheduler S)
      → (named id (tick I sch now).1 ≤ total I id sch)
        × (total I id (tick I sch now).0 ≤ total I id sch)
  unfolding tick
  tick-total sch =
      let m = add_unadded I now sch.unadded_triggers sch.triggers in
      unfold retain in
      omega (
        arith,
        pop_due-Bounded m,
        add_unadded-occ sch.unadded_triggers sch.triggers,
        occ-push_all I id (pop_due I now m).2 (pop_due I now m).0,
      )
