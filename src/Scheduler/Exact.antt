-- ===== src/Scheduler/Exact.antt =====
-- What a tick of interval_scheduler.rs reports, for any kind of interval state that obeys laws: a
-- predicate `P now t s` that holds of a state `s` under the key `t` before the tick at `now`, and
-- the specification `fires now s` of when it is to be reported.
use mathlib.Core.List.{map-append}
use wavs.Prelude.{
  ℕ, suc, ◌≤◌, ◌<◌, ◌≡◌, refl, sym, inl, inr, Bool, true, false, Option, none, some, List, [], ◌∷◌,
  ◌++◌, map, arith, ltb, leb, retain, retain-append, All, All-append, Bool-cases, if-both, ltb→lt,
  All-map,
}
use wavs.Prelude.Map.{Map}
use wavs.Scheduler.Keys.{
  Ascending, AllAt, states, IfSome, push_all-AllAt, push_all-Ascending, add_unadded-Ascending,
}
use wavs.Scheduler.Interval.{
  LookupId, IntervalState, IntervalScheduler, with_time, next_time, until_end, add_unadded, visit,
  visit_all, pop_due, tick,
}

abbrev pub is_hit : Option (Option ℕ) → Bool
is_hit none = false
is_hit (some next) = true

abbrev pub ids : List (LookupId × ℕ) → List LookupId
ids = map λ r. r.0

pub record IntervalLaws {S : Type 0} (I : IntervalState S) (InTime : ℕ → Type 0)
    (Fresh : S → Type 0) (P : ℕ → ℕ → S → Type 0) (fires : ℕ → S → Bool) : Type 0 where
  pub same_id : (now : ℕ) (s : S) → I.lookup_id (I.interval_hit s now).0 ≡ I.lookup_id s
  pub starts :
      (now : ℕ) (s : S)
      → InTime now
      → Fresh s
      → IfSome (λ t. P now t (I.initialize s now).0) (I.initialize s now).1
  pub hits :
      (now t : ℕ) (s : S)
      → InTime now
      → P now t s
      → t ≤ now
      → is_hit (I.interval_hit s now).1 ≡ fires now s
  pub early : (now t : ℕ) (s : S) → P now t s → now < t → fires now s ≡ false
  pub keeps :
      (now t : ℕ) (s : S)
      → InTime now
      → P now t s
      → t ≤ now
      → IfSome (λ u. P (suc now) u (I.interval_hit s now).0) (next_time t (I.interval_hit s now).1)
  pub later : (now then' t : ℕ) (s : S) → now ≤ then' → P now t s → P then' t s

module _ {S : Type 0} (I : IntervalState S) {InTime : ℕ → Type 0} {Fresh : S → Type 0}
    {P : ℕ → ℕ → S → Type 0} {fires : ℕ → S → Bool} (L : IntervalLaws I InTime Fresh P fires) where
  -- What a tick at `now` is to report of the states `ss`.
  abbrev pub reports : ℕ → List S → List LookupId
  reports now ss = map I.lookup_id (retain (fires now) ss)

  reports-append :
      (now : ℕ) (ss us : List S) → reports now (ss ++ us) ≡ reports now ss ++ reports now us
  reports-append now ss us = rw retain-append (map-append _ _ _)

  ids-visit :
      (now t : ℕ) (s : S)
      → InTime now
      → P now t s
      → t ≤ now
      → ids (visit I now t s).0 ≡ reports now (s ∷ [])
  unfolding visit retain
  ids-visit now t s i h le = ground (arith, L.hits now t s i h le, L.same_id now s)

  until_end-IfSome :
      (Q : ℕ → Type 0) (end : Option ℕ) (now : ℕ) (next : Option ℕ)
      → IfSome Q next
      → IfSome Q (until_end end now next)
  unfolding until_end
  until_end-IfSome Q none now next h = h
  until_end-IfSome Q (some end) now next h = if-both (IfSome Q) (leb end now) none next tt h

  with_time-All :
      (Q : ℕ → S → Type 0) (s : S) (next : Option ℕ)
      → IfSome (λ t. Q t s) next
      → All (λ p. Q p.0 p.1) (with_time s next)
  with_time-All Q s none h = tt
  with_time-All Q s (some t) h = (h, tt)

  -- What `visit_all` and `pop_due` hand back: the ids of their results, and the states to add again.
  record Reported (now : ℕ) (ss : List S) (r : List (LookupId × ℕ)) (a : List (ℕ × S))
      : Type 0 where
    named : ids r ≡ reports now ss
    again : All (λ p. P (suc now) p.0 p.1) a

  visit-Reported :
      (now t : ℕ) (s : S)
      → InTime now
      → P now t s
      → t ≤ now
      → Reported now (s ∷ []) (visit I now t s).0 (visit I now t s).1
  visit-Reported now t s i h le = record {
    named = ids-visit now t s i h le;
    again =
        unfold visit in
        with_time-All (P (suc now)) _ _ (
          until_end-IfSome (λ u. P (suc now) u (I.interval_hit s now).0) _ now _
            (L.keeps now t s i h le));
  }

  both-Reported :
      (now : ℕ) (ss us : List S) {r q : List (LookupId × ℕ)} {a b : List (ℕ × S)}
      → Reported now ss r a
      → Reported now us q b
      → Reported now (ss ++ us) (r ++ q) (a ++ b)
  both-Reported now ss us {r} {q} {a} {b} h k = record {
    named = rw (map-append, h.named, k.named) (sym (reports-append now ss us));
    again = All-append (λ p. P (suc now) p.0 p.1) a b h.again k.again;
  }

  visit_all-Reported :
      (now t : ℕ) (ss : List S)
      → InTime now
      → All (P now t) ss
      → t ≤ now
      → Reported now ss (visit_all I now t ss).0 (visit_all I now t ss).1
  unfolding visit_all
  visit_all-Reported now t [] i h le = record { named = unfold retain in refl; again = tt }
  visit_all-Reported now t (s ∷ ss) i h le =
      both-Reported now (s ∷ []) ss (visit-Reported now t s i h.0 le)
        (visit_all-Reported now t ss i h.1 le)

  -- Nothing that waits for a later time is to be reported.
  waiting_silent :
      (now t : ℕ) (ss : List S) → now < t → All (P now t) ss → retain (fires now) ss ≡ []
  unfolding retain
  waiting_silent now t [] lt h = refl
  waiting_silent now t (s ∷ ss) lt h = rw (L.early now t s h.0 lt) (waiting_silent now t ss lt h.1)

  all_waiting_silent :
      (now lo : ℕ) (m : Map ℕ (List S))
      → now < lo
      → Ascending lo m
      → AllAt (P now) m
      → retain (fires now) (states m) ≡ []
  all_waiting_silent now lo [] lt asc h = unfold retain in refl
  all_waiting_silent now lo ((t, ss) ∷ m) lt asc h = rw (
    retain-append,
    waiting_silent now t ss (omega arith) h.0,
    all_waiting_silent now (suc t) m (omega arith) asc.1 h.1,
  )

  later-AllAt :
      (now then' : ℕ) (m : Map ℕ (List S)) → now ≤ then' → AllAt (P now) m → AllAt (P then') m
  later-AllAt now then' [] le h = tt
  later-AllAt now then' ((t, ss) ∷ m) le h = (
    All-map (P now t) (P then' t) (λ s. L.later now then' t s le) ss h.0,
    later-AllAt now then' m le h.1,
  )

  record Popped (now lo : ℕ) (m rest : Map ℕ (List S)) (r : List (LookupId × ℕ)) (a : List (ℕ × S))
      : Type 0 where
    reported : Reported now (states m) r a
    kept : AllAt (P (suc now)) rest
    ascending : Ascending lo rest

  Ascending-weaken : (lo hi : ℕ) (m : Map ℕ (List S)) → lo ≤ hi → Ascending hi m → Ascending lo m
  Ascending-weaken lo hi [] le h = tt
  Ascending-weaken lo hi ((t, ss) ∷ m) le h = (omega arith, h.1)

  pop_due-Popped :
      (now lo : ℕ) (m : Map ℕ (List S))
      → InTime now
      → Ascending lo m
      → AllAt (P now) m
      → Popped now lo m (pop_due I now m).0 (pop_due I now m).1 (pop_due I now m).2
  unfolding pop_due
  pop_due-Popped now lo [] i asc h = record {
    reported = record { named = unfold retain in refl; again = tt };
    kept = tt;
    ascending = tt;
  }
  pop_due-Popped now lo ((t, ss) ∷ m) i asc h = elim (Bool-cases (ltb now t)) [
    | inl late ↦
        rw (late, pop_due)
          (record {
            reported = record {
              named = rw (
                  all_waiting_silent now t ((t, ss) ∷ m) (ltb→lt now t late) (omega arith, asc.1)
                    h);
              again = tt;
            };
            kept = later-AllAt now (suc now) ((t, ss) ∷ m) (omega arith) h;
            ascending = asc;
          })
    | inr due ↦
        let rest = pop_due-Popped now (suc t) m i asc.1 h.1 in
        rw (due, pop_due)
          (record {
            reported =
                both-Reported now ss (states m) (visit_all-Reported now t ss i h.0 (ground arith))
                  rest.reported;
            kept = rest.kept;
            ascending = Ascending-weaken lo (suc t) _ (omega arith) rest.ascending;
          })
  ]

  add_unadded-AllAt :
      (now : ℕ) (ss : List S) (m : Map ℕ (List S))
      → InTime now
      → All Fresh ss
      → AllAt (P now) m
      → AllAt (P now) (add_unadded I now ss m)
  unfolding add_unadded
  add_unadded-AllAt now [] m i f h = h
  add_unadded-AllAt now (s ∷ ss) m i f h =
      add_unadded-AllAt now ss _ i f.1
        (push_all-AllAt (P now) _ m (with_time-All (P now) _ _ (L.starts now s i f.0)) h)

  -- What holds of a scheduler before a tick at `now`: the keys of the map ascend, every state in
  -- it satisfies `P now` under its key, and those still to be added are fresh.
  pub record Ready (now : ℕ) (sch : IntervalScheduler S) : Type 0 where
    pub ascending : Ascending 0 sch.triggers
    pub scheduled : AllAt (P now) sch.triggers
    pub fresh : All Fresh sch.unadded_triggers

  -- The states that a tick looks through, those of `add_trigger` initialised at this tick.
  abbrev pub at_tick : ℕ → IntervalScheduler S → List S
  at_tick now sch = states (add_unadded I now sch.unadded_triggers sch.triggers)

  pub tick-reports :
      (now : ℕ) (sch : IntervalScheduler S)
      → InTime now
      → Ready now sch
      → ids (tick I sch now).1 ≡ reports now (at_tick now sch)
  unfolding tick
  tick-reports now sch i h =
      (pop_due-Popped now 0 _ i (add_unadded-Ascending I now sch.unadded_triggers _ h.ascending)
        (add_unadded-AllAt now sch.unadded_triggers _ i h.fresh h.scheduled)).reported.named

  pub tick-Ready :
      (now : ℕ) (sch : IntervalScheduler S)
      → InTime now
      → Ready now sch
      → Ready (suc now) (tick I sch now).0
  unfolding tick
  tick-Ready now sch i h =
      let popped =
        pop_due-Popped now 0 _ i (add_unadded-Ascending I now sch.unadded_triggers _ h.ascending)
          (add_unadded-AllAt now sch.unadded_triggers _ i h.fresh h.scheduled) in
      record {
        ascending = push_all-Ascending (pop_due I now _).2 _ popped.ascending;
        scheduled =
            push_all-AllAt (P (suc now)) (pop_due I now _).2 _ popped.reported.again popped.kept;
        fresh = tt;
      }

  pub later-Ready :
      (now then' : ℕ) (sch : IntervalScheduler S) → now ≤ then' → Ready now sch → Ready then' sch
  later-Ready now then' sch le h = record {
    ascending = h.ascending;
    scheduled = later-AllAt now then' sch.triggers le h.scheduled;
    fresh = h.fresh;
  }
