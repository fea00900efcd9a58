-- ===== src/Scheduler/Ready.antt =====
-- The operations of interval_scheduler.rs keep a scheduler ready for its next tick.
use wavs.Errors.{TriggerError}
use wavs.Prelude.{
  Bool-cases, inl, inr, ◌==◌, nat_eq, ℕ, suc, ◌≤◌, Bool, List, [], ◌∷◌, arith, retain, All,
  All-append, All-retain, any,
}
use wavs.Prelude.Map.{Map}
use wavs.Prelude.Result.{Result, ok, err}
use wavs.Scheduler.Interval.{
  LookupId, IntervalState, IntervalScheduler, add_trigger, is_other, cons_nonempty, remove_id,
  remove_trigger, new, starts_after_end,
}
use wavs.Scheduler.Keys.{Ascending, AllAt}
use wavs.Scheduler.Exact.{IntervalLaws, Ready}

-- The scheduler after a call that may fail: an error leaves it as it was.
abbrev pub state_after :
    {S : Type 0}
    → IntervalScheduler S
    → Result TriggerError (IntervalScheduler S × Bool)
    → IntervalScheduler S
state_after sch (ok (sch', added)) = sch'
state_after sch (err e) = sch

cons_nonempty-AllAt :
    {S : Type 0} (P : ℕ → S → Type 0) (t : ℕ) (ss : List S) (m : Map ℕ (List S))
    → All (P t) ss
    → AllAt P m
    → AllAt P (cons_nonempty t ss m)
unfolding cons_nonempty
cons_nonempty-AllAt P t [] m h a = a
cons_nonempty-AllAt P t (s ∷ ss) m h a = (h, a)

cons_nonempty-Ascending :
    {S : Type 0} (lo t : ℕ) (ss : List S) (m : Map ℕ (List S))
    → Ascending lo ((t, ss) ∷ m)
    → Ascending lo m
    → Ascending lo (cons_nonempty t ss m)
unfolding cons_nonempty
cons_nonempty-Ascending lo t [] m h a = a
cons_nonempty-Ascending lo t (s ∷ ss) m h a = h

weaken : {S : Type 0} (lo hi : ℕ) (m : Map ℕ (List S)) → lo ≤ hi → Ascending hi m → Ascending lo m
weaken lo hi [] le a = a
weaken lo hi ((t, ss) ∷ m) le a = (omega arith, a.1)

module _ {S : Type 0} (I : IntervalState S) where
  remove_id-AllAt :
      (P : ℕ → S → Type 0) (id : LookupId) (m : Map ℕ (List S))
      → AllAt P m
      → AllAt P (remove_id I id m)
  unfolding remove_id
  remove_id-AllAt P id [] a = a
  remove_id-AllAt P id ((t, ss) ∷ m) a =
      cons_nonempty-AllAt P t (retain (is_other I id) ss) _
        (All-retain (P t) (is_other I id) ss a.0) (remove_id-AllAt P id m a.1)

  remove_id-Ascending :
      (lo : ℕ) (id : LookupId) (m : Map ℕ (List S))
      → Ascending lo m
      → Ascending lo (remove_id I id m)
  unfolding remove_id
  remove_id-Ascending lo id [] a = a
  remove_id-Ascending lo id ((t, ss) ∷ m) a =
      let rest = remove_id-Ascending (suc t) id m a.1 in
      cons_nonempty-Ascending lo t (retain (is_other I id) ss) _ (a.0, rest)
        (weaken lo (suc t) (remove_id I id m) (omega arith) rest)

module _ {S : Type 0} (I : IntervalState S) {InTime : ℕ → Type 0} {Fresh : S → Type 0}
    {P : ℕ → ℕ → S → Type 0} {fires : ℕ → S → Bool} (L : IntervalLaws I InTime Fresh P fires) where
  new-Ready : (now : ℕ) → Ready I L now new
  unfolding new
  new-Ready now = record { ascending = tt; scheduled = tt; fresh = tt }

  -- Adding a fresh trigger to a scheduler that is ready for a tick leaves it ready for that
  -- tick, whether the trigger is added, known or refused.
  add_trigger-Ready :
      (now : ℕ) (sch : IntervalScheduler S) (s : S)
      → Ready I L now sch
      → Fresh s
      → Ready I L now (state_after sch (add_trigger I sch s))
  unfolding add_trigger
  add_trigger-Ready now sch s r f =
      elim (Bool-cases (starts_after_end (I.start_time s) (I.end_time s))) [
        | inl bad ↦ rw bad r
        | inr fine ↦ elim (Bool-cases (any (λ id. id == I.lookup_id s) sch.trigger_ids)) [
          | inl old ↦ rw (fine, old) r
          | inr unknown ↦
              rw (fine, unknown)
                (record {
                  ascending = r.ascending;
                  scheduled = r.scheduled;
                  fresh = All-append Fresh sch.unadded_triggers (s ∷ []) r.fresh (f, tt);
                })
        ]
      ]

  -- Removing an id, known or not, from a scheduler that is ready for a tick leaves it ready for
  -- that tick.
  remove_trigger-Ready :
      (now : ℕ) (sch : IntervalScheduler S) (id : LookupId)
      → Ready I L now sch
      → Ready I L now (remove_trigger I sch id).0
  unfolding remove_trigger
  remove_trigger-Ready now sch id r = record {
    ascending = remove_id-Ascending I 0 id sch.triggers r.ascending;
    scheduled = remove_id-AllAt I (P now) id sch.triggers r.scheduled;
    fresh = All-retain Fresh (is_other I id) sch.unadded_triggers r.fresh;
  }
