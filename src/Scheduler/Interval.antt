-- ===== src/Scheduler/Interval.antt =====
-- packages/wavs/src/subsystems/trigger/schedulers/interval_scheduler.rs: the scheduler that the cron
-- and the block interval triggers share. Times (`BlockHeight`, `Timestamp`) are u64 numbers; the
-- `BTreeMap` of the source is the list of its entries in key order.
use Prim.Native.Nat.{compare, Ordering}
use wavs.Prelude.{
  ℕ, Bool, true, false, not, Option, none, some, List, [], ◌∷◌, ◌++◌, ltb, leb, if◌then◌else◌, ◌==◌,
  nat_eq, retain, any,
}
use wavs.Prelude.Map.{Map}
use wavs.Prelude.Result.{Result, ok, err}
use wavs.Errors.{TriggerError, interval_start_after_end}

abbrev pub LookupId : Type 0
LookupId = ℕ

-- The trait `IntervalState`. A method with `&mut self` returns the new state first.
pub record IntervalState (S : Type 0) : Type 0 where
  pub lookup_id : S → LookupId
  pub interval_hit : S → ℕ → S × Option (Option ℕ)
  pub initialize : S → ℕ → S × Option ℕ
  pub start_time : S → Option ℕ
  pub end_time : S → Option ℕ

pub record IntervalScheduler (S : Type 0) : Type 0 where
  pub triggers : Map ℕ (List S)
  pub unadded_triggers : List S
  pub trigger_ids : List LookupId

unfoldable pub new : {S : Type 0} → IntervalScheduler S
new = record { triggers = []; unadded_triggers = []; trigger_ids = [] }

-- `triggers.entry(t).or_default().push(s)`.
unfoldable pub push_at : {S : Type 0} → ℕ → S → Map ℕ (List S) → Map ℕ (List S)
push_at t s [] = (t, s ∷ []) ∷ []
push_at t s ((u, ss) ∷ m) = elim (compare t u) [
  | Ordering.lt ↦ (t, s ∷ []) ∷ (u, ss) ∷ m
  | Ordering.eq ↦ (u, ss ++ s ∷ []) ∷ m
  | Ordering.gt ↦ (u, ss) ∷ push_at t s m
]

-- `for (next_time, state) in re_add`.
unfoldable pub push_all : {S : Type 0} → List (ℕ × S) → Map ℕ (List S) → Map ℕ (List S)
push_all [] m = m
push_all ((t, s) ∷ rest) m = push_all rest (push_at t s m)

-- The test `start > end` of `add_trigger`.
unfoldable pub starts_after_end : Option ℕ → Option ℕ → Bool
starts_after_end (some start) (some end) = ltb end start
starts_after_end (some start) none = false
starts_after_end none end = false

-- The next time of a state that was visited under the key `t`: the one that `interval_hit` gave, or
-- `t` again if it was no hit; none once the end time is reached.
unfoldable pub next_time : ℕ → Option (Option ℕ) → Option ℕ
next_time t none = some t
next_time t (some next) = next

unfoldable pub until_end : Option ℕ → ℕ → Option ℕ → Option ℕ
until_end none now next = next
until_end (some end) now next = if leb end now then none else next

abbrev pub with_time : {S : Type 0} → S → Option ℕ → List (ℕ × S)
with_time s none = []
with_time s (some t) = (t, s) ∷ []

abbrev pub hit_result : LookupId → ℕ → Option (Option ℕ) → List (LookupId × ℕ)
hit_result id t none = []
hit_result id t (some next) = (id, t) ∷ []

unfoldable pub cons_nonempty : {S : Type 0} → ℕ → List S → Map ℕ (List S) → Map ℕ (List S)
cons_nonempty t [] m = m
cons_nonempty t (s ∷ ss) m = (t, s ∷ ss) ∷ m

module _ {S : Type 0} (I : IntervalState S) where
  open I use {lookup_id, interval_hit, initialize, start_time, end_time}

  unfoldable pub add_trigger :
      IntervalScheduler S → S → Result TriggerError (IntervalScheduler S × Bool)
  unfolding starts_after_end any
  add_trigger sch state =
      if starts_after_end (start_time state) (end_time state)
      then err interval_start_after_end
      else if any (λ id. id == lookup_id state) sch.trigger_ids
      then ok (sch, false)
      else ok (
        record sch {
          trigger_ids = lookup_id state ∷ sch.trigger_ids;
          unadded_triggers = sch.unadded_triggers ++ state ∷ [];
        },
        true,
      )

  -- `for mut state in self.unadded_triggers.drain(..)`.
  unfoldable pub add_unadded : ℕ → List S → Map ℕ (List S) → Map ℕ (List S)
  unfolding push_all
  add_unadded now [] m = m
  add_unadded now (s ∷ rest) m =
      let (s', next) = initialize s now in add_unadded now rest (push_all (with_time s' next) m)

  -- One round of `for mut state in states.drain(..)`: the results, and what to add again.
  unfoldable pub visit : ℕ → ℕ → S → List (LookupId × ℕ) × List (ℕ × S)
  unfolding next_time until_end
  visit now t s =
      let (s', hit) = interval_hit s now in
      (
        hit_result (lookup_id s') t hit,
        with_time s' (until_end (end_time s') now (next_time t hit)),
      )

  unfoldable pub visit_all : ℕ → ℕ → List S → List (LookupId × ℕ) × List (ℕ × S)
  unfolding visit
  visit_all now t [] = ([], [])
  visit_all now t (s ∷ ss) =
      let (r, a) = visit now t s in let (rs, as') = visit_all now t ss in (r ++ rs, a ++ as')

  -- The `while let` loop: entries are popped while their key is at most `now`.
  unfoldable pub pop_due : ℕ → Map ℕ (List S) → Map ℕ (List S) × List (LookupId × ℕ) × List (ℕ × S)
  unfolding visit_all
  pop_due now [] = ([], [], [])
  pop_due now ((t, ss) ∷ m) =
      let (r, a) = visit_all now t ss in
      let (rest, rs, as') = pop_due now m in
      if ltb now t then ((t, ss) ∷ m, [], []) else (rest, r ++ rs, a ++ as')

  unfoldable pub tick : IntervalScheduler S → ℕ → IntervalScheduler S × List (LookupId × ℕ)
  unfolding add_unadded push_all
  tick sch now =
      let (rest, results, re_add) =
        pop_due now (add_unadded now sch.unadded_triggers sch.triggers) in
      (record sch { triggers = push_all re_add rest; unadded_triggers = [] }, results)

  unfoldable pub is_other : LookupId → S → Bool
  is_other id s = not (lookup_id s == id)

  -- `triggers.retain`: the entries without the id, less those that it leaves empty.
  unfoldable pub remove_id : LookupId → Map ℕ (List S) → Map ℕ (List S)
  unfolding cons_nonempty is_other retain
  remove_id id [] = []
  remove_id id ((t, ss) ∷ m) = cons_nonempty t (retain (is_other id) ss) (remove_id id m)

  unfoldable pub remove_trigger : IntervalScheduler S → LookupId → IntervalScheduler S × Bool
  unfolding remove_id any
  remove_trigger sch id = (
    record {
      triggers = remove_id id sch.triggers;
      unadded_triggers = retain (is_other id) sch.unadded_triggers;
      trigger_ids = retain (λ j. not (j == id)) sch.trigger_ids;
    },
    any (λ j. j == id) sch.trigger_ids,
  )
