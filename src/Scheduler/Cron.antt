-- ===== src/Scheduler/Cron.antt =====
-- packages/wavs/src/subsystems/trigger/schedulers/cron_scheduler.rs: cron triggers. The crate `cron`
-- is a parameter: parsing, the iterator over the times after a start, and its next item, which is
-- missing, or a time, or one that does not fit a `Timestamp`.
use wavs.Prelude.{ℕ, Option, none, some, Bytes, ltb, leb, if◌then◌else◌}
use wavs.Prelude.Result.{Result, ok, ◌>>=◌}
use wavs.Errors.{TriggerError}
use wavs.Scheduler.Interval.{LookupId, IntervalState}

-- What `iterator.next().map(Timestamp::from_datetime)` gives.
pub data Upcoming : Type 0 where
  at : ℕ → Upcoming
  unconvertible : Upcoming
  exhausted : Upcoming

pub record CronCrate : Type 1 where
  pub Schedule : Type 0
  pub ScheduleIterator : Type 0
  pub parse : Bytes → Result TriggerError Schedule
  pub after_owned : Schedule → ℕ → ScheduleIterator
  pub next : ScheduleIterator → Upcoming × ScheduleIterator

module _ (C : CronCrate) where
  open C use {Schedule, ScheduleIterator, parse, after_owned, next}

  pub record CronIntervalState : Type 0 where
    pub schedule : Schedule
    pub iterator : Option ScheduleIterator
    pub next_trigger_time : Option ℕ
    pub lookup_id : LookupId
    pub start_time : Option ℕ
    pub end_time : Option ℕ

  unfoldable pub new :
      LookupId → Bytes → Option ℕ → Option ℕ → Result TriggerError CronIntervalState
  new id schedule_str start end = do
    schedule ← parse schedule_str
    ok (record {
      schedule = schedule;
      iterator = none;
      next_trigger_time = none;
      lookup_id = id;
      start_time = start;
      end_time = end;
    })

  -- A time past the end is no time.
  unfoldable pub within_end : Option ℕ → Upcoming → Option ℕ
  within_end none (at time) = some time
  within_end (some end) (at time) = if ltb end time then none else some time
  within_end end unconvertible = none
  within_end end exhausted = none

  unfoldable pub advance : CronIntervalState → Option ScheduleIterator → CronIntervalState
  unfolding within_end
  advance s none = record s { next_trigger_time = none }
  advance s (some it) =
      let (item, it') = next it in
      record s { iterator = some it'; next_trigger_time = within_end s.end_time item }

  unfoldable pub set_next_trigger_time : CronIntervalState → CronIntervalState
  unfolding advance
  set_next_trigger_time s = advance s s.iterator

  unfoldable pub effective_now : Option ℕ → ℕ → ℕ
  effective_now none now = now
  effective_now (some start) now = if ltb now start then start else now

  unfoldable pub initialize : CronIntervalState → ℕ → CronIntervalState × Option ℕ
  unfolding effective_now set_next_trigger_time
  initialize s now =
      let s' =
        set_next_trigger_time (record s {
          iterator = some (after_owned s.schedule (effective_now s.start_time now));
        }) in
      (s', s'.next_trigger_time)

  unfoldable pub hit_at : CronIntervalState → Option ℕ → ℕ → CronIntervalState × Option (Option ℕ)
  unfolding set_next_trigger_time
  hit_at s none now = (s, none)
  hit_at s (some time) now =
      if leb time now
      then (let s' = set_next_trigger_time s in (s', some s'.next_trigger_time))
      else (s, none)

  unfoldable pub interval_hit : CronIntervalState → ℕ → CronIntervalState × Option (Option ℕ)
  unfolding hit_at
  interval_hit s now = hit_at s s.next_trigger_time now

  abbrev pub cron_interval_state : IntervalState CronIntervalState
  cron_interval_state = record {
    lookup_id = λ s. s.lookup_id;
    interval_hit = interval_hit;
    initialize = initialize;
    start_time = λ s. s.start_time;
    end_time = λ s. s.end_time;
  }
