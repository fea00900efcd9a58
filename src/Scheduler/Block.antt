-- ===== src/Scheduler/Block.antt =====
-- packages/wavs/src/subsystems/trigger/schedulers/block_scheduler.rs: block interval triggers.
-- Heights are u64 with their wrap-around; `NonZeroU64::new` is `non_zero`.
use wavs.Prelude.{
  ℕ, zero, suc, ◌+◌, ◌-◌, ◌*◌, ◌/◌, ◌%◌, ◌^◌, Bool, Option, none, some, ltb, leb, if◌then◌else◌,
}
use wavs.Scheduler.Interval.{LookupId, IntervalState, IntervalScheduler}

abbrev pub u64_mod : ℕ
u64_mod = 2 ^ 64

abbrev pub u32_mod : ℕ
u32_mod = 2 ^ 32

pub record BlockIntervalState : Type 0 where
  pub interval : ℕ
  pub kickoff_time : Option ℕ
  pub lookup_id : LookupId
  pub start_time : Option ℕ
  pub end_time : Option ℕ

unfoldable pub new : LookupId → ℕ → Option ℕ → Option ℕ → BlockIntervalState
new id interval start end = record {
  interval = interval;
  kickoff_time = none;
  lookup_id = id;
  start_time = start;
  end_time = end;
}

abbrev pub non_zero : ℕ → Option ℕ
non_zero zero = none
non_zero (suc n) = some (suc n)

abbrev pub unwrap_or : Option ℕ → ℕ → ℕ
unwrap_or none d = d
unwrap_or (some n) d = n

-- `u64::div_ceil`.
unfoldable pub div_ceil : ℕ → ℕ → ℕ
div_ceil a b = if ltb 0 (a % b) then a / b + 1 else a / b

-- The first height at or after `now` that is `start` plus a multiple of the interval.
unfoldable pub first_firing : ℕ → ℕ → ℕ → ℕ
unfolding div_ceil
first_firing start now interval =
    (start + div_ceil (now - start) interval * interval % u64_mod) % u64_mod

unfoldable pub initialize : BlockIntervalState → ℕ → BlockIntervalState × Option ℕ
unfolding first_firing
initialize s now =
    let start = unwrap_or s.start_time now in
    (record s { kickoff_time = non_zero start }, non_zero (first_firing start now s.interval))

-- `(now - kickoff_time) % interval == 0`.
unfoldable pub on_interval : ℕ → ℕ → ℕ → Bool
on_interval now kickoff interval = leb ((now + u64_mod - kickoff) % u64_mod % interval) 0

unfoldable pub hit_from : Option ℕ → ℕ → ℕ → Option (Option ℕ)
unfolding on_interval
hit_from none now interval = none
hit_from (some kickoff) now interval =
    if on_interval now kickoff interval then some (non_zero ((now + interval) % u64_mod)) else none

unfoldable pub interval_hit : BlockIntervalState → ℕ → BlockIntervalState × Option (Option ℕ)
unfolding hit_from
interval_hit s now = (s, hit_from s.kickoff_time now s.interval)

instance abbrev pub block_interval_state : IntervalState BlockIntervalState
block_interval_state = record {
  lookup_id = λ s. s.lookup_id;
  interval_hit = interval_hit;
  initialize = initialize;
  start_time = λ s. s.start_time;
  end_time = λ s. s.end_time;
}

abbrev pub BlockScheduler : Type 0
BlockScheduler = IntervalScheduler BlockIntervalState
