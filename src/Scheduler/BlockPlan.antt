-- ===== src/Scheduler/BlockPlan.antt =====
-- Division by the interval, and what is planned of a block interval trigger (block_scheduler.rs).
use native.Mathlib.Nat.{
  mul-le-mul_right, lt_of_mul-lt-mul_right, lt-div-mul-add, div-mul-le_self, div-add-mod, zero-mod,
  zero-div,
}
use wavs.Prelude.{
  ap, ltb→lt, ltb-false→le, ℕ, ◌+◌, ◌-◌, ◌*◌, ◌%◌, ◌≤◌, ◌<◌, ◌≡◌, ◌⊎◌, inl, inr, Bool, false,
  Option, none, some, arith, ltb, leb, ◌&&◌, Bool-cases,
}
use wavs.Scheduler.Block.{
  BlockIntervalState, u64_mod, u32_mod, unwrap_or, div_ceil, on_interval, block_interval_state,
}

-- A multiple of `i` above another is above it by `i` or more.
pub multiple_gap : (q r i : ℕ) → q * i < r * i → q * i + i ≤ r * i
multiple_gap q r i h = omega (arith, mul-le-mul_right i (lt_of_mul-lt-mul_right i h))

pub div_ceil_bounds : (a b : ℕ) → 0 < b → (a ≤ div_ceil a b * b) × (div_ceil a b * b < a + b)
unfolding div_ceil
div_ceil_bounds a b h = elim (Bool-cases (ltb 0 (a % b))) [
  | inl up ↦
      rw up (
        omega
          (arith, lt-div-mul-add {a = a} h, div-mul-le_self a b, div-add-mod a b, ltb→lt _ _ up))
  | inr exact ↦ rw exact (
      omega (
        arith,
        lt-div-mul-add {a = a} h,
        div-mul-le_self a b,
        div-add-mod a b,
        ltb-false→le _ _ exact,
      ))
]

pub div_ceil_zero : (b : ℕ) → div_ceil 0 b ≡ 0
unfolding div_ceil
div_ceil_zero b = rw (zero-mod, zero-div)

-- The specification: the heights from the kickoff on, at every multiple of the interval.
abbrev pub fires_from : Option ℕ → ℕ → ℕ → Bool
fires_from none interval now = false
fires_from (some kickoff) interval now = leb kickoff now && leb ((now - kickoff) % interval) 0

abbrev pub fires : ℕ → BlockIntervalState → Bool
fires now s = fires_from s.kickoff_time s.interval now

-- Heights that leave room for one more interval below 2^64.
abbrev pub InTime : ℕ → Type 0
InTime now = (0 < now) × (now + u32_mod ≤ u64_mod)

pub record IsFresh (s : BlockIntervalState) : Type 0 where
  pub interval_pos : 0 < s.interval
  pub interval_u32 : s.interval < u32_mod
  pub start_pos : 0 < unwrap_or s.start_time 1
  pub start_u64 : unwrap_or s.start_time 1 < u64_mod

-- The key `t` is a multiple of the interval after the kickoff, and less than one interval ahead,
-- unless it is the kickoff itself.
pub record IsPlanned (now t : ℕ) (s : BlockIntervalState) : Type 0 where
  pub interval_pos : 0 < s.interval
  pub interval_u32 : s.interval < u32_mod
  pub kickoff : ℕ
  pub kickoff_set : s.kickoff_time ≡ some kickoff
  pub periods : ℕ
  pub aligned : t ≡ kickoff + periods * s.interval
  pub soon : (t ≡ kickoff) ⊎ (t < now + s.interval)

-- `now - kickoff_time` does not wrap at a height that is not before the kickoff.
pub on_interval_lem :
    (now kickoff interval : ℕ)
    → kickoff ≤ now
    → now < u64_mod
    → on_interval now kickoff interval ≡ leb ((now - kickoff) % interval) 0
unfolding on_interval
on_interval_lem now kickoff interval le lt = ap (λ d. leb (d % interval) 0) (omega arith)
