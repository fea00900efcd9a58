-- ===== src/Scheduler/BlockFiring.antt =====
-- When the block interval triggers of block_scheduler.rs fire: the laws of their states, and what
-- they give for a tick.
use wavs.Scheduler.BlockPlan.{
  multiple_gap, div_ceil_bounds, div_ceil_zero, on_interval_lem, fires, InTime, IsFresh, IsPlanned,
}
use native.Mathlib.Nat.{div-add-mod}
use wavs.Prelude.{
  map, retain, ◌∙◌, ap, leb→le, le→leb, ltb→lt, ltb-false→le, ℕ, zero, suc, ◌+◌, ◌-◌, ◌*◌, ◌/◌, ◌%◌,
  ◌≤◌, ◌<◌, ◌≡◌, refl, ◌⊎◌, inl, inr, Bool, true, false, Option, none, some, arith, ltb, leb,
  if◌then◌else◌, ◌&&◌, Bool-cases,
}
use wavs.Scheduler.Interval.{next_time, tick}
use wavs.Scheduler.Keys.{IfSome}
use wavs.Scheduler.Exact.{
  is_hit, IntervalLaws, Ready, ids, later-Ready, at_tick, tick-reports, tick-Ready,
}
use wavs.Scheduler.Block.{
  BlockIntervalState, u64_mod, non_zero, unwrap_or, div_ceil, first_firing, initialize, hit_from,
  interval_hit, block_interval_state, BlockScheduler,
}

non_zero-some : (n m : ℕ) → 0 < n → n ≡ m → non_zero n ≡ some m
non_zero-some zero m h e = absurd (omega arith)
non_zero-some (suc n) m h e = ap some e

-- The heights on the interval are those that the rest of the division finds.
on_multiple : (d i : ℕ) → leb (d % i) 0 ≡ true → d ≡ d / i * i
on_multiple d i h = omega (arith, leb→le _ _ h, div-add-mod d i)

-- A planned key that lies ahead is the next height on the interval, so none is missed before it.
none_between :
    (now t i kickoff periods : ℕ)
    → t ≡ kickoff + periods * i
    → (t ≡ kickoff) ⊎ (t < now + i)
    → now < t
    → (leb kickoff now && leb ((now - kickoff) % i) 0) ≡ false
none_between now t i kickoff periods e soon lt = elim (Bool-cases (leb ((now - kickoff) % i) 0)) [
  | inl on ↦ elim (Bool-cases (leb kickoff now)) [
    | inl le ↦ absurd (
        omega (
          arith,
          leb→le _ _ le,
          on_multiple (now - kickoff) i on,
          multiple_gap ((now - kickoff) / i) periods i
              (omega (arith, leb→le _ _ le, on_multiple (now - kickoff) i on)),
        ))
    | inr gt ↦ rw gt
  ]
  | inr off ↦ rw off (ground arith)
]

hit_from_lem :
    (kickoff now interval : ℕ)
    → kickoff ≤ now
    → 0 < now
    → now + interval < u64_mod
    → hit_from (some kickoff) now interval
      ≡ (if leb ((now - kickoff) % interval) 0 then some (some (now + interval)) else none)
unfolding hit_from
hit_from_lem kickoff now interval le pos lt = rw (
  on_interval_lem now kickoff interval le (omega arith),
  non_zero-some ((now + interval) % u64_mod) (now + interval) (omega arith) (omega arith),
)

is_hit-if : (next : Option ℕ) (b : Bool) → is_hit (if b then some next else none) ≡ b
is_hit-if next true = refl
is_hit-if next false = refl

module _ (now t : ℕ) (s : BlockIntervalState) (p : IsPlanned now t s) where
  hit_is :
      InTime now
      → t ≤ now
      → hit_from s.kickoff_time now s.interval
        ≡ (if leb ((now - p.kickoff) % s.interval) 0 then some (some (now + s.interval)) else none)
  hit_is i le =
      ap (λ o. hit_from o now s.interval) p.kickoff_set
      ∙ hit_from_lem p.kickoff now s.interval (omega (arith, p.aligned)) i.0
          (omega (arith, p.interval_u32, i.1))

  planned_hits : InTime now → t ≤ now → is_hit (interval_hit s now).1 ≡ fires now s
  unfolding interval_hit
  planned_hits i le =
      rw (hit_is i le, p.kickoff_set, le→leb p.kickoff now (omega (arith, p.aligned)))
        (is_hit-if _ (leb ((now - p.kickoff) % s.interval) 0))

  planned_early : now < t → fires now s ≡ false
  planned_early lt =
      rw p.kickoff_set (none_between now t s.interval p.kickoff p.periods p.aligned p.soon lt)

  planned_later : (then' : ℕ) → now ≤ then' → IsPlanned then' t s
  planned_later then' le = record {
    interval_pos = p.interval_pos;
    interval_u32 = p.interval_u32;
    kickoff = p.kickoff;
    kickoff_set = p.kickoff_set;
    periods = p.periods;
    aligned = p.aligned;
    soon = elim p.soon [ inl e ↦ inl e | inr lt ↦ inr (omega arith) ];
  }

  -- After a hit at `now` the next key is one interval on; after a miss the key stays.
  planned_keeps :
      InTime now
      → t ≤ now
      → IfSome
          (λ u. IsPlanned (suc now) u (interval_hit s now).0)
          (next_time t (interval_hit s now).1)
  unfolding interval_hit next_time
  planned_keeps i le = elim (Bool-cases (leb ((now - p.kickoff) % s.interval) 0)) [
    | inl on ↦
        rw (hit_is i le, on)
          (record {
            interval_pos = p.interval_pos;
            interval_u32 = p.interval_u32;
            kickoff = p.kickoff;
            kickoff_set = p.kickoff_set;
            periods = (now - p.kickoff) / s.interval + 1;
            aligned = omega (arith, p.aligned, on_multiple (now - p.kickoff) s.interval on);
            soon = inr (omega arith);
          })
    | inr off ↦ rw (hit_is i le, off) (planned_later (suc now) (omega arith))
  ]

-- `initialize` plans a fresh state: `start + periods * interval` does not wrap.
first_firing_lem :
    (start now i : ℕ)
    → 0 < i
    → start < u64_mod
    → now + i < u64_mod
    → first_firing start now i ≡ start + div_ceil (now - start) i * i
unfolding first_firing
first_firing_lem start now i pos lt room = elim (Bool-cases (ltb start now)) [
  | inl behind ↦ omega (arith, ltb→lt _ _ behind, div_ceil_bounds (now - start) i pos)
  | inr ahead ↦
      let none_passed : now - start ≡ 0 = omega (arith, ltb-false→le _ _ ahead) in
      rw (none_passed, div_ceil_zero) (omega arith)
]

first_firing_soon :
    (start now i : ℕ)
    → 0 < i
    → (start + div_ceil (now - start) i * i ≡ start)
      ⊎ (start + div_ceil (now - start) i * i < now + i)
first_firing_soon start now i pos = elim (Bool-cases (ltb start now)) [
  | inl behind ↦ inr (omega (arith, ltb→lt _ _ behind, div_ceil_bounds (now - start) i pos))
  | inr ahead ↦
      let none_passed : now - start ≡ 0 = omega (arith, ltb-false→le _ _ ahead) in
      inl (rw (none_passed, div_ceil_zero) (omega arith))
]

start_bounds :
    (o : Option ℕ) (now : ℕ)
    → InTime now
    → 0 < unwrap_or o 1
    → unwrap_or o 1 < u64_mod
    → (0 < unwrap_or o now) × (unwrap_or o now < u64_mod)
start_bounds none now i pos lt = (i.0, omega arith)
start_bounds (some n) now i pos lt = (pos, lt)

fresh_planned :
    (now : ℕ) (s : BlockIntervalState)
    → InTime now
    → IsFresh s
    → IfSome (λ t. IsPlanned now t (initialize s now).0) (initialize s now).1
unfolding initialize
fresh_planned now s i f =
    let start = unwrap_or s.start_time now in
    let (pos, lt) = start_bounds s.start_time now i f.start_pos f.start_u64 in
    rw
      (first_firing_lem start now s.interval f.interval_pos lt (omega (arith, f.interval_u32, i.1)))
      (rw
        (non_zero-some (start + div_ceil (now - start) s.interval * s.interval) _ (omega arith)
          refl)
        (record {
          interval_pos = f.interval_pos;
          interval_u32 = f.interval_u32;
          kickoff = start;
          kickoff_set = non_zero-some start start pos refl;
          periods = div_ceil (now - start) s.interval;
          aligned = refl;
          soon = first_firing_soon start now s.interval f.interval_pos;
        }))

pub block_laws : IntervalLaws block_interval_state InTime IsFresh IsPlanned fires
block_laws = record {
  same_id = λ now s. unfold interval_hit in refl;
  starts = fresh_planned;
  hits = λ now t s i p le. planned_hits now t s p i le;
  early = λ now t s p lt. planned_early now t s p lt;
  keeps = λ now t s i p le. planned_keeps now t s p i le;
  later = λ now then' t s le p. planned_later now t s p then' le;
}

abbrev pub IsReady : ℕ → BlockScheduler → Type 0
IsReady = Ready block_interval_state block_laws

-- From a ready scheduler, a tick at height `now` reports exactly the triggers whose kickoff is
-- not after `now` and lies a multiple of their interval before it, in the order of the map;
-- those added since the last tick count from their start height, or from `now` if they have
-- none. The scheduler is then ready for any later height. The height is positive, and 2^32 more
-- is at most 2^64.
pub tick-block_reports :
    (now then' : ℕ) (sch : BlockScheduler)
    → InTime now
    → IsReady now sch
    → now < then'
    → (ids (tick block_interval_state sch now).1
        ≡ map
            (λ s. s.lookup_id)
            (retain (fires now) (at_tick block_interval_state block_laws now sch)))
      × IsReady then' (tick block_interval_state sch now).0
tick-block_reports now then' sch i r lt = (
  tick-reports block_interval_state block_laws now sch i r,
  later-Ready block_interval_state block_laws (suc now) then' _ lt
      (tick-Ready block_interval_state block_laws now sch i r),
)
