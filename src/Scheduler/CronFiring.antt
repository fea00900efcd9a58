-- ===== src/Scheduler/CronFiring.antt =====
-- When the cron triggers of cron_scheduler.rs fire: at the first tick that is not before their next
-- time, whatever the crate's iterator gives.
use wavs.Prelude.{
  ℕ, suc, ◌≤◌, ◌<◌, ◌≡◌, refl, sym, ap, ◌∙◌, subst, Bool, false, Option, none, some, map, retain,
  leb, le→leb, lt→leb,
}
use wavs.Scheduler.Interval.{IntervalScheduler, next_time, tick}
use wavs.Scheduler.Keys.{IfSome}
use wavs.Scheduler.Exact.{
  is_hit, IntervalLaws, Ready, ids, at_tick, tick-reports, tick-Ready, later-Ready,
}
use wavs.Scheduler.Cron.{
  CronCrate, CronIntervalState, cron_interval_state, initialize, interval_hit, hit_at,
  set_next_trigger_time,
}
use wavs.Scheduler.SameId.{cron-KeepsId}

abbrev pub is_due : Option ℕ → ℕ → Bool
is_due none now = false
is_due (some time) now = leb time now

module _ (C : CronCrate) where
  -- The specification: the next time of the state has come.
  abbrev pub fires : ℕ → CronIntervalState C → Bool
  fires now s = is_due s.next_trigger_time now

  abbrev pub AnyTime : ℕ → Type 0
  AnyTime now = Unit

  abbrev pub AnyState : CronIntervalState C → Type 0
  AnyState s = Unit

  -- The key of a state in the scheduler is its next time.
  abbrev pub IsPlanned : ℕ → ℕ → CronIntervalState C → Type 0
  IsPlanned now t s = s.next_trigger_time ≡ some t

  some_time : (o : Option ℕ) → IfSome (λ t. o ≡ some t) o
  some_time none = tt
  some_time (some t) = refl

  hit_due :
      (now t : ℕ) (s : CronIntervalState C) (o : Option ℕ)
      → o ≡ some t
      → t ≤ now
      → hit_at C s o now
        ≡ (set_next_trigger_time C s, some (set_next_trigger_time C s).next_trigger_time)
  unfolding hit_at
  hit_due now t s o e le = rw (e, le→leb _ _ le) refl

  interval_hit_due :
      (now t : ℕ) (s : CronIntervalState C)
      → IsPlanned now t s
      → t ≤ now
      → interval_hit C s now
        ≡ (set_next_trigger_time C s, some (set_next_trigger_time C s).next_trigger_time)
  unfolding interval_hit
  interval_hit_due now t s p le = hit_due now t s s.next_trigger_time p le

  hits_due :
      (now t : ℕ) (s : CronIntervalState C)
      → IsPlanned now t s
      → t ≤ now
      → is_hit (interval_hit C s now).1 ≡ fires now s
  hits_due now t s p le =
      ap (λ r. is_hit r.1) (interval_hit_due now t s p le)
      ∙ sym (ap (λ o. is_due o now) p ∙ le→leb t now le)

  keeps_plan :
      (now t : ℕ) (s : CronIntervalState C)
      → IsPlanned now t s
      → t ≤ now
      → IfSome
          (λ u. IsPlanned (suc now) u (interval_hit C s now).0)
          (next_time t (interval_hit C s now).1)
  unfolding next_time
  keeps_plan now t s p le =
      subst (λ r. IfSome (λ u. IsPlanned (suc now) u r.0) (next_time t r.1))
        (sym (interval_hit_due now t s p le))
        (some_time (set_next_trigger_time C s).next_trigger_time)

  pub cron_laws : IntervalLaws (cron_interval_state C) AnyTime AnyState IsPlanned fires
  cron_laws = record {
    same_id = λ now s. (cron-KeepsId C).hit s now;
    starts = λ now s i f. unfold initialize in some_time _;
    hits = λ now t s i p le. hits_due now t s p le;
    early = λ now t s p lt. ap (λ o. is_due o now) p ∙ lt→leb t now lt;
    keeps = λ now t s i p le. keeps_plan now t s p le;
    later = λ now then' t s le p. p;
  }

  abbrev pub IsReady : ℕ → IntervalScheduler (CronIntervalState C) → Type 0
  IsReady = Ready (cron_interval_state C) cron_laws

  -- From a ready scheduler, a tick reports exactly the cron triggers whose next time is not after
  -- `now`, in the order of the map; those added since the last tick take their first time from the
  -- crate at this tick. The scheduler is then ready for any later time.
  pub tick-cron_reports :
      (now then' : ℕ) (sch : IntervalScheduler (CronIntervalState C))
      → IsReady now sch
      → now < then'
      → (ids (tick (cron_interval_state C) sch now).1
          ≡ map
              (λ s. s.lookup_id)
              (retain (fires now) (at_tick (cron_interval_state C) cron_laws now sch)))
        × IsReady then' (tick (cron_interval_state C) sch now).0
  tick-cron_reports now then' sch r lt = (
    tick-reports (cron_interval_state C) cron_laws now sch tt r,
    later-Ready (cron_interval_state C) cron_laws (suc now) then' _ lt
        (tick-Ready (cron_interval_state C) cron_laws now sch tt r),
  )
