-- ===== src/Scheduler/Tests.antt =====
-- Examples of the interval schedulers: a block interval trigger of five blocks, and a cron trigger
-- every ten units of time.
use wavs.Errors.{interval_start_after_end}
use wavs.Prelude.{ℕ, ◌+◌, ◌≡◌, refl, ◌⊎◌, true, false, none, some, [], ◌∷◌, arith, map, retain}
use wavs.Prelude.Result.{ok, err}
use wavs.Scheduler.Interval.{
  IntervalScheduler, new, add_trigger, remove_trigger, tick, is_other, starts_after_end, LookupId,
}
use wavs.Scheduler.Keys.{states}
use wavs.Scheduler.Exact.{ids, at_tick}
use wavs.Scheduler.Block.{BlockIntervalState, BlockScheduler, block_interval_state}
use wavs.Scheduler.BlockPlan.{IsFresh, fires}
use wavs.Scheduler.BlockFiring.{block_laws, IsReady, tick-block_reports}
use wavs.Scheduler.Cron.{CronCrate, CronIntervalState, cron_interval_state, at}
use wavs.Scheduler.CronFiring
use wavs.Scheduler.Ids.{named, total}
use wavs.Scheduler.SameId.{block-KeepsId}
use wavs.Scheduler.Unique.{
  knows, IsUnique, new-IsUnique, add_trigger-IsUnique, add_trigger_cases, reported_over,
  remove_trigger_lem,
}

abbrev every_five : BlockIntervalState
every_five = record {
  interval = 5;
  kickoff_time = none;
  lookup_id = 3;
  start_time = some 10;
  end_time = some 15;
}

abbrev one_trigger : BlockScheduler
one_trigger = record { triggers = []; unadded_triggers = every_five ∷ []; trigger_ids = 3 ∷ [] }

every_five-IsFresh : IsFresh every_five
every_five-IsFresh = record {
  interval_pos = omega arith;
  interval_u32 = omega arith;
  start_pos = omega arith;
  start_u64 = omega arith;
}

one_trigger-IsReady : (now : ℕ) → IsReady now one_trigger
one_trigger-IsReady now = record {
  ascending = tt;
  scheduled = tt;
  fresh = (every_five-IsFresh, tt);
}

added : add_trigger block_interval_state new every_five ≡ ok (one_trigger, true)
unfolding add_trigger new
added = refl

one_trigger-IsUnique : IsUnique block_interval_state one_trigger
one_trigger-IsUnique =
    add_trigger-IsUnique block_interval_state new one_trigger every_five true
      (new-IsUnique block_interval_state) added

tick-block_reports_example :
    (ids (tick block_interval_state one_trigger 10).1
      ≡ map
          (λ s. s.lookup_id)
          (retain (fires 10) (at_tick block_interval_state block_laws 10 one_trigger)))
    × IsReady 12 (tick block_interval_state one_trigger 10).0
tick-block_reports_example =
    tick-block_reports 10 12 one_trigger (omega arith, omega arith) (one_trigger-IsReady 10)
      (omega arith)

-- The trigger fires at height 10 and again at 15, its end.
fires_at_start_and_end :
    reported_over block_interval_state one_trigger (9 ∷ 10 ∷ 12 ∷ 15 ∷ 20 ∷ [])
    ≡ (3, 10) ∷ (3, 15) ∷ []
unfolding tick wavs.Scheduler.Interval.pop_due wavs.Scheduler.Block.initialize
    wavs.Scheduler.Interval.push_at wavs.Scheduler.Block.interval_hit
fires_at_start_and_end = refl

-- First seen at height 20, after its end, it fires once.
late_trigger_fires : reported_over block_interval_state one_trigger (20 ∷ 25 ∷ []) ≡ (3, 20) ∷ []
unfolding tick wavs.Scheduler.Interval.pop_due wavs.Scheduler.Block.initialize
    wavs.Scheduler.Interval.push_at wavs.Scheduler.Block.interval_hit
late_trigger_fires = refl

add_trigger_cases_example :
    ((starts_after_end (some 10) (some 15) ≡ true)
      × (add_trigger block_interval_state new every_five ≡ err interval_start_after_end))
    ⊎ ((starts_after_end (some 10) (some 15) ≡ false)
        × (knows {S = BlockIntervalState} new 3 ≡ true)
        × (add_trigger block_interval_state new every_five ≡ ok (new, false)))
    ⊎ ((sch' : BlockScheduler) × (knows {S = BlockIntervalState} new 3 ≡ false)
        × (add_trigger block_interval_state new every_five ≡ ok (sch', true))
        × (knows sch' 3 ≡ true)
        × (total block_interval_state 3 sch' ≡ 1)
        × IsUnique block_interval_state sch')
add_trigger_cases_example =
    add_trigger_cases block_interval_state new every_five (new-IsUnique block_interval_state)

remove_trigger_lem_example :
    let (sch', existed) = remove_trigger block_interval_state one_trigger 3 in
    (existed ≡ knows one_trigger 3)
    × (states sch'.triggers
        ≡ retain (is_other block_interval_state 3) (states one_trigger.triggers))
    × (sch'.unadded_triggers
        ≡ retain (is_other block_interval_state 3) one_trigger.unadded_triggers)
    × (named 3 (reported_over block_interval_state sch' (10 ∷ 15 ∷ [])) ≡ 0)
remove_trigger_lem_example =
    remove_trigger_lem block_interval_state block-KeepsId one_trigger 3 (10 ∷ 15 ∷ [])
      one_trigger-IsUnique

abbrev tens : CronCrate
tens = record {
  Schedule = Unit {0};
  ScheduleIterator = ℕ;
  parse = λ text. ok tt;
  after_owned = λ schedule now. now;
  next = λ last. (at (last + 10), last + 10);
}

abbrev every_ten : CronIntervalState tens
every_ten = record {
  schedule = tt;
  iterator = some 10;
  next_trigger_time = some 10;
  lookup_id = 4;
  start_time = none;
  end_time = none;
}

abbrev one_cron : IntervalScheduler (CronIntervalState tens)
one_cron = record {
  triggers = (10, every_ten ∷ []) ∷ [];
  unadded_triggers = [];
  trigger_ids = 4 ∷ [];
}

one_cron-IsReady : CronFiring.IsReady tens 12 one_cron
one_cron-IsReady = record {
  ascending = (omega arith, tt);
  scheduled = ((refl, tt), tt);
  fresh = tt;
}

tick-cron_reports_example :
    (ids (tick (cron_interval_state tens) one_cron 12).1
      ≡ map
          (λ s. s.lookup_id)
          (retain
            (CronFiring.fires tens 12)
            (at_tick (cron_interval_state tens) (CronFiring.cron_laws tens) 12 one_cron)))
    × CronFiring.IsReady tens 13 (tick (cron_interval_state tens) one_cron 12).0
tick-cron_reports_example =
    CronFiring.tick-cron_reports tens 12 13 one_cron one_cron-IsReady (omega arith)
