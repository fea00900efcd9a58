-- ===== src/Scheduler/SameId.antt =====
-- Neither the block interval triggers nor the cron triggers change their lookup id.
use wavs.Prelude.{ℕ, ◌≡◌, refl, Option, none, some, inl, inr, leb, Bool-cases}
use wavs.Scheduler.Block.{block_interval_state}
use wavs.Scheduler.Block
use wavs.Scheduler.Cron.{CronCrate, CronIntervalState, cron_interval_state}
use wavs.Scheduler.Cron
use wavs.Scheduler.Ids.{KeepsId}

pub block-KeepsId : KeepsId block_interval_state
unfolding Block.interval_hit Block.initialize
block-KeepsId = record { hit = λ s now. refl; init = λ s now. refl }

advance-id :
    (C : CronCrate) (s : CronIntervalState C) (o : Option C.ScheduleIterator)
    → (Cron.advance C s o).lookup_id ≡ s.lookup_id
unfolding Cron.advance
advance-id C s none = refl
advance-id C s (some it) = refl

hit_at-id :
    (C : CronCrate) (s : CronIntervalState C) (o : Option ℕ) (now : ℕ)
    → (Cron.hit_at C s o now).0.lookup_id ≡ s.lookup_id
unfolding Cron.hit_at Cron.set_next_trigger_time
hit_at-id C s none now = refl
hit_at-id C s (some time) now = elim (Bool-cases (leb time now)) [
  | inl due ↦ rw due (advance-id C s s.iterator)
  | inr early ↦ rw early refl
]

pub cron-KeepsId : (C : CronCrate) → KeepsId (cron_interval_state C)
unfolding Cron.interval_hit Cron.initialize
cron-KeepsId C = record {
  hit = λ s now. hit_at-id C s s.next_trigger_time now;
  init = λ s now. refl;
}
