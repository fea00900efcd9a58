-- ===== src/Scheduler.antt =====
-- The interval schedulers: packages/wavs/src/subsystems/trigger/schedulers/.
pub mod Interval
pub mod Keys
pub mod Exact
pub mod Block
pub mod BlockPlan
pub mod BlockFiring
pub mod Cron
pub mod Ids
pub mod SameId
pub mod CronFiring
pub mod Unique
pub mod Ready
pub mod Tests
