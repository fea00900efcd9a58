-- ===== src/Trigger.antt =====
-- packages/wavs/src/subsystems/trigger.rs: what an event fires, and which streams are started for it.
pub mod Pattern
pub mod Commands
pub mod Streams
pub mod Listening
pub mod Restart
pub mod Events
pub mod Fired
pub mod Contract
pub mod AtProto
pub mod CronStream
pub mod Blocks
pub mod Reached
pub mod Active
pub mod Malformed
pub mod Tests
pub mod StreamTests
