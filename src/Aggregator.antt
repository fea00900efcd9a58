-- ===== src/Aggregator.antt =====
-- packages/wavs/src/subsystems/aggregator.rs and aggregator/queue.rs: submissions gathered until
-- they reach a quorum.
pub mod Queue
pub mod Signers
pub mod Submit
pub mod Commands
pub mod Hosted
pub mod Burned
pub mod Retry
pub mod Cleanup
pub mod Tests
