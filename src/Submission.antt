-- ===== src/Submission.antt =====
-- packages/wavs/src/subsystems/submission.rs: the keys of the services, and the signing of results.
pub mod Event
pub mod Order
pub mod Manager
pub mod Keys
pub mod Signed
pub mod Tests
