-- ===== src/Dispatcher.antt =====
-- packages/wavs/src/dispatcher.rs: services added, removed and changed in all subsystems at once.
pub mod Operations
pub mod Registered
pub mod Removed
pub mod Changed
pub mod Revived
pub mod Tests
