-- ===== src/Lookup.antt =====
-- packages/wavs/src/subsystems/trigger/lookup.rs: which triggers there are, and how an event finds
-- them.
pub mod Index
pub mod Maps
pub mod Keys
pub mod Entries
pub mod Configs
pub mod Patterns
pub mod Indexed
pub mod IndexedRemove
pub mod IndexedAdd
pub mod Tests
