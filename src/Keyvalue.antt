-- ===== src/Keyvalue.antt =====
-- packages/engine/src/backend/wasi_keyvalue/: the key-value store that components are given.
pub mod State
pub mod Store
pub mod Batch
pub mod Atomics
pub mod Separate
pub mod Listing
pub mod Calls
pub mod Tests
