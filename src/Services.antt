-- ===== src/Services.antt =====
-- packages/wavs/src/services.rs: the table of services that the other subsystems read.
pub mod Table
pub mod Store
pub mod Listing
pub mod Refinement
pub mod Tests
