-- ===== src/Types.antt =====
-- The data types of packages/types/src that the subsystems share.
pub mod Chain
pub mod ChainText
pub mod Service
pub mod Submission
pub mod ChainConfig
pub mod ChainConfigs
pub mod TriggerData
pub mod Tests
