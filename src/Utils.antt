-- ===== src/Utils.antt =====
-- The library utils/ of the repository.
pub mod Timestamp
pub mod LogBuilder
pub mod LockQueue
