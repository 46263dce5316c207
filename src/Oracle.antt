-- ===== src/Oracle.antt =====
-- pkg/oracle: the expected state of the target store.
pub mod Entry
pub mod Ring
pub mod Suspicion
pub mod Shard
pub mod Applying
