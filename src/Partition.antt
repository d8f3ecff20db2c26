-- ===== src/Partition.antt =====
-- cache/partition_info.go. The nodes, applications and queues that the code shares by pointers are
-- looked up in the partition and written back. Metrics, logs and locks are left out.
pub mod Monad
pub mod Defs
pub mod Create
pub mod Reload
pub mod Reloaded
pub mod Released
pub mod Removal
pub mod Books
pub mod Sound
pub mod Release
pub mod NodeRemoval
