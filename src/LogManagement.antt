-- ===== src/LogManagement.antt =====
-- user/cmd/evlogmgr/evl_logmgmt.c: compaction and repair of a log file.
pub mod Records
pub mod Compact
pub mod Moving
pub mod Rounds
pub mod Kept
pub mod Steps
pub mod Compacted
pub mod Generation
pub mod Repair
pub mod Livelock
pub mod Validated
pub mod Resync
pub mod Repaired
pub mod RepairRun
pub mod Count
pub mod CountRounds
pub mod Counted
pub mod Maintenance
pub mod Maintained
mod Tests
