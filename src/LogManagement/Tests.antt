-- ===== src/LogManagement/Tests.antt =====
-- Runs of the compaction and of the repair of a log: user/cmd/evlogmgr/evl_logmgmt.c.
mod Compacting
mod Repairing
