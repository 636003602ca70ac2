-- ===== src/Duplicates.antt =====
-- user/cmd/evlogd/evlogd.c: the suppression of duplicate records by the logging daemon.
pub mod Record
pub mod Buffer
pub mod Timeout
pub mod Conservation
pub mod Runs
mod Tests
