-- ===== src/Log/Tests.antt =====
-- Runs on a log of two records: user/lib/posix1.c and user/lib/posix2.c.
pub mod Samples
pub mod Reading
mod Querying
