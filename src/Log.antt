-- ===== src/Log.antt =====
-- user/lib/posix2.c and user/lib/posix1.c: the log file, its records, and the functions that read
-- it and move the read pointer.
pub mod File
pub mod Layout
pub mod Read
pub mod Seek
pub mod Reading
pub mod Cursor
pub mod Forward
pub mod Backward
pub mod Descriptor
pub mod Api
pub mod Whole
pub mod Seeking
pub mod Session
pub mod Progress
pub mod Robust
pub mod Append
pub mod Queries
pub mod Tests
