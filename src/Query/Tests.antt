-- ===== src/Query/Tests.antt =====
-- Runs of the query engine (user/lib/query, user/lib/posix1.c) on small queries and records.
pub mod Samples
pub mod Evaluation
pub mod Analysis
pub mod Creation
