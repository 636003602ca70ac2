-- ===== src/Query.antt =====
-- The query engine (user/lib/query): a query's tree is normalised (normalize.c), optimised
-- (qopt.c) and evaluated on a record (evaluate.c).
pub mod Tree
pub mod Compare
pub mod Attribute
pub mod Evaluate
pub mod Normal
pub mod Total
pub mod Screen
pub mod Optimize
pub mod Pipeline
pub mod Normalize
pub mod Create
pub mod Members
pub mod Tests
