-- ===== src/Query/Normalize.antt =====
-- user/lib/query/normalize.c: the semantic analysis of a parsed query.
pub mod Result
pub mod Names
pub mod Operand
pub mod Age
pub mod Host
pub mod Member
pub mod Analysis
pub mod Operands
pub mod NormalForm
pub mod Normalized
pub mod Register
pub mod Tracking
pub mod Ranges
pub mod Numerals
pub mod HostName
pub mod NameLookup
