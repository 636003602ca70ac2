-- ===== src/Query/Optimize.antt =====
-- user/lib/query/qopt.c: a query is divided into a part on standard attributes and a part on
-- non-standard ones, and annotated with its results where attributes are missing.
pub mod Divide
pub mod Missing
pub mod Annotate
pub mod MissingSound
pub mod Classify
pub mod DivideSound
