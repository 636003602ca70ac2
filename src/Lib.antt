-- ===== src/Lib.antt =====
-- Verification of the event log: of its query engine, a library of C (user/lib) that programs link
-- to select the records of a log, of the functions that read a log and search it with a query, of
-- the compaction and the repair of a log, and of the suppression of duplicate records.
-- `posix_log_query_create` makes a query of a text such as "severity > WARNING && host = node3",
-- `_evlQEvaluateTree` says whether a record matches it, and `posix_log_seek` finds such a record.
--
-- The parts of the query engine, in the order in which a query passes through them, and the modules
-- that model them:
--   Query/Tree: the tree of a query, the list of its non-standard attributes and the header of a
--     record (user/lib/query/evl_parse.h, user/include/linux/evl_log.h);
--   Query/Create: `posix_log_query_create`, `posix_log_query_get` and `posix_log_query_destroy`
--     (user/lib/posix1.c), `_evlValidateQuery` (user/lib/posix2.c). The parser is generated from
--     user/lib/query/query.y and is a parameter, `qqparse`; `IsParsed` says what its trees are;
--   Query/Normalize: the semantic analysis (user/lib/query/normalize.c) with the tables of names of
--     user/lib/posix_evlsup.c. `State` holds the globals `_evlQFlags` and `_evlQNonStdAtts`, and
--     `Result` the outcome with the message of `semanticError`. Names for symbolic operands are in
--     Names, the range checks in Operand, ages and hosts in Age and Host, the other attributes in
--     Member, whole trees in Analysis. `NormEnv` holds what is looked up elsewhere: users and
--     groups, facilities, nodes, and the compiler of regular expressions;
--   Query/Optimize: the optimiser (user/lib/query/qopt.c). Divide postpones the part of a query that
--     needs a template, Missing predicts the query for missing attributes, Annotate stores the
--     predictions. The nodes that the code moves about are rebuilt;
--   Query/Compare, Query/Attribute, Query/Evaluate: the comparisons and the evaluation of a tree on a
--     record (user/lib/query/evaluate.c), with `posix_log_severity_compare`. `EvalEnv` holds the
--     clock, the matcher of regular expressions, the order of floating-point numbers, and
--     `posix_log_memtostr`;
--   Query/Screen: the evaluation with a template that is looked up, screened and populated only when
--     it is needed (user/lib/query/evaluate.c). A `Template` is what `evltemplate_getatt` answers
--     before and after `evl_populatetemplate`; the template library itself is not modelled;
--   Query/Pipeline, Query/Members: what the parts say together, and of single attributes;
--   Query/Tests: runs on small queries and records.
--
-- The log file and what works on it:
--   Log: the layout of records and of the file (user/include/linux/evl_log.h, user/include/evlog.h) in
--     Layout, regular files in File, `_evlRead` in Read, `_evlSeekFwd` and `_evlSeekBkwd` in Seek,
--     `_evlOpen` with `posix_log_open`, `posix_log_read` and `posix_log_close` in Descriptor
--     (user/lib/posix2.c, user/lib/posix1.c), and `posix_log_seek` with `_evlEvaluateQuery` in Api. A
--     `LogDesc` is a `log_desc_t` with the file that it maps. `At` describes a file of whole records
--     with the read pointer between two of them; Reading, Cursor, Forward, Backward, Whole and Seeking
--     say what the functions do there, Session and Queries what a program sees, Append what is written,
--     Progress and Robust what holds of every file. Log/Tests has runs on two records;
--   LogManagement: `evl_compact_log`, `evl_repair_log` and `evlGetNumDelRec`
--     (user/cmd/evlogmgr/evl_logmgmt.c). Records has the functions on one record and
--     `setGenerationNumber`, Compact the loop of `compactLog`, Maintenance the function around it,
--     Repair the loops of `repairLog`, RepairRun the function around them, and Count
--     `countRecsForDeletion`. Moving, Rounds, Kept, Steps, Compacted, Generation and Maintained are
--     about compaction, Validated, Resync, Repaired, RepairRun and Livelock about repair, CountRounds
--     and Counted about counting. The program selects by `_evlEvaluateQuery`, a parameter here;
--   Duplicates: `dropDupRecord`, `compute_score`, `compareEventRecords`, `checkDupEventTimeoutForLog`
--     and `dumpDuplicatesBuffer` (user/cmd/evlogd/evlogd.c). `Dups` is what the daemon keeps for a log,
--     `Runs` the sequences of its calls. An event that `writeDiscardEvent` logs is a record in a list.
--
-- Further parts, of user/lib/util:
--   Scanner: `lxGetString` and its escape sequences (user/lib/util/scanner.c). The callbacks `input`
--     and `unput` are the text that is still to be read;
--   CommandLine: `_evlSplitCmd` and `_evlTrim` (user/lib/util/evl_common.c), on the text of a buffer.
--
-- Words are bit patterns below 2 ^ 32 or 2 ^ 64, for an LP64 target whose `char` is signed, with
-- the wrap-around written out. A failed `assert` is the value `none` of an evaluation or of the
-- optimiser. Every loop of the query engine runs over a list, a text or a tree, and is a
-- structural recursion. The loop of `lxGetString` has as fuel one round more than its text has
-- characters, which is enough, since each round consumes a character. The reference semantics,
-- `holds`, is a Boolean for each tree, with no order of evaluation and no short cut;
-- `reference_atts` gives it the values of the populated template.
--
-- A log is for a little-endian target: headers of 40 bytes for a file and of 88 for a record. Bytes
-- are numbers. Writes succeed, reads are not interrupted, and locks are left out. The searches have
-- as fuel one round more than the file has bytes, and `compactLog` one more than its file: a round
-- that goes on consumes bytes. `searchForNextGoodRecord` moves by one byte in each round. The fuel of
-- `repairLog` and of `countRecsForDeletion` is an argument of the definitions, and `unfinished` says
-- that it ran out. An access behind the end of a mapped file, and an overrun of `varbuf`, are results
-- of their own. The times of duplicates are far from the limits of `time_t`.
-- The buffers of the two searches are not cleared: their argument `memory` is what lies there at the
-- start, each record that is read lies over it, and the query is evaluated on the whole.
--
-- Not modelled: the other daemons and commands of user/cmd, the sockets, the kernel buffer and the
-- access control of the logging daemon, backups of a log, the template library, the facility
-- registry, the formatting of records, and memory that is freed, but for the number of times that
-- a template is released. `posix_log_memtostr`, `_evlGetNodeId`, `_evlGetHostNameEx` and the lookup of
-- facilities belong to these parts and are parameters; `HasTexts` asks of `posix_log_memtostr` that it
-- converts the members of a record, and of `evlatt_getstring` that it writes the values that a
-- template has.
pub mod Prelude
pub mod Query
pub mod CommandLine
pub mod Duplicates
pub mod Log
pub mod LogManagement
pub mod Scanner
