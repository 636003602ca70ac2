-- ===== src/Query/Tree.antt =====
-- user/lib/query/evl_parse.h: the nodes of a query's tree, the fuzzy truth values and the list of
-- non-standard attributes; the operator codes of query.y; the header of a record (evl_log.h).
use evlog.Prelude.{ℕ, Bool, List, Text, ◌==◌}

-- `attr_flag` of an nt_op node. The characters stand for themselves, the other codes are tokens
-- of query.y.
pub data Op : Type 0 where
  eq ne lt le gt ge contains re_match re_no_match bit_test : Op
  negation conj disj conj_later disj_later : Op

unfoldable pub op_code : Op → ℕ
op_code eq = b'='
op_code ne = 263
op_code lt = b'<'
op_code le = 262
op_code gt = b'>'
op_code ge = 261
op_code contains = 266
op_code re_match = b'~'
op_code re_no_match = 267
op_code bit_test = b'&'
op_code negation = b'!'
op_code conj = 265
op_code disj = 264
op_code conj_later = 268
op_code disj_later = 269

unfoldable pub op_eq : Op → Op → Bool
unfolding op_code
op_eq a b = op_code a == op_code b

-- The member selectors POSIX_LOG_ENTRY_*, with EVL_ENTRY_AGE and EVL_ENTRY_HOST.
pub data Attr : Type 0 where
  body recid size format event_type facility severity uid gid pid pgrp time flags thread : Attr
  processor age host : Attr

-- `pnode_t`. The object that `attr_nsa` points to is named by its index in the list of
-- non-standard attributes; `val minus w` holds the 64 bits of `attr_val` and `attr_uval`, and
-- `minus` says that `attr_flag` is -1; `regex` keeps the source of the compiled expression.
pub data Pnode : Type 0 where
  null : Pnode
  name : Text → Pnode
  attname : Attr → Text → Pnode
  nsaname : ℕ → Text → Pnode
  val : Bool → ℕ → Pnode
  string : Text → Pnode
  regex : Text → Pnode
  op_node : Op → Pnode → Pnode → Pnode

-- `evlFuzzyBoolean`, 0x0, 0x1 and 0x3.
pub data Fuzzy : Type 0 where
  fuzzy_false fuzzy_maybe fuzzy_true : Fuzzy

-- The bit operations `&` and `|` on those codes.
unfoldable pub fuzzy_and : Fuzzy → Fuzzy → Fuzzy
fuzzy_and fuzzy_false b = fuzzy_false
fuzzy_and fuzzy_maybe fuzzy_false = fuzzy_false
fuzzy_and fuzzy_maybe b = fuzzy_maybe
fuzzy_and fuzzy_true b = b

unfoldable pub fuzzy_or : Fuzzy → Fuzzy → Fuzzy
fuzzy_or fuzzy_false b = b
fuzzy_or fuzzy_maybe fuzzy_true = fuzzy_true
fuzzy_or fuzzy_maybe b = fuzzy_maybe
fuzzy_or fuzzy_true b = fuzzy_true

unfoldable pub fuzzy_not : Fuzzy → Fuzzy
fuzzy_not fuzzy_false = fuzzy_true
fuzzy_not fuzzy_maybe = fuzzy_maybe
fuzzy_not fuzzy_true = fuzzy_false

-- `evl_nonStdAtt_t`; the two flags are EVLNSA_NUMERIC and EVLNSA_STRREF.
pub record NonStdAtt : Type 0 where
  pub nsa_name : Text
  pub result_if_missing : Fuzzy
  pub is_numeric : Bool
  pub is_strref : Bool
  pub nsa_att : ℕ

-- `evl_nonStdAtts_t`
pub record NonStdAtts : Type 0 where
  pub ns_atts : List NonStdAtt
  pub result_if_all_missing : Fuzzy

-- `struct posix_log_entry`: the patterns of its members, 64 bits for `log_size`, `log_time` and
-- `log_thread`, and 32 for the others.
pub record Entry : Type 0 where
  pub log_recid : ℕ
  pub log_size : ℕ
  pub log_format : ℕ
  pub log_event_type : ℕ
  pub log_facility : ℕ
  pub log_severity : ℕ
  pub log_uid : ℕ
  pub log_gid : ℕ
  pub log_pid : ℕ
  pub log_pgrp : ℕ
  pub log_time : ℕ
  pub log_flags : ℕ
  pub log_thread : ℕ
  pub log_processor : ℕ
