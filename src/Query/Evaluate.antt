-- ===== src/Query/Evaluate.antt =====
-- user/lib/query/evaluate.c: `evaluateNonStdComparison` and `evaluateTree`. A failed `assert` is
-- `none`.
use evlog.Prelude.{
  ℕ, ◌%◌, ◌^◌, Bool, true, false, not, ◌==◌, ltb, if◌then◌else◌, Option, none, some, Text,
  sign_extend, sub64, shift_right16, u32_mod, ◌+◌, ◌-◌,
}
use evlog.Query.Tree.{
  Op, op_eq, re_match, negation, conj, disj, Attr, body, recid, size, format, event_type, facility,
  severity, uid, gid, pid, pgrp, time, flags, thread, processor, age, host, Pnode, attname, nsaname,
  val, string, regex, op_node, Entry,
}
use evlog.Query.Compare.{
  Order, compare_signed_ints, compare_unsigned_ints, compare_doubles, compare_strings,
}
use evlog.Query.Attribute.{
  BaseType, Attribute, TmplAtts, present_att, ty_char, ty_wchar, ty_short, ty_int, ty_long,
  ty_uchar, ty_ushort, ty_uint, ty_ulong, ty_longlong, ty_ulonglong, ty_float, ty_double,
  ty_ldouble,
}

-- What evaluation takes from elsewhere: the regular expressions and the clock of the C library,
-- floating-point comparisons, `_evlGetHostNameEx` and `posix_log_memtostr` (`none` for an error).
pub record EvalEnv : Type 0 where
  pub regexec : Text → Text → Bool
  pub now : ℕ
  pub double_order : ℕ → ℕ → Order
  pub long_double_order : ℕ → ℕ → Order
  pub host_name : ℕ → Text
  pub memtostr : Attr → Entry → Option Text

-- The switch on `evlatt_gettype(att)`; `sval` is the operand of the query.
unfoldable pub compare_att_value : EvalEnv → Op → BaseType → ℕ → ℕ → Bool
unfolding compare_signed_ints compare_unsigned_ints compare_doubles
compare_att_value env op ty_char v sval = compare_signed_ints op v sval
compare_att_value env op ty_wchar v sval = compare_signed_ints op v sval
compare_att_value env op ty_short v sval = compare_signed_ints op v sval
compare_att_value env op ty_int v sval = compare_signed_ints op v sval
compare_att_value env op ty_long v sval = compare_signed_ints op v sval
compare_att_value env op ty_uchar v sval = compare_unsigned_ints op v sval
compare_att_value env op ty_ushort v sval = compare_unsigned_ints op v sval
compare_att_value env op ty_uint v sval = compare_unsigned_ints op v sval
compare_att_value env op ty_ulong v sval = compare_unsigned_ints op v sval
compare_att_value env op ty_longlong v sval = compare_signed_ints op v sval
compare_att_value env op ty_ulonglong v sval = compare_unsigned_ints op v sval
compare_att_value env op ty_float v sval = compare_doubles op (env.double_order v sval)
compare_att_value env op ty_double v sval = compare_doubles op (env.double_order v sval)
compare_att_value env op ty_ldouble v sval = compare_doubles op (env.long_double_order v sval)
compare_att_value env op _ v sval = false

-- `regexec` under `~`, and its negation under `!~`.
unfoldable pub compare_regex : EvalEnv → Op → Text → Text → Bool
unfolding op_eq
compare_regex env op pattern subject =
    if op_eq op re_match then env.regexec pattern subject else not (env.regexec pattern subject)

-- Comparisons of the text of an attribute with a string or a regular expression.
unfoldable pub compare_text : EvalEnv → Op → Pnode → Text → Option Bool
unfolding compare_strings compare_regex
compare_text env op (string s) left = some (compare_strings op left s)
compare_text env op (regex p) left = some (compare_regex env op p left)
compare_text env op _ left = none

unfoldable pub compare_text_status : EvalEnv → Op → Pnode → Option Text → Option Bool
unfolding compare_text
compare_text_status env op right none = none
compare_text_status env op right (some left) = compare_text env op right left

unfoldable pub compare_att : EvalEnv → Op → Attribute → Pnode → Option Bool
unfolding compare_text_status compare_att_value
compare_att env op att (string s) = compare_text_status env op (string s) att.att_string
compare_att env op att (regex p) = compare_text_status env op (regex p) att.att_string
compare_att env op att (val minus w) = some (compare_att_value env op att.base_type att.value w)
compare_att env op att _ = none

unfoldable pub compare_present : EvalEnv → Op → Pnode → Option Attribute → Option Bool
unfolding compare_att
compare_present env op right none = some false
compare_present env op right (some att) = compare_att env op att right

-- `evaluateNonStdComparison`
unfoldable pub evaluate_nonstd_comparison : EvalEnv → Op → TmplAtts → ℕ → Pnode → Option Bool
unfolding compare_present present_att
evaluate_nonstd_comparison env op atts i right = compare_present env op right (present_att atts i)

abbrev pub posix_log_string : ℕ
posix_log_string = 2

-- `posix_log_severity_compare` (posix1.c): `s2 - s1` as an `int`.
unfoldable pub severity_compare : ℕ → ℕ → ℕ
severity_compare s1 s2 = (s2 % u32_mod + u32_mod - s1) % u32_mod

-- The branch of `evaluateTree` for a text operand. `buf` is the C string that begins at `buf`.
unfoldable pub compare_member_text : EvalEnv → Op → Attr → Entry → Text → Pnode → Option Bool
unfolding compare_text_status
compare_member_text env op body e buf right =
    if e.log_format == posix_log_string
    then compare_text_status env op right (some buf)
    else some false
compare_member_text env op host e buf right =
    compare_text_status env op right
      (some (env.host_name (shift_right16 e.log_processor % u32_mod)))
compare_member_text env op a e buf right = compare_text_status env op right (env.memtostr a e)

-- The switch of `evaluateTree` on the member, with a number on the right.
unfoldable pub compare_member : EvalEnv → Op → Attr → Entry → ℕ → Bool
unfolding compare_signed_ints compare_unsigned_ints severity_compare
compare_member env op recid e w = compare_unsigned_ints op (sign_extend e.log_recid) w
compare_member env op size e w = compare_unsigned_ints op e.log_size w
compare_member env op format e w = compare_signed_ints op (sign_extend e.log_format) w
compare_member env op event_type e w = compare_signed_ints op (sign_extend e.log_event_type) w
compare_member env op facility e w = compare_unsigned_ints op e.log_facility w
compare_member env op severity e w =
    compare_signed_ints op (sign_extend (severity_compare e.log_severity w)) 0
compare_member env op uid e w = compare_unsigned_ints op e.log_uid w
compare_member env op gid e w = compare_unsigned_ints op e.log_gid w
compare_member env op pid e w = compare_signed_ints op (sign_extend e.log_pid) w
compare_member env op pgrp e w = compare_signed_ints op (sign_extend e.log_pgrp) w
compare_member env op time e w = compare_signed_ints op e.log_time w
compare_member env op flags e w = compare_unsigned_ints op e.log_flags w
compare_member env op thread e w = compare_unsigned_ints op e.log_thread w
compare_member env op processor e w = compare_signed_ints op (e.log_processor % 2 ^ 16) w
compare_member env op age e w = compare_signed_ints op (sub64 env.now w) e.log_time
compare_member env op host e w = compare_unsigned_ints op (shift_right16 e.log_processor) w
compare_member env op body e w = false

unfoldable pub evaluate_std_comparison : EvalEnv → Op → Attr → Entry → Text → Pnode → Option Bool
unfolding compare_member_text compare_member
evaluate_std_comparison env op a e buf (string s) = compare_member_text env op a e buf (string s)
evaluate_std_comparison env op a e buf (regex p) = compare_member_text env op a e buf (regex p)
evaluate_std_comparison env op a e buf (val minus w) = some (compare_member env op a e w)
evaluate_std_comparison env op a e buf _ = none

-- A comparison: the attribute's node decides. Normalisation leaves no other node on the left.
unfoldable pub evaluate_comparison :
    EvalEnv → TmplAtts → Entry → Text → Op → Pnode → Pnode → Option Bool
unfolding evaluate_nonstd_comparison evaluate_std_comparison
evaluate_comparison env atts e buf op (nsaname i n) right =
    evaluate_nonstd_comparison env op atts i right
evaluate_comparison env atts e buf op (attname a n) right =
    evaluate_std_comparison env op a e buf right
evaluate_comparison env atts e buf op _ right = none

-- A node that is an attribute: whether the record has it.
unfoldable pub has_attribute : Attr → Entry → Bool
has_attribute body e = ltb 0 e.log_size
has_attribute _ e = true

unfoldable pub is_present : Option Attribute → Bool
is_present none = false
is_present (some att) = true

-- `&&`, `||` and `!` of C on the results.
unfoldable pub and_then : Option Bool → Option Bool → Option Bool
and_then none r = none
and_then (some false) r = some false
and_then (some true) r = r

unfoldable pub or_else : Option Bool → Option Bool → Option Bool
or_else none r = none
or_else (some true) r = some true
or_else (some false) r = r

unfoldable pub negated : Option Bool → Option Bool
negated none = none
negated (some b) = some (not b)

-- `evaluateTree`
module _ (env : EvalEnv) (atts : TmplAtts) (e : Entry) (buf : Text) where
  unfoldable pub evaluate_tree : Pnode → Option Bool
  unfolding has_attribute is_present present_att and_then or_else negated evaluate_comparison
  evaluate_tree (attname a n) = some (has_attribute a e)
  evaluate_tree (nsaname i n) = some (is_present (present_att atts i))
  evaluate_tree (op_node conj l r) = and_then (evaluate_tree l) (evaluate_tree r)
  evaluate_tree (op_node disj l r) = or_else (evaluate_tree l) (evaluate_tree r)
  evaluate_tree (op_node negation l r) = negated (evaluate_tree l)
  evaluate_tree (op_node op l r) = evaluate_comparison env atts e buf op l r
  evaluate_tree _ = none
