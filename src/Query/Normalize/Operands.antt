-- ===== src/Query/Normalize/Operands.antt =====
-- user/lib/query/normalize.c: the right children that the shared checks return.
use evlog.Prelude.{
  ℕ, ◌&&◌, not, ◌==◌, ltb, Bool, true, false, Option, none, some, List, Text, Bool-cases, inl, inr,
  if◌then◌else◌,
}
use evlog.Query.Tree.{Op, Pnode, val, string}
use evlog.Query.Normal.{IsOperand, IsValue}
use evlog.Query.Normalize.Result.{
  Result, ok, ◌>>=◌, NormEnv, Ensures, Ensures-bind, Ensures-after, Ensures-if,
}
use evlog.Query.Normalize.Names.{NvPairs, get_value_by_ci_name}
use evlog.Query.Normalize.Operand.{
  integer_error, force_sign_extend, standard_int_ops, standard_string_ops, is_regex_op, verify_op,
  verified, normalize_regex, string_or_regex, normalize_string_or_regex, normalize_value,
  normalize_integer, verified_integer, named_value, change_name_node_to_int,
}
use evlog.Query.Normalize.Age.{parse_age, age_operand, days_to_seconds, normalize_att_age}

abbrev pub Fits : Result Pnode → Type 0
Fits = Ensures IsOperand

pub Fits-if : (b : Bool) (m n : Result Pnode) → Fits m → Fits n → Fits (if b then m else n)
Fits-if true m n h k = h
Fits-if false m n h k = k

pub verified-Fits :
    (op : Op) (table : List Op) (att : Text) (node : Pnode)
    → IsOperand node
    → Fits (verified op table att node)
unfolding verified
verified-Fits op table att node h =
    Ensures-after IsOperand (verify_op op table att) (λ u. ok node) (λ u. h)

pub value-Fits :
    (u : Bool) (width : ℕ) (att : Text) (minus : Bool) (w : ℕ)
    → Fits (normalize_value u width att minus w)
unfolding normalize_value
value-Fits u width att minus w = search (Fits-if, tt)

pub integer-Fits :
    (u : Bool) (width : ℕ) (att : Text) (node : Pnode) → Fits (normalize_integer u width att node)
unfolding normalize_integer
integer-Fits u width att (val minus w) = value-Fits u width att minus w
integer-Fits u width att _ = tt

pub verified_integer-Fits :
    (u : Bool) (width : ℕ) (op : Op) (table : List Op) (att : Text) (node : Pnode)
    → Fits (verified_integer u width op table att node)
unfolding verified_integer
verified_integer-Fits u width op table att node =
    Ensures-bind IsOperand IsOperand (normalize_integer u width att node) (verified op table att)
      (integer-Fits u width att node) (verified-Fits op table att)

abbrev pub FitsOption : Option Pnode → Type 0
FitsOption none = Unit
FitsOption (some node) = IsOperand node

pub regex-Fits :
    (env : NormEnv) (op : Op) (att s : Text) → Ensures FitsOption (normalize_regex env op att s)
unfolding normalize_regex
regex-Fits env op att s = elim (Bool-cases (is_regex_op op)) [
  | inl p ↦ elim (Bool-cases (env.regcomp s)) [ inl q ↦ rw (p, q) tt | inr q ↦ rw (p, q) tt ]
  | inr p ↦ rw p tt
]

string_or_regex-Fits :
    (op : Op) (att s : Text) (r : Option Pnode) → FitsOption r → Fits (string_or_regex op att s r)
unfolding string_or_regex
string_or_regex-Fits op att s none h = verified-Fits op standard_string_ops att (string s) tt
string_or_regex-Fits op att s (some node) h = h

pub normalize_string_or_regex-Fits :
    (env : NormEnv) (op : Op) (att s : Text) → Fits (normalize_string_or_regex env op att s)
unfolding normalize_string_or_regex
normalize_string_or_regex-Fits env op att s =
    Ensures-bind FitsOption IsOperand (normalize_regex env op att s) (string_or_regex op att s)
      (regex-Fits env op att s) (string_or_regex-Fits op att s)

named_value-Fits : (att s : Text) (o : Option ℕ) → Fits (named_value att s o)
unfolding named_value
named_value-Fits att s none = tt
named_value-Fits att s (some c) = tt

pub change_name-Fits :
    (att s : Text) (table : NvPairs ℕ) → Fits (change_name_node_to_int att s table)
unfolding change_name_node_to_int
change_name-Fits att s table = named_value-Fits att s (get_value_by_ci_name table s)

pub verified_name-Fits :
    (op : Op) (ops : List Op) (att s : Text) (table : NvPairs ℕ)
    → Fits (change_name_node_to_int att s table >>= λ v. verified op ops att v)
verified_name-Fits op ops att s table =
    Ensures-bind IsOperand IsOperand (change_name_node_to_int att s table) (verified op ops att)
      (change_name-Fits att s table) (verified-Fits op ops att)

age_operand-Fits : (op : Op) (att s : Text) (o : Option ℕ) → Fits (age_operand op att s o)
unfolding age_operand
age_operand-Fits op att s none = tt
age_operand-Fits op att s (some nsec) = verified-Fits op standard_int_ops att (val false nsec) tt

days-IsOperand : (node : Pnode) → IsOperand node → IsOperand (days_to_seconds node)
unfolding days_to_seconds
days-IsOperand (val minus w) h = tt
days-IsOperand _ h = h

pub normalize_att_age-Fits :
    (op : Op) (att : Text) (node : Pnode) → Fits (normalize_att_age op att node)
unfolding normalize_att_age
normalize_att_age-Fits op att (val minus w) =
    Ensures-bind IsOperand IsOperand (normalize_integer true 8 att (val minus w))
      (λ v. verified op standard_int_ops att (days_to_seconds v))
      (integer-Fits true 8 att (val minus w))
      (λ v h. verified-Fits op standard_int_ops att (days_to_seconds v) (days-IsOperand v h))
normalize_att_age-Fits op att (string s) = age_operand-Fits op att s (parse_age s)
normalize_att_age-Fits op att _ = tt

-- An age becomes a number.
normalize_value-IsValue :
    (u : Bool) (width : ℕ) (att : Text) (minus : Bool) (w : ℕ)
    → Ensures IsValue (normalize_value u width att minus w)
unfolding normalize_value
normalize_value-IsValue u width att minus w =
    Ensures-if IsValue (u && minus && not (w == 0)) _ _ (λ p. tt)
      (λ p.
        Ensures-if IsValue (integer_error minus width w) _ _ (λ q. tt)
          (λ q.
            Ensures-if IsValue (not u && force_sign_extend minus width w && ltb width 8) _ _
              (λ r. tt) (λ r. tt)))

verified-IsValue :
    (op : Op) (table : List Op) (att : Text) (node : Pnode)
    → IsValue node
    → Ensures IsValue (verified op table att node)
unfolding verified
verified-IsValue op table att node h =
    Ensures-after IsValue (verify_op op table att) (λ u. ok node) (λ u. h)

age_operand-IsValue :
    (op : Op) (att s : Text) (o : Option ℕ) → Ensures IsValue (age_operand op att s o)
unfolding age_operand
age_operand-IsValue op att s none = tt
age_operand-IsValue op att s (some nsec) =
    verified-IsValue op standard_int_ops att (val false nsec) tt

days-IsValue : (node : Pnode) → IsValue node → IsValue (days_to_seconds node)
unfolding days_to_seconds
days-IsValue (val minus w) h = tt
days-IsValue _ h = h

pub normalize_att_age-IsValue :
    (op : Op) (att : Text) (node : Pnode) → Ensures IsValue (normalize_att_age op att node)
unfolding normalize_att_age normalize_integer
normalize_att_age-IsValue op att (val minus w) =
    Ensures-bind IsValue IsValue (normalize_value true 8 att minus w)
      (λ v. verified op standard_int_ops att (days_to_seconds v))
      (normalize_value-IsValue true 8 att minus w)
      (λ v h. verified-IsValue op standard_int_ops att (days_to_seconds v) (days-IsValue v h))
normalize_att_age-IsValue op att (string s) = age_operand-IsValue op att s (parse_age s)
normalize_att_age-IsValue op att _ = tt
