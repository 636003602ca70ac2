-- ===== src/Query/Normalize/HostName.antt =====
-- user/lib/query/normalize.c: a host operand "upper.lower" (`normalizeAttHost`), and a bare name
-- under `contains`.
use evlog.Prelude.{
  All, ℕ, ◌+◌, ◌*◌, ◌^◌, ◌<◌, ◌≤◌, true, false, ◌||◌, ltb, if◌then◌else◌, none, [], ◌∷◌, ◌++◌, Text,
  codes, strtoul, saturate, isdigit, ◌≡◌, refl, arith, ap, Bool-cases, inl, inr,
}
use mathlib.Core.Path.{subst}
use evlog.Query.Tree.{
  Op, eq, ne, lt, le, gt, ge, contains, op_eq, op_code, host, Pnode, name, attname, val, string,
  op_node, Entry,
}
use evlog.Query.Attribute.{TmplAtts}
use evlog.Query.Evaluate.{
  EvalEnv, evaluate_tree, evaluate_comparison, evaluate_std_comparison, compare_member,
}
use evlog.Query.Normalize.Result.{ok, err, NormEnv, invalid_node_id}
use evlog.Query.Normalize.Operand.{standard_int_ops, op_in, verify_op, is_regex_op, verified}
use evlog.Query.Normalize.Host.{
  above_byte, node_id, host_by_id, host_numbers, host_operand, host_text, normalize_att_host,
  starts_with_dot, is_empty,
}
use evlog.Query.Normalize.Analysis.{State, normalize_tree}
use evlog.Query.Normalize.Numerals.{
  decimal, IsNumeral, strtoul-decimal, strchr-numeral, small, ltb-true,
}

numeral_digits : (s : Text) → IsNumeral s → All (λ d. isdigit d ≡ true) s
numeral_digits [] h = tt
numeral_digits (c ∷ s) h = h

append_nil : (s : Text) → s ++ [] ≡ s
append_nil [] = refl
append_nil (c ∷ s) = ap (λ t. c ∷ t) (append_nil s)

plain_op :
    (op : Op)
    → op_in op standard_int_ops ≡ true
    → (is_regex_op op ≡ false) × (op_eq op contains ≡ false)
unfolding op_in is_regex_op op_eq op_code
plain_op eq h = (refl, refl)
plain_op ne h = (refl, refl)
plain_op lt h = (refl, refl)
plain_op le h = (refl, refl)
plain_op gt h = (refl, refl)
plain_op ge h = (refl, refl)
plain_op _ h = cc

strtoul-numeral : (s : Text) → IsNumeral s → strtoul s ≡ (saturate (decimal 0 s), [], true)
strtoul-numeral s h =
    subst (λ t. strtoul t ≡ (saturate (decimal 0 s), [], true)) (append_nil s)
      (strtoul-decimal s [] h refl)

node_small : (u l : ℕ) → u ≤ 255 → l ≤ 255 → node_id (saturate u) (saturate l) ≡ u * 256 + l
unfolding node_id
node_small u l hu hl = ground arith

above_byte_small : (n : ℕ) → n < 2 ^ 31 → above_byte (saturate n) ≡ ltb 255 n
unfolding above_byte
above_byte_small n h = rw (small n h, ltb-true n (2 ^ 31) h) refl

host_by_id-bytes :
    (op : Op) (att : Text) (u l : ℕ)
    → op_in op standard_int_ops ≡ true
    → u < 2 ^ 31
    → l < 2 ^ 31
    → host_by_id op att (saturate u) (saturate l)
      ≡ (if ltb 255 u || ltb 255 l then err invalid_node_id else ok (val false (u * 256 + l)))
unfolding host_by_id verified verify_op
host_by_id-bytes op att u l h su sl =
    rw (above_byte_small u su, above_byte_small l sl)
      (elim (Bool-cases (ltb 255 u || ltb 255 l)) [
        | inl p ↦ rw p refl
        | inr p ↦ rw (p, h, node_small u l (ground arith) (ground arith)) refl
      ])

-- The string operand "u.l" of a comparison of the host by one of = != < <= > >=, with two numbers
-- below 2 ^ 31, is the node u * 256 + l when both are at most 255, and otherwise an error.
pub normalize_att_host-decimal :
    (env : NormEnv) (op : Op) (att u l : Text)
    → op_in op standard_int_ops ≡ true
    → IsNumeral u
    → IsNumeral l
    → decimal 0 u < 2 ^ 31
    → decimal 0 l < 2 ^ 31
    → normalize_att_host env op att (string (u ++ b'.' ∷ l)) ≡ (
        if ltb 255 (decimal 0 u) || ltb 255 (decimal 0 l)
        then err invalid_node_id
        else ok (val false (decimal 0 u * 256 + decimal 0 l)))
unfolding normalize_att_host host_text host_operand host_numbers starts_with_dot is_empty
normalize_att_host-decimal env op att u l h hu hl su sl =
    let (r, c) = plain_op op h in
    rw
      (
        r,
        c,
        strchr-numeral u l (numeral_digits u hu),
        strtoul-decimal u (b'.' ∷ l) hu refl,
        strtoul-numeral l hl,
      )
      (host_by_id-bytes op att (decimal 0 u) (decimal 0 l) h su sl)

-- `host contains <name>`: the analysis accepts it and leaves the name on the right, and the evaluation
-- of what it leaves fails its assertion, on every record.
pub host_contains-Undefined :
    (env : NormEnv) (eval : EvalEnv) (s : Text) (st : State) (atts : TmplAtts) (e : Entry)
    (buf : Text)
    → (t : Pnode) × (normalize_tree env (op_node contains (name (codes "host")) (name s)) st
        ≡ ok (t, st))
      × (evaluate_tree eval atts e buf t ≡ none)
unfolding normalize_tree normalize_att_host host_text is_regex_op op_eq op_code evaluate_tree
    evaluate_comparison evaluate_std_comparison compare_member
host_contains-Undefined env eval s st atts e buf =
    (op_node contains (attname host (codes "host")) (name s), refl, refl)
