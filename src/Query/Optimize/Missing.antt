-- ===== src/Query/Optimize/Missing.antt =====
-- user/lib/query/qopt.c, the second optimisation: `simulateMissingNsa`.
use evlog.Prelude.{ℕ, Bool, true, ◌==◌, if◌then◌else◌, Option, none, some}
use evlog.Query.Tree.{
  negation, conj, disj, conj_later, disj_later, Attr, body, Pnode, null, attname, nsaname, op_node,
  Fuzzy, fuzzy_false, fuzzy_maybe, fuzzy_true, fuzzy_and, fuzzy_or, fuzzy_not,
}

-- `!nsa || attr_nsa == nsa`; `none` stands for all attributes.
unfoldable pub is_missing : Option ℕ → ℕ → Bool
is_missing none i = true
is_missing (some j) i = i == j

unfoldable pub missing_nsa : Option ℕ → ℕ → Fuzzy
unfolding is_missing
missing_nsa nsa i = if is_missing nsa i then fuzzy_false else fuzzy_maybe

unfoldable pub missing_std : Attr → Fuzzy
missing_std body = fuzzy_maybe
missing_std _ = fuzzy_true

unfoldable pub missing_comparison : Option ℕ → Pnode → Fuzzy
unfolding missing_nsa
missing_comparison nsa (nsaname i n) = missing_nsa nsa i
missing_comparison nsa _ = fuzzy_maybe

unfoldable pub fuzzy₂ : (Fuzzy → Fuzzy → Fuzzy) → Option Fuzzy → Option Fuzzy → Option Fuzzy
fuzzy₂ f (some a) (some b) = some (f a b)
fuzzy₂ f _ _ = none

unfoldable pub fuzzy₁ : (Fuzzy → Fuzzy) → Option Fuzzy → Option Fuzzy
fuzzy₁ f (some a) = some (f a)
fuzzy₁ f none = none

-- `simulateMissingNsa`
unfoldable pub simulate_missing_nsa : Option ℕ → Pnode → Option Fuzzy
unfolding missing_nsa missing_std missing_comparison fuzzy₁ fuzzy₂ fuzzy_and fuzzy_or fuzzy_not
simulate_missing_nsa nsa null = some fuzzy_true
simulate_missing_nsa nsa (attname a n) = some (missing_std a)
simulate_missing_nsa nsa (nsaname i n) = some (missing_nsa nsa i)
simulate_missing_nsa nsa (op_node negation l r) = fuzzy₁ fuzzy_not (simulate_missing_nsa nsa l)
simulate_missing_nsa nsa (op_node conj l r) =
    fuzzy₂ fuzzy_and (simulate_missing_nsa nsa l) (simulate_missing_nsa nsa r)
simulate_missing_nsa nsa (op_node conj_later l r) =
    fuzzy₂ fuzzy_and (simulate_missing_nsa nsa l) (simulate_missing_nsa nsa r)
simulate_missing_nsa nsa (op_node disj l r) =
    fuzzy₂ fuzzy_or (simulate_missing_nsa nsa l) (simulate_missing_nsa nsa r)
simulate_missing_nsa nsa (op_node disj_later l r) =
    fuzzy₂ fuzzy_or (simulate_missing_nsa nsa l) (simulate_missing_nsa nsa r)
simulate_missing_nsa nsa (op_node op l r) = some (missing_comparison nsa l)
simulate_missing_nsa nsa _ = none
