-- ===== src/Query/Optimize/MissingSound.antt =====
-- user/lib/query/qopt.c: the predictions of `simulateMissingNsa` and the meaning of a query.
use evlog.Prelude.{
  ℕ, Bool, true, false, not, ◌&&◌, ◌||◌, Option, none, some, Text, ◌≡◌, refl, arith, Bool-cases,
  inl, inr,
}
use mathlib.Core.Option.{some-injective}
use mathlib.Core.Path.{subst}
use evlog.Query.Tree.{
  Op, negation, conj, disj, conj_later, disj_later, Attr, body, Pnode, null, name, attname, nsaname,
  val, string, regex, op_node, Entry, Fuzzy, fuzzy_false, fuzzy_maybe, fuzzy_true, fuzzy_and,
  fuzzy_or, fuzzy_not,
}
use evlog.Query.Attribute.{TmplAtts, present_att}
use evlog.Query.Evaluate.{
  EvalEnv, evaluate_nonstd_comparison, compare_present, evaluate_comparison, has_attribute,
  is_present,
}
use evlog.Query.Normal.{holds, is_true}
use evlog.Query.Optimize.Missing.{
  is_missing, missing_nsa, missing_std, missing_comparison, fuzzy₁, fuzzy₂, simulate_missing_nsa,
}

-- A fuzzy value does not contradict a Boolean.
abbrev pub Agrees : Fuzzy → Bool → Type 0
Agrees fuzzy_false b = b ≡ false
Agrees fuzzy_maybe b = Unit
Agrees fuzzy_true b = b ≡ true

and-Agrees : (f g : Fuzzy) (a b : Bool) → Agrees f a → Agrees g b → Agrees (fuzzy_and f g) (a && b)
unfolding fuzzy_and
and-Agrees f g a b h k = ground arith

or-Agrees : (f g : Fuzzy) (a b : Bool) → Agrees f a → Agrees g b → Agrees (fuzzy_or f g) (a || b)
unfolding fuzzy_or
or-Agrees f g a b h k = ground arith

not-Agrees : (f : Fuzzy) (a : Bool) → Agrees f a → Agrees (fuzzy_not f) (not a)
unfolding fuzzy_not
not-Agrees f a h = ground arith

fuzzy₂-some :
    (k : Fuzzy → Fuzzy → Fuzzy) (a b : Option Fuzzy) {f : Fuzzy}
    → fuzzy₂ k a b ≡ some f
    → (g : Fuzzy) × (h : Fuzzy) × (a ≡ some g) × (b ≡ some h) × (k g h ≡ f)
unfolding fuzzy₂
fuzzy₂-some k none b p = cc
fuzzy₂-some k (some g) none p = cc
fuzzy₂-some k (some g) (some h) p = (g, h, refl, refl, cc)

fuzzy₁-some :
    (k : Fuzzy → Fuzzy) (a : Option Fuzzy) {f : Fuzzy}
    → fuzzy₁ k a ≡ some f
    → (g : Fuzzy) × (a ≡ some g) × (k g ≡ f)
unfolding fuzzy₁
fuzzy₁-some k none p = cc
fuzzy₁-some k (some g) p = (g, refl, cc)

as_predicted :
    (g : Fuzzy) (b : Bool) {f : Fuzzy}
    → ◌≡◌ {A = Option Fuzzy} (some g) (some f)
    → Agrees g b
    → Agrees f b
as_predicted g b p h = subst (λ k. Agrees k b) (some-injective _ _ p) h

-- The attributes that are simulated as missing have no value.
abbrev pub AreMissing : TmplAtts → Option ℕ → Type 0
AreMissing atts nsa = (i : ℕ) → is_missing nsa i ≡ true → present_att atts i ≡ none

module _ (env : EvalEnv) (atts : TmplAtts) (e : Entry) (buf : Text) (nsa : Option ℕ)
    (gone : AreMissing atts nsa) where
  std-Agrees : (a : Attr) → Agrees (missing_std a) (has_attribute a e)
  unfolding missing_std has_attribute
  std-Agrees body = tt
  std-Agrees _ = refl

  nsa-Agrees : (i : ℕ) → Agrees (missing_nsa nsa i) (is_present (present_att atts i))
  unfolding missing_nsa is_present
  nsa-Agrees i = elim (Bool-cases (is_missing nsa i)) [ inl p ↦ rw (p, gone i p) | inr p ↦ rw p tt ]

  comparison-Agrees :
      (op : Op) (l r : Pnode)
      → Agrees (missing_comparison nsa l) (is_true (evaluate_comparison env atts e buf op l r))
  unfolding missing_comparison missing_nsa
  comparison-Agrees op (nsaname i n) r = elim (Bool-cases (is_missing nsa i)) [
    | inl p ↦ rw p (
        unfold evaluate_comparison evaluate_nonstd_comparison compare_present is_true in
        rw (gone i p))
    | inr p ↦ rw p tt
  ]
  comparison-Agrees op _ r = tt

  -- With the simulated attributes missing, a prediction of `simulateMissingNsa` is the meaning of
  -- the query: true or false where it says so, and anything where it says maybe.
  pub simulate_missing_nsa-Agrees :
      (t : Pnode) {f : Fuzzy}
      → simulate_missing_nsa nsa t ≡ some f
      → Agrees f (holds env atts e buf t)
  unfolding simulate_missing_nsa holds
  simulate_missing_nsa-Agrees null p = as_predicted fuzzy_true _ p refl
  simulate_missing_nsa-Agrees (attname a n) p = as_predicted _ _ p (std-Agrees a)
  simulate_missing_nsa-Agrees (nsaname i n) p = as_predicted _ _ p (nsa-Agrees i)
  simulate_missing_nsa-Agrees (op_node negation l r) p =
      let (g, q, k) = fuzzy₁-some fuzzy_not _ p in
      rw (← k) (not-Agrees g _ (simulate_missing_nsa-Agrees l q))
  simulate_missing_nsa-Agrees (op_node conj l r) p =
      let (g, h, q, q', k) = fuzzy₂-some fuzzy_and _ _ p in
      rw (← k)
        (and-Agrees g h _ _ (simulate_missing_nsa-Agrees l q) (simulate_missing_nsa-Agrees r q'))
  simulate_missing_nsa-Agrees (op_node conj_later l r) p =
      let (g, h, q, q', k) = fuzzy₂-some fuzzy_and _ _ p in
      rw (← k)
        (and-Agrees g h _ _ (simulate_missing_nsa-Agrees l q) (simulate_missing_nsa-Agrees r q'))
  simulate_missing_nsa-Agrees (op_node disj l r) p =
      let (g, h, q, q', k) = fuzzy₂-some fuzzy_or _ _ p in
      rw (← k)
        (or-Agrees g h _ _ (simulate_missing_nsa-Agrees l q) (simulate_missing_nsa-Agrees r q'))
  simulate_missing_nsa-Agrees (op_node disj_later l r) p =
      let (g, h, q, q', k) = fuzzy₂-some fuzzy_or _ _ p in
      rw (← k)
        (or-Agrees g h _ _ (simulate_missing_nsa-Agrees l q) (simulate_missing_nsa-Agrees r q'))
  simulate_missing_nsa-Agrees (op_node op l r) p = as_predicted _ _ p (comparison-Agrees op l r)
  simulate_missing_nsa-Agrees (name n) p = absurd (cc)
  simulate_missing_nsa-Agrees (val m w) p = absurd (cc)
  simulate_missing_nsa-Agrees (string s) p = absurd (cc)
  simulate_missing_nsa-Agrees (regex s) p = absurd (cc)
