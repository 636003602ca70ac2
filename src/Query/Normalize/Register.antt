-- ===== src/Query/Normalize/Register.antt =====
-- user/lib/query/normalize.c: the list of non-standard attributes and its indices.
use mathlib.Core.Option.{some-injective}
use mathlib.Core.Path.{subst}
use evlog.Prelude.{
  ℕ, zero, suc, ◌+◌, Bool, true, false, Option, none, some, List, [], ◌∷◌, ◌++◌, Text, text_eq,
  eq_of_text_eq, length, Bool-cases, inl, inr, ◌≡◌, refl, ap, arith,
}
use evlog.Query.Tree.{NonStdAtt, NonStdAtts}
use evlog.Query.Screen.Refs.{IsIndexed}
use evlog.Query.Normalize.Analysis.{
  State, find_named, new_att, register_in, atts_of, register_nonstd_att, mark_numeric, mark_nonstd,
}

IsIndexed-append :
    (k : ℕ) (xs : List NonStdAtt) (s : Text)
    → IsIndexed k xs
    → IsIndexed k (xs ++ new_att s (k + length xs) ∷ [])
unfolding new_att
IsIndexed-append k [] s h = (omega arith, tt)
IsIndexed-append k (x ∷ xs) s h = (
  h.0,
  subst (λ n. IsIndexed (suc k) (xs ++ new_att s n ∷ [])) (omega arith)
      (IsIndexed-append (suc k) xs s h.1),
)

IsIndexed-mark : (k i : ℕ) (xs : List NonStdAtt) → IsIndexed k xs → IsIndexed k (mark_numeric i xs)
unfolding mark_numeric
IsIndexed-mark k i [] h = tt
IsIndexed-mark k zero (x ∷ xs) h = h
IsIndexed-mark k (suc i) (x ∷ xs) h = (h.0, IsIndexed-mark (suc k) i xs h.1)

register_in-IsIndexed :
    (xs : List NonStdAtt) (s : Text) (o : Option ℕ)
    → IsIndexed 0 xs
    → IsIndexed 0 (register_in xs s o).1
unfolding register_in
register_in-IsIndexed xs s none h =
    subst (λ n. IsIndexed 0 (xs ++ new_att s n ∷ [])) (omega arith) (IsIndexed-append 0 xs s h)
register_in-IsIndexed xs s (some i) h = h

-- The list of a state is as `registerNonStdAtt` builds it.
pub record IsValid (st : State) : Type 0 where
  pub indexed : IsIndexed 0 (atts_of st.nonstd)

abbrev pub has_list : State → Bool
has_list st = elim (st.nonstd) [ none ↦ false | some ns ↦ true ]

pub mark_nonstd-IsIndexed :
    (i : ℕ) (o : Option NonStdAtts)
    → IsIndexed 0 (atts_of o)
    → IsIndexed 0 (atts_of (mark_nonstd i o))
unfolding mark_nonstd
mark_nonstd-IsIndexed i none h = h
mark_nonstd-IsIndexed i (some ns) h = IsIndexed-mark 0 i ns.ns_atts h

-- Registration keeps a well-formed list of non-standard attributes well-formed, and there is a
-- list afterwards.
pub register_nonstd_att-IsValid :
    (s : Text) (st : State)
    → IsValid st
    → IsValid (register_nonstd_att s st).1 × (has_list (register_nonstd_att s st).1 ≡ true)
unfolding register_nonstd_att
register_nonstd_att-IsValid s st v =
    (record { indexed = register_in-IsIndexed (atts_of st.nonstd) s _ v.indexed }, refl)

abbrev pub nth_name : List NonStdAtt → ℕ → Option Text
nth_name [] i = none
nth_name (x ∷ xs) zero = some x.nsa_name
nth_name (x ∷ xs) (suc i) = nth_name xs i

find_named-name :
    (k : ℕ) (xs : List NonStdAtt) (s : Text) {j : ℕ}
    → IsIndexed k xs
    → find_named xs s ≡ some j
    → (i : ℕ) × (j ≡ k + i) × (nth_name xs i ≡ some s)
unfolding find_named
find_named-name k [] s h p = cc
find_named-name k (x ∷ xs) s {j} h p = elim (Bool-cases (text_eq x.nsa_name s)) [
  | inl q ↦ (
    0,
    omega (arith, h.0, some-injective x.nsa_att j (rw q at p)),
    ap some (eq_of_text_eq x.nsa_name s q),
  )
  | inr q ↦
      let (i, e, n) = find_named-name (suc k) xs s h.1 (rw q at p) in (suc i, omega (arith, e), n)
]

nth_name-append :
    (xs : List NonStdAtt) (x : NonStdAtt) → nth_name (xs ++ x ∷ []) (length xs) ≡ some x.nsa_name
nth_name-append [] x = refl
nth_name-append (y ∷ xs) x = nth_name-append xs x

register_in-name :
    (xs : List NonStdAtt) (s : Text) (o : Option ℕ)
    → IsIndexed 0 xs
    → find_named xs s ≡ o
    → nth_name (register_in xs s o).1 (register_in xs s o).0 ≡ some s
unfolding register_in
register_in-name xs s none h p = unfold new_att in nth_name-append xs _
register_in-name xs s (some j) h p =
    let (i, e, n) = find_named-name 0 xs s h p in
    subst (λ m. nth_name xs m ≡ some s) (omega (arith, e)) n

-- In a well-formed list, the index that `registerNonStdAtt` returns is that of an object with the
-- given name, whether the object was there before or is appended.
pub register_nonstd_att-name :
    (s : Text) (st : State)
    → IsValid st
    → nth_name (atts_of (register_nonstd_att s st).1.nonstd) (register_nonstd_att s st).0 ≡ some s
unfolding register_nonstd_att
register_nonstd_att-name s st v = register_in-name (atts_of st.nonstd) s _ v.indexed refl
