-- ===== src/Query/Screen/Refs.antt =====
-- user/lib/query/evaluate.c: the pointers that screening leaves, and the attributes that they lead
-- to once the template is populated.
use mathlib.Core.List.{append_assoc}
use evlog.Prelude.{
  All, ℕ, zero, suc, true, false, if◌then◌else◌, Option, none, some, List, [], ◌∷◌, ◌++◌, map,
  length, length-append, get_elem?, set, ◌≡◌, refl, sym, ap, ap₂, ◌∙◌, arith, Bool-cases, inl, inr,
}
use evlog.Query.Tree.{NonStdAtt}
use evlog.Query.Attribute.{Attribute, TmplAtts, existing}
use evlog.Query.Screen.{
  Template, AttRef, null_ref, clone_ref, master_ref, Screening, lookup_att, is_usable, make_ref,
  screen_att, screen_atts, is_null_ref, blank_refs, populated_ref, no_refs, init_screening,
}

-- The attribute of the populated template that a query's attribute stands for: none if the
-- template has no such attribute, or one that the query's numbers cannot be compared with.
unfoldable pub usable_att : Template → NonStdAtt → Option Attribute → Option Attribute
unfolding is_usable
usable_att t nsa none = none
usable_att t nsa (some att) = if is_usable nsa att then t.populated_att nsa.nsa_name else none

unfoldable pub resolve : Template → NonStdAtt → Option Attribute
unfolding usable_att lookup_att
resolve t nsa = usable_att t nsa (lookup_att t nsa)

-- The attributes with no short cut taken.
unfoldable pub reference_atts : Option Template → List NonStdAtt → TmplAtts
unfolding resolve
reference_atts none nsas = none
reference_atts (some t) nsas = some (map (resolve t) nsas)

-- The indices count up, from `k`.
abbrev pub IsIndexed : ℕ → List NonStdAtt → Type 0
IsIndexed k [] = Unit
IsIndexed k (nsa ∷ nsas) = (nsa.nsa_att ≡ k) × IsIndexed (suc k) nsas

ref_for : NonStdAtt → Option Attribute → AttRef
ref_for nsa none = null_ref
ref_for nsa (some att) = if is_usable nsa att then make_ref nsa att else null_ref

pub ref_of : Template → NonStdAtt → AttRef
ref_of t nsa = ref_for nsa (lookup_att t nsa)

set-append_length {ℓ} :
    {A : Type ℓ} (xs ys : List A) (x v : A) → set (xs ++ x ∷ ys) (length xs) v ≡ xs ++ v ∷ ys
set-append_length [] ys x v = refl
set-append_length (y ∷ xs) ys x v = ap (λ l. y ∷ l) (set-append_length xs ys x v)

refs-screen_att :
    (nsa : NonStdAtt) (o : Option Attribute) (s : Screening)
    → (screen_att nsa o s).refs ≡ set s.refs nsa.nsa_att (ref_for nsa o)
unfolding screen_att ref_for
refs-screen_att nsa none s = refl
refs-screen_att nsa (some att) s = ground arith

length-snoc {ℓ} : {A : Type ℓ} (xs : List A) (x : A) → length (xs ++ x ∷ []) ≡ suc (length xs)
length-snoc xs x = omega (arith, length-append xs (x ∷ []))

refs-screen_atts_from :
    (t : Template) (nsas : List NonStdAtt) (s : Screening) (done : List AttRef)
    → s.refs ≡ done ++ blank_refs nsas
    → IsIndexed (length done) nsas
    → (screen_atts t nsas s).refs ≡ done ++ map (ref_of t) nsas
unfolding screen_atts blank_refs ref_of
refs-screen_atts_from t [] s done e h = e
refs-screen_atts_from t (nsa ∷ nsas) s done e h =
    refs-screen_atts_from t nsas (screen_att nsa (lookup_att t nsa) s) (done ++ ref_of t nsa ∷ [])
      (refs-screen_att nsa (lookup_att t nsa) s
        ∙ ap₂ (λ (xs : List AttRef) (i : ℕ). set xs i (ref_of t nsa)) e h.0
        ∙ set-append_length done (blank_refs nsas) null_ref (ref_of t nsa)
        ∙ sym (append_assoc done (ref_of t nsa ∷ []) (blank_refs nsas)))
      (rw (length-snoc done (ref_of t nsa)) h.1)
    ∙ append_assoc done (ref_of t nsa ∷ []) (map (ref_of t) nsas)

-- Screening leaves the pointer of each attribute at its index.
pub refs-screen_atts :
    (t : Template) (nsas : List NonStdAtt)
    → IsIndexed 0 nsas
    → (screen_atts t nsas (init_screening nsas)).refs ≡ map (ref_of t) nsas
unfolding init_screening
refs-screen_atts t nsas h = refs-screen_atts_from t nsas (init_screening nsas) [] refl h

populated_ref_for :
    (t : Template) (nsa : NonStdAtt) (o : Option Attribute)
    → populated_ref t (ref_for nsa o) ≡ usable_att t nsa o
unfolding populated_ref ref_for usable_att make_ref
populated_ref_for t nsa none = refl
populated_ref_for t nsa (some att) = ground arith

-- Behind the pointers, once the template is populated, are the attributes meant by the query.
pub populated-refs :
    (t : Template) (nsas : List NonStdAtt)
    → map (populated_ref t) (map (ref_of t) nsas) ≡ map (resolve t) nsas
unfolding ref_of resolve
populated-refs t [] = refl
populated-refs t (nsa ∷ nsas) =
    ap₂ ◌∷◌ (populated_ref_for t nsa (lookup_att t nsa)) (populated-refs t nsas)

pub existing-null :
    (t : Template) (refs : List AttRef) (i : ℕ)
    → is_null_ref (get_elem? refs i) ≡ true
    → existing (get_elem? (map (populated_ref t) refs) i) ≡ none
unfolding is_null_ref existing populated_ref
existing-null t [] i h = refl
existing-null t (null_ref ∷ refs) zero h = refl
existing-null t (clone_ref n ∷ refs) zero h = cc
existing-null t (master_ref n a ∷ refs) zero h = cc
existing-null t (r ∷ refs) (suc i) h = existing-null t refs i h

abbrev pub IsNull : AttRef → Type 0
IsNull r = r ≡ null_ref

pub null-refs :
    (t : Template) (refs : List AttRef)
    → All IsNull refs
    → map (populated_ref t) refs ≡ no_refs refs
unfolding populated_ref no_refs
null-refs t [] h = refl
null-refs t (r ∷ refs) h = ap₂ ◌∷◌ (rw h.0) (null-refs t refs h.1)

pub existing-no_refs : (refs : List AttRef) (i : ℕ) → existing (get_elem? (no_refs refs) i) ≡ none
unfolding no_refs existing
existing-no_refs [] i = refl
existing-no_refs (r ∷ refs) zero = refl
existing-no_refs (r ∷ refs) (suc i) = existing-no_refs refs i

-- The flag for a valid attribute is only ever set.
valid-screen_att :
    (nsa : NonStdAtt) (o : Option Attribute) (s : Screening)
    → (screen_att nsa o s).any_valid_atts ≡ false
    → (s.any_valid_atts ≡ false) × (ref_for nsa o ≡ null_ref)
unfolding screen_att ref_for
valid-screen_att nsa none s h = (h, refl)
valid-screen_att nsa (some att) s h = elim (Bool-cases (is_usable nsa att)) [
  | inl p ↦ (let h' = rw p at h in cc)
  | inr p ↦ (rw p at h, rw p)
]

pub valid-screen_atts :
    (t : Template) (nsas : List NonStdAtt) (s : Screening)
    → (screen_atts t nsas s).any_valid_atts ≡ false
    → (s.any_valid_atts ≡ false) × All IsNull (map (ref_of t) nsas)
unfolding screen_atts ref_of
valid-screen_atts t [] s h = (h, tt)
valid-screen_atts t (nsa ∷ nsas) s h =
    let (v, ns) = valid-screen_atts t nsas (screen_att nsa (lookup_att t nsa) s) h in
    let (v', n) = valid-screen_att nsa (lookup_att t nsa) s v in (v', (n, ns))
