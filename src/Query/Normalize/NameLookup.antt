-- ===== src/Query/Normalize/NameLookup.antt =====
-- user/lib/posix_evlsup.c: names that are looked up whatever their case (`_evlGetValueByCIName`).
use evlog.Prelude.{ℕ, true, ◌==◌, [], ◌∷◌, Text, toupper, ◌≡◌, refl, arith}
use evlog.Query.Normalize.Names.{NvPairs, ci_text_eq, get_value_by_ci_name}

same_head : (n c d : ℕ) → (c == d) ≡ true → (n == c) ≡ (n == d)
same_head n c d h = ground arith

ci_text_eq-right : (n s t : Text) → ci_text_eq s t ≡ true → ci_text_eq n s ≡ ci_text_eq n t
unfolding ci_text_eq
ci_text_eq-right [] [] [] h = refl
ci_text_eq-right (x ∷ n) [] [] h = refl
ci_text_eq-right n [] (d ∷ t) h = cc
ci_text_eq-right n (c ∷ s) [] h = cc
ci_text_eq-right [] (c ∷ s) (d ∷ t) h = refl
ci_text_eq-right (x ∷ n) (c ∷ s) (d ∷ t) h =
    rw
      (
        same_head (toupper x) (toupper c) (toupper d) (ground arith),
        ci_text_eq-right n s t (ground arith),
      )
      refl

-- Two spellings that `_evlCIStrcmp` takes for the same have the same value, or none, in every
-- table.
pub get_value_by_ci_name-case :
    {V : Type 0} (table : NvPairs V) (s t : Text)
    → ci_text_eq s t ≡ true
    → get_value_by_ci_name table s ≡ get_value_by_ci_name table t
unfolding get_value_by_ci_name
get_value_by_ci_name-case [] s t h = refl
get_value_by_ci_name-case ((n, v) ∷ table) s t h =
    rw (ci_text_eq-right n s t h, get_value_by_ci_name-case table s t h) refl
