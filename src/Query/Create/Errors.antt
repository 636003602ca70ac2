-- ===== src/Query/Create/Errors.antt =====
-- user/lib/posix1.c: what `posix_log_query_create` leaves behind on every path, its messages, and
-- the query object in the hands of `posix_log_query_get` and `posix_log_query_destroy`.
use evlog.Prelude.{
  All, ℕ, zero, suc, ◌+◌, ◌≤◌, ◌<◌, Bool, true, false, ◌==◌, ltb, leb, if◌then◌else◌, Option, none,
  some, List, [], ◌∷◌, ◌++◌, ◌⊎◌, inl, inr, Text, length, length-append, take, drop, ◌≡◌, ◌≢◌, refl,
  sym, ap, ◌∙◌, Bool-cases, arith,
}
use mathlib.Core.Option.{map}
use mathlib.Core.Path.{subst}
use evlog.Query.Tree.{Pnode, NonStdAtts}
use evlog.Query.Normalize.Result.{Result, ok, err, NormEnv}
use evlog.Query.Normalize.Analysis.{State, normalize_tree}
use evlog.Query.Create.{
  Errno, einval, ebusy, emsgsize, Query, ParseEnv, Created, is_bad_purpose, is_null, is_null_tree,
  clear_message, initial_state, store_query, create_normalized, create_parsed, create_checked,
  query_create, failed, query_error, Got, validate_query, get_failed, get_into, expr_of, get_of,
  query_get, retire, query_destroy,
}

length-drop :
    {A : Type 0} (n : ℕ) (xs : List A) → n ≤ length xs → n + length (drop n xs) ≡ length xs
length-drop zero xs h = omega arith
length-drop (suc n) [] h = omega arith
length-drop (suc n) (x ∷ xs) h = ground (arith, length-drop n xs)

length-take : {A : Type 0} (n : ℕ) (xs : List A) → n ≤ length xs → length (take n xs) ≡ n
length-take zero xs h = refl
length-take (suc n) [] h = omega arith
length-take (suc n) (x ∷ xs) h = ground (arith, length-take n xs)

-- The bytes before the first terminator, the string that the caller reads.
abbrev pub c_string : List ℕ → Text
c_string [] = []
c_string (c ∷ s) = if c == 0 then [] else c ∷ c_string s

c_string-append : (s rest : List ℕ) → All (λ c. (c == 0) ≡ false) s → c_string (s ++ 0 ∷ rest) ≡ s
c_string-append [] rest h = refl
c_string-append (c ∷ s) rest h = rw (h.0, c_string-append s rest h.1)

All-take :
    (n : ℕ) (s : List ℕ) → All (λ c. (c == 0) ≡ false) s → All (λ c. (c == 0) ≡ false) (take n s)
All-take zero s h = tt
All-take (suc n) [] h = tt
All-take (suc n) (c ∷ s) h = (h.0, All-take n s h.1)

take-all : {A : Type 0} (n : ℕ) (xs : List A) → length xs ≤ n → take n xs ≡ xs
take-all zero [] h = refl
take-all zero (x ∷ xs) h = ground arith
take-all (suc n) [] h = refl
take-all (suc n) (x ∷ xs) h = ap (λ ys. x ∷ ys) (take-all n xs (omega arith))

query_error-length : (s : Text) (buf : List ℕ) → length (query_error s buf) ≡ length buf
unfolding query_error
query_error-length s [] = refl
query_error-length s (c ∷ buf) = elim (Bool-cases (leb (length s + 1) (length (c ∷ buf)))) [
  | inl p ↦ rw p (
      omega (
        arith,
        length-append s (0 ∷ drop (length s + 1) (c ∷ buf)),
        length-drop (length s + 1) (c ∷ buf) (ground arith),
      ))
  | inr p ↦ rw p (
      omega (
        arith,
        length-append (take (length buf) s) (0 ∷ []),
        length-take (length buf) s (ground arith),
      ))
]

-- In a buffer of at least one byte, `queryError` leaves as much of a message that contains no
-- terminator as fits before one, and the buffer keeps its size.
pub query_error-c_string :
    (s : Text) (c : ℕ) (buf : List ℕ)
    → All (λ d. (d == 0) ≡ false) s
    → (c_string (query_error s (c ∷ buf)) ≡ take (length buf) s)
      × (length (query_error s (c ∷ buf)) ≡ length (c ∷ buf))
unfolding query_error
query_error-c_string s c buf h = (
  elim (Bool-cases (leb (length s + 1) (length (c ∷ buf)))) [
    | inl p ↦ rw p (c_string-append s _ h ∙ sym (take-all (length buf) s (ground arith)))
    | inr p ↦ rw p (c_string-append (take (length buf) s) [] (All-take (length buf) s h))
  ],
  query_error-length s (c ∷ buf),
)

clear_message-length : (buf : List ℕ) → length (clear_message buf) ≡ length buf
unfolding clear_message
clear_message-length [] = refl
clear_message-length (c ∷ buf) = refl

-- The mutex is as before, the message buffer has its size, and either there is success and the
-- message buffer is untouched, or an error and the query object is.
abbrev pub Leaves : Bool → Option Query → List ℕ → Created → Type 0
Leaves busy query errbuf c =
    (c.locked ≡ busy)
    × (length c.errbuf ≡ length errbuf)
    × (((c.status ≡ none) × (c.errbuf ≡ errbuf)) ⊎ ((c.status ≢ none) × (c.query ≡ query)))

-- The same of every object that is left.
abbrev AlwaysLeaves : Bool → Option Query → List ℕ → Option Created → Type 0
AlwaysLeaves busy query errbuf none = Unit
AlwaysLeaves busy query errbuf (some c) = Leaves busy query errbuf c

failed-AlwaysLeaves :
    (busy : Bool) (query : Option Query) (errbuf : List ℕ) (e : Errno) (out : List ℕ)
    → length out ≡ length errbuf
    → AlwaysLeaves busy query errbuf (failed e query out busy)
unfolding failed
failed-AlwaysLeaves busy query errbuf e out h = (refl, h, inr (λ p. cc, refl))

module _ (parser : ParseEnv) (env : NormEnv) (purpose : ℕ) (query : Option Query)
    (errbuf : List ℕ) where
  stored-AlwaysLeaves :
      (s : Text) (o : Option (Pnode × Option NonStdAtts))
      → AlwaysLeaves false query errbuf (store_query s purpose errbuf o)
  unfolding store_query
  stored-AlwaysLeaves s none = tt
  stored-AlwaysLeaves s (some p) = (refl, refl, inl (refl, refl))

  normalized-AlwaysLeaves :
      (s : Text) (m : Result (Pnode × State))
      → AlwaysLeaves false query errbuf (create_normalized parser env s purpose query errbuf m)
  unfolding create_normalized
  normalized-AlwaysLeaves s (ok p) = stored-AlwaysLeaves s _
  normalized-AlwaysLeaves s (err e) =
      failed-AlwaysLeaves false query errbuf einval _ (query_error-length _ errbuf)

  parsed-AlwaysLeaves :
      (s : Text) (o : Text ⊎ Pnode)
      → AlwaysLeaves false query errbuf (create_parsed parser env s purpose query errbuf o)
  unfolding create_parsed
  parsed-AlwaysLeaves s (inl message) =
      failed-AlwaysLeaves false query errbuf einval _ (query_error-length message errbuf)
  parsed-AlwaysLeaves s (inr t) =
      normalized-AlwaysLeaves s (normalize_tree env t (initial_state purpose))

  checked-AlwaysLeaves :
      (busy : Bool) (query_string : Option Text) (o : Option Errno)
      → AlwaysLeaves busy query errbuf
          (create_checked parser env busy query_string purpose query errbuf o)
  unfolding create_checked
  checked-AlwaysLeaves busy query_string (some e) =
      failed-AlwaysLeaves busy query errbuf e _ (clear_message-length errbuf)
  checked-AlwaysLeaves busy none none = failed-AlwaysLeaves busy query errbuf einval errbuf refl
  checked-AlwaysLeaves true (some s) none = failed-AlwaysLeaves true query errbuf ebusy errbuf refl
  checked-AlwaysLeaves false (some s) none = parsed-AlwaysLeaves s (parser.qqparse s)

  query_create-AlwaysLeaves :
      (busy : Bool) (query_string : Option Text)
      → AlwaysLeaves busy query errbuf
          (query_create parser env busy query_string purpose query errbuf)
  unfolding query_create
  query_create-AlwaysLeaves busy query_string = checked-AlwaysLeaves busy query_string _

  -- On every path, `posix_log_query_create` leaves the mutex as it found it and the message buffer
  -- with its size. If it fails, the query object is untouched, and if it succeeds, the message
  -- buffer is.
  pub query_create-Leaves :
      (busy : Bool) (query_string : Option Text) (c : Created)
      → query_create parser env busy query_string purpose query errbuf ≡ some c
      → Leaves busy query errbuf c
  query_create-Leaves busy query_string c eq =
      subst (AlwaysLeaves busy query errbuf) eq (query_create-AlwaysLeaves busy query_string)

-- A query object that `posix_log_query_create` has filled.
pub record IsQuery (q : Query) (s : Text) (purpose : ℕ) : Type 0 where
  pub tree : is_null_tree q.qu_tree ≡ false
  pub expr : q.qu_expr ≡ some s
  pub has_purpose : q.qu_purpose ≡ purpose
  pub fine : is_bad_purpose purpose ≡ false

pub validate-IsQuery :
    {q : Query} {s : Text} {purpose : ℕ} → IsQuery q s purpose → validate_query (some q) ≡ true
unfolding validate_query is_null
validate-IsQuery h = rw (h.tree, h.expr, h.has_purpose, h.fine) refl

retired : (q : Query) → validate_query (some (record q { qu_purpose = 0 })) ≡ false
unfolding validate_query is_bad_purpose
retired q = ground arith

-- What `posix_log_query_get` says of the text and the purpose in a buffer.
abbrev pub Gives : Text → ℕ → List ℕ → Got → Type 0
Gives s purpose buf got =
    (got.reqlen ≡ some (length s + 1))
    × (((length s < length buf)
          × (got.status ≡ none)
          × (got.purpose ≡ some purpose)
          × (map c_string got.qsbuf ≡ some s))
        ⊎ ((length buf ≤ length s) × (got.status ≡ some emsgsize) × (got.qsbuf ≡ some buf)))

get_into-Gives :
    (s : Text) (purpose : ℕ) (buf : List ℕ)
    → All (λ c. (c == 0) ≡ false) s
    → Gives s purpose buf (get_into s purpose (some buf))
unfolding get_into get_failed
get_into-Gives s purpose buf nz = elim (Bool-cases (ltb (length buf) (length s + 1))) [
  | inl p ↦ rw p (refl, inr (ground arith, refl, refl))
  | inr p ↦ rw p (refl, inl (ground arith, refl, refl, ap some (c_string-append s _ nz)))
]

-- Of a valid query object with a text that contains no terminator, `posix_log_query_get` gives the
-- text and the purpose when the text and its terminator fit in the buffer, and otherwise says
-- EMSGSIZE and leaves the buffer. In both cases it gives the length that is needed.
pub query_get-Gives :
    (q : Query) (s : Text) (purpose : ℕ) (buf : List ℕ)
    → IsQuery q s purpose
    → All (λ c. (c == 0) ≡ false) s
    → Gives s purpose buf (query_get (some q) (some buf))
unfolding query_get get_of expr_of
query_get-Gives q s purpose buf h nz =
    rw (validate-IsQuery h, h.expr, h.has_purpose) (get_into-Gives s purpose buf nz)

-- `posix_log_query_destroy` accepts a valid query object once: afterwards it refuses the object
-- itself, and so does `posix_log_query_get`.
pub query_destroy-once :
    (q : Query) (s : Text) (purpose : ℕ) (buf : Option (List ℕ))
    → IsQuery q s purpose
    → ((query_destroy (some q)).0 ≡ none)
      × ((query_destroy (query_destroy (some q)).1).0 ≡ some einval)
      × ((query_get (query_destroy (some q)).1 buf).status ≡ some einval)
unfolding query_destroy retire query_get get_failed
query_destroy-once q s purpose buf h = rw (validate-IsQuery h, retired q) (refl, refl, refl)
