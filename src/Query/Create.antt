-- ===== src/Query/Create.antt =====
-- user/lib/posix1.c: `posix_log_query_create`, `posix_log_query_get` and `posix_log_query_destroy`;
-- user/lib/posix2.c: `_evlValidateQuery`.
pub mod Sound
pub mod Errors
pub mod RoundTrip
use evlog.Prelude.{
  ℕ, ◌+◌, ◌-◌, Bool, true, false, not, ◌&&◌, ◌||◌, ◌==◌, ltb, leb, if◌then◌else◌, Option, none,
  some, List, [], ◌∷◌, ◌++◌, ◌⊎◌, inl, inr, Text, length, take, drop, u32_mod,
}
use evlog.Query.Tree.{Pnode, null, NonStdAtts}
use evlog.Query.Compare.{shares_bit}
use evlog.Query.Optimize.Annotate.{optimize_tree}
use evlog.Query.Normalize.Result.{Result, ok, err, NormEnv, SemanticError}
use evlog.Query.Normalize.Analysis.{State, normalize_tree}

-- The errors that the functions return.
pub data Errno : Type 0 where
  einval enotsup ebusy emsgsize : Errno

-- `posix_log_query_t`; a NULL tree is `null`.
pub record Query : Type 0 where
  pub qu_tree : Pnode
  pub qu_nonstd_atts : Option NonStdAtts
  pub qu_expr : Option Text
  pub qu_purpose : ℕ

-- The parser that yacc makes of query.y, with its message for a syntax error, and the text that
-- `vsnprintf` makes of a semantic error.
pub record ParseEnv : Type 0 where
  pub qqparse : Text → Text ⊎ Pnode
  pub error_text : SemanticError → Text

-- What a call leaves: the error that it returns or none, the query object, the message buffer, and
-- whether `qParserMutex` is held.
pub record Created : Type 0 where
  pub status : Option Errno
  pub query : Option Query
  pub errbuf : List ℕ
  pub locked : Bool

abbrev pub prps_notify : ℕ
prps_notify = 1

abbrev pub prps_template : ℕ
prps_template = 4

abbrev pub prps_restricted : ℕ
prps_restricted = 8

-- `~POSIX_LOG_PRPS_MASK`
abbrev pub not_prps_mask : ℕ
not_prps_mask = u32_mod - 16

-- A purpose with no bit, or with one that is not defined.
unfoldable pub is_bad_purpose : ℕ → Bool
unfolding shares_bit
is_bad_purpose purpose = purpose == 0 || shares_bit purpose not_prps_mask

unfoldable pub is_null {ℓ} : {A : Type ℓ} → Option A → Bool
is_null none = true
is_null (some a) = false

-- The tests at the head of `posix_log_query_create`: a later assignment of `status` overwrites an
-- earlier one.
unfoldable pub argument_error : Option Text → Option Query → ℕ → Option Errno
unfolding is_bad_purpose is_null shares_bit
argument_error query_string query purpose =
    if shares_bit purpose prps_template && shares_bit purpose (prps_notify + prps_restricted)
    then some enotsup
    else if (is_null query_string || is_null query) || is_bad_purpose purpose
    then some einval
    else none

-- `errbuf[0] = '\0'`; a NULL buffer is one of no bytes.
unfoldable pub clear_message : List ℕ → List ℕ
clear_message [] = []
clear_message (c ∷ buf) = 0 ∷ buf

-- The message of `queryError`: `strcpy` when it fits, otherwise `strncpy` with a terminator on the
-- last byte.
unfoldable pub query_error : Text → List ℕ → List ℕ
query_error s [] = []
query_error s (c ∷ buf) =
    if leb (length s + 1) (length (c ∷ buf))
    then s ++ 0 ∷ drop (length s + 1) (c ∷ buf)
    else take (length buf) s ++ 0 ∷ []

unfoldable pub failed : Errno → Option Query → List ℕ → Bool → Option Created
failed e query errbuf locked =
    some (record { status = some e; query = query; errbuf = errbuf; locked = locked })

-- The end of `posix_log_query_create`.
unfoldable pub store_query : Text → ℕ → List ℕ → Option (Pnode × Option NonStdAtts) → Option Created
store_query s purpose errbuf none = none
store_query s purpose errbuf (some (tree, ns)) = some (record {
  status = none;
  query =
      some (record { qu_tree = tree; qu_nonstd_atts = ns; qu_expr = some s; qu_purpose = purpose });
  errbuf = errbuf;
  locked = false;
})

-- `_evlQFlags` and `_evlQNonStdAtts` at the start of the analysis.
unfoldable pub initial_state : ℕ → State
unfolding shares_bit
initial_state purpose = record {
  template_flag = shares_bit purpose prps_template;
  restricted_flag = shares_bit purpose prps_restricted;
  nonstd = none;
}

module _ (parser : ParseEnv) (env : NormEnv) where
  unfoldable pub create_normalized :
      Text → ℕ → Option Query → List ℕ → Result (Pnode × State) → Option Created
  unfolding store_query optimize_tree failed query_error
  create_normalized s purpose query errbuf (ok (tree, st)) =
      store_query s purpose errbuf (optimize_tree tree st.nonstd)
  create_normalized s purpose query errbuf (err e) =
      failed einval query (query_error (parser.error_text e) errbuf) false

  unfoldable pub create_parsed : Text → ℕ → Option Query → List ℕ → Text ⊎ Pnode → Option Created
  unfolding create_normalized normalize_tree initial_state failed query_error
  create_parsed s purpose query errbuf (inl message) =
      failed einval query (query_error message errbuf) false
  create_parsed s purpose query errbuf (inr tree) =
      create_normalized s purpose query errbuf (normalize_tree env tree (initial_state purpose))

  unfoldable pub create_checked :
      Bool → Option Text → ℕ → Option Query → List ℕ → Option Errno → Option Created
  unfolding failed clear_message create_parsed
  create_checked busy query_string purpose query errbuf (some e) =
      failed e query (clear_message errbuf) busy
  create_checked busy none purpose query errbuf none = failed einval query errbuf busy
  create_checked busy (some s) purpose query errbuf none =
      if busy
      then failed ebusy query errbuf true
      else create_parsed s purpose query errbuf (parser.qqparse s)

  -- `posix_log_query_create`. `busy` says that `tryLockQueryParser` finds the mutex held; a result
  -- `none` is a failed assertion of the optimiser. A NULL string never gets past the head.
  unfoldable pub query_create : Bool → Option Text → ℕ → Option Query → List ℕ → Option Created
  unfolding create_checked argument_error
  query_create busy query_string purpose query errbuf =
      create_checked busy query_string purpose query errbuf
        (argument_error query_string query purpose)

unfoldable pub is_null_tree : Pnode → Bool
is_null_tree null = true
is_null_tree t = false

-- `_evlValidateQuery(query, 0) == 0`
unfoldable pub validate_query : Option Query → Bool
unfolding is_null_tree is_null is_bad_purpose
validate_query none = false
validate_query (some q) =
    not (is_null_tree q.qu_tree || is_null q.qu_expr || is_bad_purpose q.qu_purpose)

-- What `posix_log_query_get` returns and writes; `none` is a pointer it does not write to.
pub record Got : Type 0 where
  pub status : Option Errno
  pub purpose : Option ℕ
  pub qsbuf : Option (List ℕ)
  pub reqlen : Option ℕ

unfoldable pub get_failed : Errno → Option (List ℕ) → Option ℕ → Got
get_failed e qsbuf reqlen = record {
  status = some e;
  purpose = none;
  qsbuf = qsbuf;
  reqlen = reqlen;
}

unfoldable pub get_into : Text → ℕ → Option (List ℕ) → Got
unfolding get_failed
get_into s purpose none = get_failed einval none (some (length s + 1))
get_into s purpose (some buf) =
    if ltb (length buf) (length s + 1)
    then get_failed emsgsize (some buf) (some (length s + 1))
    else record {
      status = none;
      purpose = some purpose;
      qsbuf = some (s ++ 0 ∷ drop (length s + 1) buf);
      reqlen = some (length s + 1);
    }

unfoldable pub expr_of : Option Text → Text
expr_of none = []
expr_of (some s) = s

unfoldable pub get_of : Option Query → Option (List ℕ) → Got
unfolding get_failed get_into expr_of
get_of none qsbuf = get_failed einval qsbuf none
get_of (some q) qsbuf = get_into (expr_of q.qu_expr) q.qu_purpose qsbuf

-- `posix_log_query_get`, with pointers for the purpose and the length, and a buffer of `qslen`
-- bytes or none.
unfoldable pub query_get : Option Query → Option (List ℕ) → Got
unfolding validate_query get_failed get_of
query_get query qsbuf =
    if validate_query query then get_of query qsbuf else get_failed einval qsbuf none

unfoldable pub retire : Option Query → Option Query
retire none = none
retire (some q) = some (record q { qu_purpose = 0 })

-- `posix_log_query_destroy`: the pointers stay, to memory that is free, and the purpose is 0.
unfoldable pub query_destroy : Option Query → Option Errno × Option Query
unfolding validate_query retire
query_destroy query = if validate_query query then (none, retire query) else (some einval, query)
