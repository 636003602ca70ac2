-- ===== src/Query/Create/RoundTrip.antt =====
-- user/lib/posix1.c: a query that is created and read back.
use evlog.Prelude.{All, ℕ, false, none, some, List, ◌==◌, inr, Text, ◌≡◌, refl}
use evlog.Query.Tree.{Pnode}
use evlog.Query.Evaluate.{EvalEnv}
use evlog.Query.Normalize.Result.{ok, NormEnv}
use evlog.Query.Normalize.Analysis.{State, normalize_tree}
use evlog.Query.Normalize.Normalized.{IsParsed, AvoidsHostName}
use evlog.Query.Create.{
  Query, ParseEnv, Created, argument_error, initial_state, query_create, query_get,
}
use evlog.Query.Create.Sound.{fine_purpose, query_create-Stored}
use evlog.Query.Create.Errors.{Gives, query_get-Gives}

module _ (parser : ParseEnv) (env : NormEnv) (eval : EvalEnv) where
  -- When the parser accepts a text that contains no terminator, with a tree of the grammar that
  -- does not compare the host by `contains` with a bare name, and the analysis accepts the tree,
  -- `posix_log_query_create` succeeds, and of what it stores `posix_log_query_get` gives back the
  -- text and the purpose, or says EMSGSIZE if the buffer is too short.
  pub query_get-query_create :
      (s : Text) (purpose : ℕ) (query : Query) (errbuf buf : List ℕ) (t : Pnode) (p : Pnode × State)
      → argument_error (some s) (some query) purpose ≡ none
      → parser.qqparse s ≡ inr t
      → IsParsed t
      → AvoidsHostName t
      → normalize_tree env t (initial_state purpose) ≡ ok p
      → All (λ c. (c == 0) ≡ false) s
      → (c : Created) × (query_create parser env false (some s) purpose (some query) errbuf
          ≡ some c)
        × Gives s purpose buf (query_get c.query (some buf))
  query_get-query_create s purpose query errbuf buf t p args parsed h avoid norm nz =
      let (q, eq, tree, means) =
        query_create-Stored parser env eval s purpose query errbuf t p args parsed h avoid norm in
      (
        _,
        eq,
        query_get-Gives _ s purpose buf
            (record {
              tree = tree;
              expr = refl;
              has_purpose = refl;
              fine = fine_purpose s query purpose args;
            })
            nz,
      )
