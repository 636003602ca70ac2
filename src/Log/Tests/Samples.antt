-- ===== src/Log/Tests/Samples.antt =====
-- Two records, a log of them, and queries.
use evlog.Prelude.{
  ℕ, ◌==◌, Bool, true, false, none, some, List, [], ◌∷◌, ◌++◌, ◌≡◌, refl, codes, length, arith,
}
use evlog.Query.Tree.{val}
use evlog.Query.Create.{Query, validate_query, is_bad_purpose}
use evlog.Log.File.{Bytes, zeros}
use evlog.Log.Layout.{Rec, le_bytes, log_size, log_magic, log_bytes}
use evlog.LogManagement.Records.{has_record_magic}
use evlog.LogManagement.Rounds.{IsLogged}

-- A header with a record id, a size, a severity and a process id.
unfoldable pub sample_head : ℕ → ℕ → ℕ → ℕ → Bytes
unfolding le_bytes
sample_head recid size severity pid =
    le_bytes 4 0xfeefface
    ++ (le_bytes 4 recid
        ++ (le_bytes 8 size
            ++ (zeros 12 ++ (le_bytes 4 severity ++ (zeros 8 ++ (le_bytes 4 pid ++ zeros 44))))))

abbrev pub rec_a : Rec
rec_a = record { head = sample_head 1 2 3 5; body = codes "a" ++ 0 ∷ [] }

abbrev pub rec_b : Rec
rec_b = record { head = sample_head 2 0 6 20; body = [] }

pub rec_a-IsLogged : IsLogged rec_a
unfolding sample_head log_size log_magic has_record_magic
rec_a-IsLogged = record {
  is_rec = record { head_size = refl; sized = refl; fits = omega arith };
  magic = refl;
}

pub rec_b-IsLogged : IsLogged rec_b
unfolding sample_head log_size log_magic has_record_magic
rec_b-IsLogged = record {
  is_rec = record { head_size = refl; sized = refl; fits = omega arith };
  magic = refl;
}

abbrev pub recs : List Rec
recs = rec_a ∷ rec_b ∷ []

pub recs-size : length (log_bytes recs) ≡ 186
unfolding log_bytes sample_head
recs-size = refl

-- A query, and evaluations that go by the size of the data.
abbrev pub sample_query : Query
sample_query = record {
  qu_tree = val false 1;
  qu_nonstd_atts = none;
  qu_expr = some (codes "1");
  qu_purpose = 2;
}

pub sample_query-valid : validate_query (some sample_query) ≡ true
unfolding validate_query is_bad_purpose
sample_query-valid = refl

abbrev pub of_size : ℕ → Query → Bytes → Bytes → Bool
of_size n q head body = log_size head == n
