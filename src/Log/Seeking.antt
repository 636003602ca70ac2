-- ===== src/Log/Seeking.antt =====
-- user/lib/posix1.c: the searches of `posix_log_seek` with a query, on a log of whole records.
use evlog.Prelude.{ℕ, ◌≡◌, sym, ap, ◌∙◌, Bool, Option, some, List, [], ◌∷◌, ◌++◌, length, All}
use mathlib.Core.Path.{subst}
use mathlib.Core.List.{append-nil}
use evlog.Query.Create.{Query}
use evlog.Log.File.{Bytes, File, Status, success, enoent}
use evlog.Log.Layout.{Rec, log_bytes, past_bytes, log_generation}
use evlog.Log.Seek.{Selection}
use evlog.Log.Descriptor.{LogDesc, logd_magic}
use evlog.Log.Api.{Direction, seek_first, seek_last, seek_forward, seek_backward, seek_file}
use evlog.Log.Cursor.{At, pass}
use evlog.Log.Forward.{Selects, Rejects, seek_fwd-finds, seek_fwd-exhausts}
use evlog.Log.Backward.{seek_bkwd-finds, seek_bkwd-exhausts}
use evlog.Log.Whole.{pass-pass, pass-append, At-first, At-last, evl_rewind-At, evl_seek_end-At}

-- An open descriptor of the log's generation, with the read pointer between two records.
pub record IsOpen (header : Bytes) (past future : List Rec) (d : LogDesc) : Type 0 where
  pub magic : d.ld_magic ≡ logd_magic
  pub generation : d.ld_generation ≡ log_generation d.ld_file.contents
  pub cursor : At header past future d.ld_file

-- The directions of a search, and the records in the order in which a search meets them.
pub data Search : Direction → Type 0 where
  first : Search seek_first
  last : Search seek_last
  forward : Search seek_forward
  backward : Search seek_backward

abbrev pub met : {direction : Direction} → Search direction → List Rec → List Rec → List Rec
met first past future = pass past future
met last past future = pass future past
met forward past future = future
met backward past future = past

-- Where a search that finds nothing leaves the read pointer.
abbrev pub left_at : {direction : Direction} → Search direction → File → ℕ
left_at first f = 40
left_at last f = length f.contents
left_at forward f = f.pos
left_at backward f = f.pos

-- What a search leaves that stops at the record `r` of the log of `past` and `future`.
pub record Found (header : Bytes) (past future : List Rec) (r : Rec) (o : Option (Status × File))
    : Type 0 where
  pub file : File
  pub before : List Rec
  pub after : List Rec
  pub outcome : o ≡ some (success, file)
  pub cursor : At header before (r ∷ after) file
  pub same : pass before (r ∷ after) ≡ pass past future

-- The same log has the same bytes.
pub At-contents :
    {header : Bytes} {past future past' future' : List Rec} {f f' : File}
    → At header past future f
    → At header past' future' f'
    → pass past' future' ≡ pass past future
    → f'.contents ≡ f.contents
unfolding past_bytes
At-contents {header} a a' e =
    (At-first a').whole ∙ ap (λ t. (header ++ []) ++ log_bytes t) e ∙ sym (At-first a).whole

abbrev pub by_query : (Query → Bytes → Bytes → Bool) → Query → Selection
by_query evaluate q = some (evaluate q)

module _ (evaluate : Query → Bytes → Bytes → Bool) (q : Query) (memory : Bytes)
    {header : Bytes} where
  pub seek_file-Found :
      {direction : Direction} (s : Search direction) (skipped rest past future : List Rec) (r : Rec)
      (f : File)
      → At header past future f
      → met s past future ≡ skipped ++ r ∷ rest
      → All (Rejects (by_query evaluate q)) skipped
      → Selects (by_query evaluate q) r
      → Found header past future r (seek_file evaluate memory (some q) direction f)
  unfolding seek_file
  seek_file-Found first skipped rest past future r f a meets rejected match =
      let (f', finds, there) =
        seek_fwd-finds (by_query evaluate q) memory skipped r
          (subst (λ t. At header [] t (record f { pos = 40 })) meets (At-first a)) rejected match in
      record {
        file = f';
        before = pass skipped [];
        after = rest;
        outcome = rw (evl_rewind-At a) finds;
        cursor = there;
        same = pass-pass skipped [] (r ∷ rest) ∙ sym meets;
      }
  seek_file-Found last skipped rest past future r f a meets rejected match =
      let (f', finds, there) =
        seek_bkwd-finds (by_query evaluate q) memory skipped r
          (subst (λ t. At header t [] (record f { pos = length f.contents })) meets (At-last a))
          rejected match in
      record {
        file = f';
        before = rest;
        after = pass skipped [];
        outcome = rw (evl_seek_end-At a) finds;
        cursor = there;
        same =
            sym (pass-append skipped (r ∷ rest) [])
            ∙ ap (λ t. pass t []) (sym meets)
            ∙ pass-pass future past []
            ∙ ap (λ t. pass past t) (append-nil future);
      }
  seek_file-Found forward skipped rest past future r f a meets rejected match =
      let (f', finds, there) =
        seek_fwd-finds (by_query evaluate q) memory skipped r
          (subst (λ t. At header past t f) meets a) rejected match in
      record {
        file = f';
        before = pass skipped past;
        after = rest;
        outcome = finds;
        cursor = there;
        same = pass-pass skipped past (r ∷ rest) ∙ ap (λ t. pass past t) (sym meets);
      }
  seek_file-Found backward skipped rest past future r f a meets rejected match =
      let (f', finds, there) =
        seek_bkwd-finds (by_query evaluate q) memory skipped r
          (subst (λ t. At header t future f) meets a) rejected match in
      record {
        file = f';
        before = rest;
        after = pass skipped future;
        outcome = finds;
        cursor = there;
        same = sym (pass-append skipped (r ∷ rest) future) ∙ ap (λ t. pass t future) (sym meets);
      }

  pub seek_file-exhausts :
      {direction : Direction} (s : Search direction) (past future : List Rec) (f : File)
      → At header past future f
      → All (Rejects (by_query evaluate q)) (met s past future)
      → seek_file evaluate memory (some q) direction f
        ≡ some (enoent, record f { pos = left_at s f })
  unfolding seek_file
  seek_file-exhausts first past future f a rejected =
      rw (evl_rewind-At a) (seek_fwd-exhausts (by_query evaluate q) memory (At-first a) rejected)
  seek_file-exhausts last past future f a rejected =
      rw (evl_seek_end-At a) (seek_bkwd-exhausts (by_query evaluate q) memory (At-last a) rejected)
  seek_file-exhausts forward past future f a rejected =
      seek_fwd-exhausts (by_query evaluate q) memory a rejected
  seek_file-exhausts backward past future f a rejected =
      seek_bkwd-exhausts (by_query evaluate q) memory a rejected
