-- ===== src/LogManagement/Maintained.antt =====
-- user/cmd/evlogmgr/evl_logmgmt.c: the log that `evl_compact_log` leaves, and the descriptors that
-- were open before (user/lib/posix2.c).
use evlog.Prelude.{
  ℕ, ◌^◌, ◌<◌, ◌≡◌, ◌≢◌, sym, ap, ◌∙◌, Bool, true, false, ◌||◌, ◌==◌, Option, none, some, List, [],
  ◌++◌, All, Text, Bool-cases, inl, inr, arith, ==_ne,
}
use mathlib.Core.List.{append-nil}
use evlog.Query.Create.{Query, Created}
use evlog.Log.File.{Bytes, File, success, ebadf, is_success}
use evlog.Log.Layout.{Rec, log_bytes, log_generation}
use evlog.Log.Descriptor.{LogDesc, logd_magic, validate_logdes, log_read, refused}
use evlog.Log.Api.{Direction, log_seek}
use evlog.LogManagement.Records.{gen_even, gen_odd, new_generation, with_generation}
use evlog.LogManagement.Compact.{Run}
use evlog.LogManagement.Rounds.{IsLogged}
use evlog.LogManagement.Kept.{Compacts, kept, deleted}
use evlog.LogManagement.Compacted.{compact_log-Compacts}
use evlog.LogManagement.Generation.{
  IsHeader, set_generation_number-Renumbered, with_generation-IsHeader,
  log_generation-with_generation, new_generation-lt,
}
use evlog.LogManagement.Maintenance.{
  Request, Maintained, evl_compact_log, compact_with, compact_announced, compact_opened,
  compact_odd, compacted, even_end, start_at,
}

-- The header that a compaction writes at first, and at its end.
abbrev pub odd_header : Bytes → Bytes
odd_header header = with_generation (new_generation gen_odd (log_generation header)) header

abbrev pub even_header : Bytes → Bytes
even_header header =
    with_generation (new_generation gen_even (log_generation (odd_header header)))
      (odd_header header)

module _ (evaluate : Query → Bytes → Bytes → Bool) where
  -- The result of a compaction that succeeds.
  pub record Succeeds (header : Bytes) (rs : List Rec) (query : Query) (message : Text)
      (o : Option Maintained) : Type 0 where
    pub file : File
    pub outcome :
        o
        ≡ some (record {
          status = success;
          file = some file;
          num_delrec = deleted (evaluate query) message rs;
        })
    pub contents_lem :
        file.contents ≡ even_header header ++ log_bytes (kept (evaluate query) message rs)

  compacted-Succeeds :
      (header : Bytes) (rs : List Rec) (query : Query) (message : Text) (run : Run)
      → IsHeader header
      → Compacts
          (evaluate query)
          message
          (odd_header header ++ log_bytes (kept (evaluate query) message rs))
          (deleted (evaluate query) message rs)
          run
      → Succeeds header rs query message (compacted run)
  unfolding compacted even_end is_success
  compacted-Succeeds header rs query message run v c =
      let lt = new_generation-lt gen_odd (log_generation header) v.word in
      let renumbered =
        set_generation_number-Renumbered gen_even (odd_header header)
          (log_bytes (kept (evaluate query) message rs)) c.final.file
          (with_generation-IsHeader _ header v lt) c.contents_lem in
      record {
        file = renumbered.file;
        outcome = rw (c.outcome, renumbered.outcome, c.counted);
        contents_lem = renumbered.contents_lem;
      }

  -- `evl_compact_log` with a query, on a log of whole records, when the message at its start is
  -- logged, the file can be opened, and there is a backup or the compaction is forced: it succeeds.
  -- The records that match the query are gone, but for that message, the others are as they were
  -- and in their order, and the header differs in its generation number alone.
  pub evl_compact_log-Succeeds :
      (header : Bytes) (rs : List Rec) (created : Created) (query : Query) (q : Request) (f : File)
      → created.status ≡ none
      → created.query ≡ some query
      → q.announced ≡ success
      → q.opened ≡ some f
      → (q.backed_up || q.force_compact) ≡ true
      → f.contents ≡ header ++ log_bytes rs
      → IsHeader header
      → All IsLogged rs
      → Succeeds header rs query q.message (evl_compact_log evaluate (some created) q)
  unfolding evl_compact_log compact_with compact_announced compact_opened compact_odd start_at
      is_success
  evl_compact_log-Succeeds header rs created query q f fine has_query announced opened may whole v
        logged =
      let renumbered = set_generation_number-Renumbered gen_odd header (log_bytes rs) f v whole in
      let lt = new_generation-lt gen_odd (log_generation header) v.word in
      rw (fine, has_query, announced, opened, may, renumbered.outcome)
        (compacted-Succeeds header rs query q.message _ v (
          compact_log-Compacts (evaluate query) q.message (odd_header header) rs
            (start_at renumbered.file) renumbered.contents_lem
            (with_generation-IsHeader _ header v lt).size logged))

-- An even number that is not the one before the compaction.
new_generation-differs :
    (g : ℕ) → g < 2 ^ 32 → new_generation gen_even (new_generation gen_odd g) ≢ g
unfolding new_generation
new_generation-differs g h = λ e. ground arith

-- The generation changes, so a descriptor of the old one is refused.
even_header-changes :
    (header rest : Bytes)
    → IsHeader header
    → log_generation (even_header header ++ rest) ≢ log_generation header
even_header-changes header rest v same =
    let g = log_generation header in
    let lt = new_generation-lt gen_odd g v.word in
    let odd : log_generation (odd_header header) ≡ new_generation gen_odd g =
      ap log_generation (sym (append-nil (odd_header header)))
      ∙ log_generation-with_generation _ header v [] lt in
    let even : log_generation (even_header header ++ rest)
        ≡ new_generation gen_even (new_generation gen_odd g) =
      log_generation-with_generation _ (odd_header header) (with_generation-IsHeader _ header v lt)
        rest (new_generation-lt gen_even _ (omega (arith, odd, lt)))
      ∙ ap (new_generation gen_even) odd in
    new_generation-differs g v.word (sym even ∙ same)

stale-invalid :
    (header rest : Bytes) (d : LogDesc)
    → IsHeader header
    → d.ld_generation ≡ log_generation header
    → d.ld_file.contents ≡ even_header header ++ rest
    → validate_logdes (some d) true ≡ false
unfolding validate_logdes
stale-invalid header rest d v generation whole =
    let differs = even_header-changes header rest v in
    let e : (log_generation header == log_generation (even_header header ++ rest)) ≡ false =
      ==_ne _ _ (λ same. differs (sym same)) in
    elim (Bool-cases (d.ld_magic == logd_magic)) [
      | inl m ↦ rw (m, generation, whole) e
      | inr m ↦ rw m
    ]

module _ (evaluate : Query → Bytes → Bytes → Bool) where
  -- After a compaction that succeeds, a log descriptor that was open before it is refused:
  -- `posix_log_read` and `posix_log_seek` say EBADF, and move nothing.
  pub stale-refused :
      (header : Bytes) (rs : List Rec) (created : Created) (query : Query) (q : Request)
      (s : Succeeds evaluate header rs query q.message (evl_compact_log evaluate (some created) q))
      (d : LogDesc) (wants : Bool) (buf : Option ℕ) (memory : Bytes) (search : Option Query)
      (direction : Direction)
      → IsHeader header
      → d.ld_generation ≡ log_generation header
      → d.ld_file.contents ≡ s.file.contents
      → (log_read (some d) wants buf
          ≡ record { status = ebadf; entry = []; var_data = []; desc = some d })
        × (log_seek evaluate memory (some d) search direction ≡ some (ebadf, some d))
  unfolding log_read log_seek refused
  stale-refused header rs created query q s d wants buf memory search direction v generation whole =
      let e =
        stale-invalid header (log_bytes (kept (evaluate query) q.message rs)) d v generation
          (whole ∙ s.contents_lem) in
      (rw e, rw e)
