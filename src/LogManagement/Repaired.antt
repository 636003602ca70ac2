-- ===== src/LogManagement/Repaired.antt =====
-- user/cmd/evlogmgr/evl_logmgmt.c: what `repairLog` makes of a log with one corrupted block.
use evlog.Prelude.{
  ℕ, zero, suc, ◌+◌, ◌-◌, ◌<◌, ◌≡◌, refl, sym, ap, ◌∙◌, true, false, ◌==◌, ==_ne, ltb, lt→ltb, none,
  List, [], ◌∷◌, ◌++◌, length, length-append, All, arith,
}
use mathlib.Core.List.{append_assoc}
use evlog.Log.File.{Bytes, File, off_mod}
use evlog.Log.Layout.{Rec, rec_bytes, log_bytes}
use evlog.Log.Reading.{Holds}
use evlog.Log.Cursor.{room, length-rec_bytes-IsRec}
use evlog.LogManagement.Records.{validate_rec}
use evlog.LogManagement.Rounds.{IsLogged}
use evlog.LogManagement.Repair.{
  Repair, good_record, search_for_next_good_record, again, resume, checked, repair_loop, repair_log,
}
use evlog.LogManagement.Validated.{validate_rec-record}
use evlog.LogManagement.Resync.{Repairs, Repairs-eq, move_loop}

-- The file in the course of the outer loop: the records that are validated, then the corrupted
-- block, then the records behind it.
record Checking (first : Bytes) (good : List Rec) (block : Bytes) (rest : List Rec) (r : Repair)
    : Type 0 where
  whole : r.file.contents ≡ first ++ (log_bytes good ++ (block ++ log_bytes rest))
  place : r.offset ≡ length first
  remaining : r.bytes_to_process + r.offset ≡ length r.file.contents
  started : 0 < length first
  good_logged : All IsLogged good
  logged : All IsLogged rest
  blocked : 0 < length block
  small : length r.file.contents < off_mod

abbrev next_state : Rec → Repair → Repair
next_state q r = record r {
  offset = r.offset + room q;
  bytes_to_process = r.bytes_to_process + r.offset - (r.offset + room q);
}

Checking-Holds :
    {first block : Bytes} {good rest : List Rec} {r : Repair} (q : Rec)
    → Checking first (q ∷ good) block rest r
    → Holds first
        (rec_bytes q)
        (log_bytes good ++ (block ++ log_bytes rest))
        (record r.file { pos = r.offset })
unfolding log_bytes
Checking-Holds {first} {block} {good} {rest} q m = record {
  whole =
      m.whole
      ∙ ap (λ t. first ++ t)
          (append_assoc (rec_bytes q) (log_bytes good) (block ++ log_bytes rest));
  place = m.place;
}

Checking-within :
    {first block : Bytes} {good rest : List Rec} {r : Repair}
    → Checking first good block rest r
    → r.offset + length (log_bytes good) < length r.file.contents
Checking-within {first} {block} {good} {rest} m = omega (
  arith,
  m.place,
  ap length m.whole,
  m.blocked,
  length-append first (log_bytes good ++ (block ++ log_bytes rest)),
  length-append (log_bytes good) (block ++ log_bytes rest),
  length-append block (log_bytes rest),
)

Checking-next :
    {first block : Bytes} {good rest : List Rec} {r : Repair} (q : Rec)
    → Checking first (q ∷ good) block rest r
    → Checking (first ++ rec_bytes q) good block rest (next_state q r)
Checking-next {first} {block} {good} {rest} q m =
    let h = Checking-Holds q m in
    let size = length-rec_bytes-IsRec q m.good_logged.0.is_rec in
    let within = Checking-within m in
    record {
      whole =
          h.whole
          ∙ sym (append_assoc first (rec_bytes q) (log_bytes good ++ (block ++ log_bytes rest)));
      place = omega (arith, m.place, size, length-append first (rec_bytes q));
      remaining =
          unfold log_bytes in
          omega (arith, m.remaining, within, size, length-append (rec_bytes q) (log_bytes good));
      started = omega (arith, m.started, length-append first (rec_bytes q));
      good_logged = m.good_logged.1;
      logged = m.logged;
      blocked = m.blocked;
      small = m.small;
    }

-- The block is not a record, and the search finds the record behind it.
pub record Corrupted (place size : ℕ) (f : File) : Type 0 where
  pub refused : validate_rec place f ≡ none
  pub resync : search_for_next_good_record place f ≡ good_record (place + size)

check_loop :
    (fuel st_size : ℕ) (good : List Rec) (first block : Bytes) (rest : List Rec) (r : Repair)
    → length good + (length rest + 1) < fuel
    → Checking first good block rest r
    → (place : ℕ) → place ≡ r.offset + length (log_bytes good)
    → Corrupted place (length block) r.file
    → Repairs (first ++ (log_bytes good ++ log_bytes rest)) true (repair_loop fuel st_size false r)
unfolding repair_loop checked resume
check_loop zero st_size good first block rest r enough m place there c = absurd (omega arith)
check_loop (suc fuel) st_size [] first block rest r enough m place there c =
    let e : place ≡ r.offset = unfold log_bytes in omega (arith, there) in
    let more : ltb 0 r.bytes_to_process ≡ true =
      lt→ltb _ _ (omega (arith, m.remaining, Checking-within m)) in
    let refused : validate_rec r.offset r.file ≡ none = rw (← e) c.refused in
    let resync : search_for_next_good_record r.offset r.file
        ≡ good_record (r.offset + length block) =
      rw (← e) c.resync in
    Repairs-eq
      (move_loop fuel st_size rest first block
        (record r {
          offset = r.offset + length block;
          bytes_to_process = r.bytes_to_process + r.offset - (r.offset + length block);
          beginhole = r.offset;
          found_corrupted = true;
        })
        (omega arith)
        (record {
          whole = unfold log_bytes in m.whole;
          place = omega (arith, m.place);
          remaining =
              unfold log_bytes in
              omega (
                arith,
                m.remaining,
                m.place,
                ap length m.whole,
                length-append first (block ++ log_bytes rest),
                length-append block (log_bytes rest),
              );
          at_hole = m.place;
          started = m.started;
          logged = m.logged;
        }))
      (unfold log_bytes in refl) (rw (more, refused, resync))
check_loop (suc fuel) st_size (q ∷ good) first block rest r enough m place there c =
    let more : ltb 0 r.bytes_to_process ≡ true =
      lt→ltb _ _ (omega (arith, m.remaining, Checking-within m)) in
    let size = length-rec_bytes-IsRec q m.good_logged.0.is_rec in
    let fits : r.offset + room q < off_mod =
      unfold log_bytes in
      omega
        (arith, m.small, Checking-within m, size, length-append (rec_bytes q) (log_bytes good)) in
    Repairs-eq
      (check_loop fuel st_size good (first ++ rec_bytes q) block rest (next_state q r) (omega arith)
        (Checking-next q m) place
        (unfold log_bytes in
          omega (arith, there, size, length-append (rec_bytes q) (log_bytes good)))
        c)
      (unfold log_bytes in
        append_assoc first (rec_bytes q) (log_bytes good ++ log_bytes rest)
        ∙ ap (λ t. first ++ t) (sym (append_assoc (rec_bytes q) (log_bytes good) (log_bytes rest))))
      (rw (more, validate_rec-record r.file r.offset q m.good_logged.0 (Checking-Holds q m) fits))

-- `repairLog` on a log with a corrupted block: whole records, then bytes that `validateRec` refuses,
-- then whole records, the first of which `searchForNextGoodRecord` finds. The block is gone, the
-- records are as they were and in their order, and `*status` says that a problem was found. As many
-- rounds are enough as there are records, and two more.
pub repair_log-Repairs :
    (fuel : ℕ) (header block : Bytes) (good rest : List Rec) (f : File)
    → length good + (length rest + 1) < fuel
    → f.contents ≡ header ++ (log_bytes good ++ (block ++ log_bytes rest))
    → length header ≡ 40
    → All IsLogged good
    → All IsLogged rest
    → 0 < length block
    → length f.contents < off_mod
    → Corrupted (40 + length (log_bytes good)) (length block) f
    → Repairs (header ++ (log_bytes good ++ log_bytes rest)) true (repair_log fuel f)
unfolding repair_log again
repair_log-Repairs fuel header block good rest f enough whole size good_logged logged blocked small
      c =
    let total = length-append header (log_bytes good ++ (block ++ log_bytes rest)) in
    let some_bytes : (length f.contents == 0) ≡ false =
      ==_ne _ _ (λ e. omega (arith, ap length whole, total, size, e)) in
    rw some_bytes (
      check_loop fuel (length f.contents) good header block rest
        (record {
          file = f;
          offset = 40;
          beginhole = 0;
          bytes_to_process = length f.contents - 40;
          found_corrupted = false;
        })
        enough
        (record {
          whole = whole;
          place = omega (arith, size);
          remaining = omega (arith, ap length whole, total, size);
          started = omega (arith, size);
          good_logged = good_logged;
          logged = logged;
          blocked = blocked;
          small = small;
        })
        (40 + length (log_bytes good)) refl c)
