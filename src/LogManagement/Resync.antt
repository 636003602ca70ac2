-- ===== src/LogManagement/Resync.antt =====
-- user/cmd/evlogmgr/evl_logmgmt.c: the inner loop of `repairLog`, which moves the records behind a
-- corrupted block.
use evlog.Prelude.{
  ℕ, zero, suc, ◌+◌, ◌-◌, ◌<◌, ◌≡◌, refl, sym, ap, ◌∙◌, Bool, true, false, ◌==◌, ==_refl, ltb,
  lt→ltb, none, some, List, [], ◌∷◌, ◌++◌, length, take, take-append, length-append, All, arith,
}
use mathlib.Core.List.{append_assoc, append-nil}
use evlog.Log.File.{Bytes, File, success, write_bytes, ftruncate}
use evlog.Log.Layout.{Rec, rec_bytes, log_bytes}
use evlog.Log.Reading.{Holds}
use evlog.Log.Cursor.{room, length-rec_bytes-IsRec}
use evlog.LogManagement.Records.{minus_one, move_record_up, move_to, remainder_bytes}
use evlog.LogManagement.Moving.{write_twice-hole, hole_after, length-hole_after}
use evlog.LogManagement.Rounds.{
  IsLogged, var_bytes, length-var_bytes, get_rec_len-room, read-head, after-head, read-var,
}
use evlog.LogManagement.Repair.{
  Repair, Repaired, returns, again, move_round, moved, cut_hole, repair_loop,
}

-- A repair ends, with `contents` in the file.
pub record Repairs (contents : Bytes) (corrupted : Bool) (run : Repaired) : Type 0 where
  pub final : Repair
  pub outcome : run ≡ returns success final
  pub contents_lem : final.file.contents ≡ contents
  pub flag : final.found_corrupted ≡ corrupted

pub Repairs-eq :
    {contents contents' : Bytes} {c : Bool} {run run' : Repaired}
    → Repairs contents c run
    → contents ≡ contents'
    → run' ≡ run
    → Repairs contents' c run'
Repairs-eq p e e' = record {
  final = p.final;
  outcome = e' ∙ p.outcome;
  contents_lem = p.contents_lem ∙ e;
  flag = p.flag;
}

-- The file in the course of the inner loop: what has been moved, the hole, and what comes.
pub record Moving (first hole : Bytes) (rest : List Rec) (r : Repair) : Type 0 where
  pub whole : r.file.contents ≡ first ++ (hole ++ log_bytes rest)
  pub place : r.offset ≡ length first + length hole
  pub remaining : r.bytes_to_process ≡ length (log_bytes rest)
  pub at_hole : r.beginhole ≡ length first
  pub started : 0 < length first
  pub logged : All IsLogged rest

-- The state behind a record that has been moved.
abbrev moved_state : Bytes → Rec → Repair → Repair
moved_state first q r = record r {
  file = write_bytes (var_bytes q) (write_bytes q.head (record r.file { pos = length first }));
  beginhole = length first + room q;
  offset = r.offset + room q;
  bytes_to_process = r.bytes_to_process - room q;
}

Moving-Holds :
    {first hole : Bytes} {rest : List Rec} {r : Repair} (q : Rec)
    → Moving first hole (q ∷ rest) r
    → Holds (first ++ hole) (rec_bytes q) (log_bytes rest) (record r.file { pos = r.offset })
unfolding log_bytes
Moving-Holds {first} {hole} {rest} q m = record {
  whole = m.whole ∙ sym (append_assoc first hole (rec_bytes q ++ log_bytes rest));
  place = m.place ∙ sym (length-append first hole);
}

Moving-next :
    {first hole : Bytes} {rest : List Rec} {r : Repair} (q : Rec)
    → Moving first hole (q ∷ rest) r
    → Moving (first ++ rec_bytes q) (hole_after hole (rec_bytes q)) rest (moved_state first q r)
unfolding log_bytes rec_bytes
Moving-next {first} {hole} {rest} {r} q m =
    let size = length-rec_bytes-IsRec q m.logged.0.is_rec in
    record {
      whole =
          write_twice-hole q.head (var_bytes q) first hole (log_bytes rest)
            (record r.file { pos = length first }) m.whole refl;
      place = omega (
        arith,
        m.place,
        size,
        length-append first (rec_bytes q),
        length-hole_after hole (rec_bytes q),
      );
      remaining = omega (arith, m.remaining, size, length-append (rec_bytes q) (log_bytes rest));
      at_hole = omega (arith, size, length-append first (rec_bytes q));
      started = omega (arith, m.started, length-append first (rec_bytes q));
      logged = m.logged.1;
    }

-- `moveRecordUp` reads the data of the record, and writes the record into the hole.
move_record_up-read :
    {before after : Bytes} (f : File) (beginhole offset : ℕ) (q : Rec)
    → IsLogged q
    → Holds before (rec_bytes q) after (record f { pos = offset })
    → move_record_up beginhole q.head none (record f { pos = offset + 88 })
      ≡ some (
        beginhole + room q,
        write_bytes (var_bytes q) (write_bytes q.head (record f { pos = beginhole })),
      )
unfolding move_record_up move_to remainder_bytes
move_record_up-read f beginhole offset q v h =
    let short : ltb 8192 (length q.body) ≡ false = ground (arith, v.is_rec.fits) in
    rw (v.is_rec.sized, short, read-var q v h, length-var_bytes q v, ==_refl (length q.body + 4))
      (ap
        (λ n. some (
          beginhole + (88 + n),
          write_bytes (var_bytes q) (write_bytes q.head (record f { pos = beginhole })),
        ))
        (length-var_bytes q v))

move_round-record :
    {first hole : Bytes} {rest : List Rec} (go_on restart : Repair → Repaired) (q : Rec)
    (r : Repair)
    → Moving first hole (q ∷ rest) r
    → move_round go_on restart r ≡ go_on (moved_state first q r)
unfolding move_round moved
move_round-record {first} go_on restart q r m =
    let v = m.logged.0 in
    let h = Moving-Holds q m in
    let known : (room q == minus_one) ≡ false = ground (arith, v.is_rec.fits) in
    rw (
      read-head q v h,
      after-head q v h,
      v.is_rec.head_size,
      get_rec_len-room q v,
      known,
      m.at_hole,
      move_record_up-read r.file (length first) r.offset q v h,
    )

-- At the end the file is cut at the hole.
cut_hole-cut :
    (first rest : Bytes) (r : Repair)
    → r.file.contents ≡ first ++ rest
    → r.beginhole ≡ length first
    → 0 < length first
    → Repairs first r.found_corrupted (cut_hole r)
unfolding cut_hole ftruncate
cut_hole-cut first rest r whole hole started =
    let gap : r.beginhole - length r.file.contents ≡ 0 =
      omega (arith, hole, ap length whole, length-append first rest) in
    let front : take r.beginhole r.file.contents ≡ first =
      rw (whole, hole) (take-append first rest) in
    let cut : ltb 0 r.beginhole ≡ true = lt→ltb _ _ (omega (arith, hole, started)) in
    record {
      final = record r { file = ftruncate r.beginhole r.file };
      outcome = rw cut;
      contents_lem = rw (gap, front) (append-nil first);
      flag = refl;
    }

ltb_zero : (n : ℕ) → n ≡ 0 → ltb 0 n ≡ false
ltb_zero n e = rw e

goes_on :
    (q : Rec) (rest : List Rec) (n : ℕ)
    → IsLogged q
    → n ≡ length (log_bytes (q ∷ rest))
    → ltb 0 n ≡ true
unfolding log_bytes
goes_on q rest n v e = lt→ltb 0 n (
    omega
      (arith, e, length-append (rec_bytes q) (log_bytes rest), length-rec_bytes-IsRec q v.is_rec))

pub move_loop :
    (fuel st_size : ℕ) (rest : List Rec) (first hole : Bytes) (r : Repair)
    → length rest < fuel
    → Moving first hole rest r
    → Repairs (first ++ log_bytes rest) r.found_corrupted (repair_loop fuel st_size true r)
unfolding repair_loop
move_loop zero st_size rest first hole r enough m = absurd (omega arith)
move_loop (suc fuel) st_size [] first hole r enough m =
    let over : ltb 0 r.bytes_to_process ≡ false = unfold log_bytes in ltb_zero _ m.remaining in
    Repairs-eq (cut_hole-cut first (hole ++ log_bytes []) r m.whole m.at_hole m.started)
      (unfold log_bytes in sym (append-nil first)) (rw over)
move_loop (suc fuel) st_size (q ∷ rest) first hole r enough m =
    let more : ltb 0 r.bytes_to_process ≡ true =
      goes_on q rest r.bytes_to_process m.logged.0 m.remaining in
    Repairs-eq
      (move_loop fuel st_size rest (first ++ rec_bytes q) (hole_after hole (rec_bytes q))
        (moved_state first q r) (omega arith) (Moving-next q m))
      (unfold log_bytes in append_assoc first (rec_bytes q) (log_bytes rest))
      (rw (
        more,
        move_round-record (repair_loop fuel st_size true)
            (λ (r' : Repair). repair_loop fuel st_size false (again st_size r')) q r m,
      ))
