-- ===== src/LogManagement/Counted.antt =====
-- user/cmd/evlogmgr/evl_logmgmt.c: what `evlGetNumDelRec` says of a log, and what a compaction deletes.
use evlog.Prelude.{
  ℕ, zero, suc, ◌+◌, ◌-◌, ◌<◌, ◌%◌, ◌≡◌, refl, sym, ap, ◌∙◌, Bool, true, false, ◌==◌, ltb, none,
  some, List, [], ◌∷◌, ◌++◌, length, length-append, All, Text, Bool-cases, inl, inr, u64_mod, arith,
}
use mathlib.Core.List.{append_assoc}
use evlog.Query.Create.{Query, Created}
use evlog.Log.File.{Bytes, File, success, off_mod}
use evlog.Log.Layout.{Rec, rec_bytes, log_bytes}
use evlog.Log.Reading.{Holds}
use evlog.Log.Cursor.{room, length-rec_bytes-IsRec}
use evlog.LogManagement.Rounds.{IsLogged}
use evlog.LogManagement.Kept.{
  deletes, kept, deleted, kept-deletes, kept-keeps, deleted-deletes, deleted-keeps,
}
use evlog.LogManagement.Count.{
  Counting, Counted, returns, count_next, count_record, count_loop, count_recs_for_deletion,
  num_del_rec, count_opened, count_with, evl_get_num_del_rec,
}
use evlog.LogManagement.CountRounds.{IsPlain, with_data, counted_rec, count_loop-step}

module _ (evaluate : Bytes → Bytes → Bool) (msg : Text) where
  -- Counting a record changes neither the place nor what is left.
  count_record-offset :
      (b : Bool) (head : Bytes) (c : Counting) → (count_record b head c).offset ≡ c.offset
  unfolding count_record
  count_record-offset true head c = refl
  count_record-offset false head c = refl

  count_record-bytes_to_process :
      (b : Bool) (head : Bytes) (c : Counting)
      → (count_record b head c).bytes_to_process ≡ c.bytes_to_process
  unfolding count_record
  count_record-bytes_to_process true head c = refl
  count_record-bytes_to_process false head c = refl

  counted_rec-deletes :
      (r : Rec) (v : IsLogged r) (c : Counting)
      → deletes evaluate msg r ≡ true
      → c.nbytes + room r < off_mod
      → ((counted_rec evaluate msg r c).delcnt ≡ c.delcnt + 1)
        × ((counted_rec evaluate msg r c).nbytes ≡ c.nbytes + room r)
  unfolding count_next count_record
  counted_rec-deletes r v c e small = rw (e, v.is_rec.sized) (refl, omega (arith, small))

  counted_rec-keeps :
      (r : Rec) (c : Counting)
      → deletes evaluate msg r ≡ false
      → ((counted_rec evaluate msg r c).delcnt ≡ c.delcnt)
        × ((counted_rec evaluate msg r c).nbytes ≡ c.nbytes)
  unfolding count_next count_record
  counted_rec-keeps r c e = rw e (refl, refl)

  module _ (f : File) where
    -- The loop in front of the records of `rest`.
    record Ahead (first : Bytes) (rest : List Rec) (c : Counting) : Type 0 where
      whole : f.contents ≡ first ++ log_bytes rest
      place : c.offset ≡ length first
      remaining : c.bytes_to_process ≡ length (log_bytes rest)
      logged : All IsLogged rest
      plain : All (IsPlain evaluate msg) rest
      small : length f.contents < off_mod
      counted : c.nbytes + length (log_bytes rest) < off_mod

    -- The loop ends, with the records of `rest` that are deleted counted, and their bytes.
    pub record Totals (rest : List Rec) (delcnt nbytes : ℕ) (o : Counted) : Type 0 where
      pub final : Counting
      pub outcome : o ≡ returns success final
      pub number : final.delcnt ≡ delcnt + deleted evaluate msg rest
      pub bytes :
          final.nbytes + length (log_bytes (kept evaluate msg rest))
          ≡ nbytes + length (log_bytes rest)

    Ahead-next :
        {first : Bytes} {rest : List Rec} {c : Counting} (r : Rec)
        → Ahead first (r ∷ rest) c
        → (counted_rec evaluate msg r c).nbytes + length (log_bytes rest) < off_mod
        → Ahead (first ++ rec_bytes r) rest (counted_rec evaluate msg r c)
    unfolding count_next log_bytes
    Ahead-next {first} {rest} {c} r a bound =
        let size = length-rec_bytes-IsRec r a.logged.0.is_rec in
        let total = length-append (rec_bytes r) (log_bytes rest) in
        let all = length-append first (rec_bytes r ++ log_bytes rest) in
        record {
          whole = a.whole ∙ sym (append_assoc first (rec_bytes r) (log_bytes rest));
          place = rw (count_record-offset (deletes evaluate msg r) r.head (with_data r c)) (
              omega (
                arith,
                a.place,
                a.small,
                ap length a.whole,
                size,
                total,
                all,
                length-append first (rec_bytes r),
                a.logged.0.is_rec.fits,
              ));
          remaining =
              rw (count_record-bytes_to_process (deletes evaluate msg r) r.head (with_data r c)) (
                omega (
                  arith,
                  a.remaining,
                  a.small,
                  ap length a.whole,
                  size,
                  total,
                  all,
                  a.logged.0.is_rec.fits,
                ));
          logged = a.logged.1;
          plain = a.plain.1;
          small = a.small;
          counted = bound;
        }

    Ahead-Holds :
        {first : Bytes} {rest : List Rec} {c : Counting} (r : Rec)
        → Ahead first (r ∷ rest) c
        → Holds first (rec_bytes r) (log_bytes rest) (record f { pos = c.offset })
    unfolding log_bytes
    Ahead-Holds r a = record { whole = a.whole; place = a.place }

    count_loop-Totals :
        (fuel : ℕ) (rest : List Rec) (first : Bytes) (c : Counting)
        → length rest < fuel
        → Ahead first rest c
        → Totals rest c.delcnt c.nbytes (count_loop evaluate [] f fuel c)
    count_loop-Totals zero rest first c enough a = absurd (omega arith)
    count_loop-Totals (suc fuel) [] first c enough a = record {
      final = c;
      outcome =
          unfold count_loop log_bytes in
          (let over : ltb 0 c.bytes_to_process ≡ false = ground (arith, a.remaining) in rw over);
      number = omega arith;
      bytes = refl;
    }
    count_loop-Totals (suc fuel) (r ∷ rest) first c enough a =
        let size = length-rec_bytes-IsRec r a.logged.0.is_rec in
        let total : length (log_bytes (r ∷ rest)) ≡ room r + length (log_bytes rest) =
          unfold log_bytes in omega (arith, size, length-append (rec_bytes r) (log_bytes rest)) in
        let step =
          count_loop-step evaluate msg f r a.logged.0 fuel c a.plain.0 (Ahead-Holds r a)
            (omega (
              arith,
              a.place,
              a.small,
              ap length a.whole,
              length-append first (log_bytes (r ∷ rest)),
            ))
            (omega (arith, a.remaining, total)) in
        elim (Bool-cases (deletes evaluate msg r)) [
          | inl e ↦
              let (n, b) = counted_rec-deletes r a.logged.0 c e (omega (arith, a.counted, total)) in
              let t =
                count_loop-Totals fuel rest (first ++ rec_bytes r) (counted_rec evaluate msg r c)
                  (omega arith) (Ahead-next r a (omega (arith, a.counted, total, b))) in
              record {
                final = t.final;
                outcome = step ∙ t.outcome;
                number = omega (arith, t.number, n, deleted-deletes evaluate msg r rest e);
                bytes =
                    ap (λ k. t.final.nbytes + length (log_bytes k))
                      (kept-deletes evaluate msg r rest e)
                    ∙ omega (arith, t.bytes, b, total);
              }
          | inr e ↦
              let (n, b) = counted_rec-keeps r c e in
              let kept_total : length (log_bytes (r ∷ kept evaluate msg rest))
                  ≡ room r + length (log_bytes (kept evaluate msg rest)) =
                unfold log_bytes in
                omega
                  (arith, size, length-append (rec_bytes r) (log_bytes (kept evaluate msg rest))) in
              let t =
                count_loop-Totals fuel rest (first ++ rec_bytes r) (counted_rec evaluate msg r c)
                  (omega arith) (Ahead-next r a (omega (arith, a.counted, total, b))) in
              record {
                final = t.final;
                outcome = step ∙ t.outcome;
                number = omega (arith, t.number, n, deleted-keeps evaluate msg r rest e);
                bytes =
                    ap (λ k. t.final.nbytes + length (log_bytes k))
                      (kept-keeps evaluate msg r rest e)
                    ∙ omega (arith, t.bytes, b, total, kept_total);
              }
        ]

-- `evlGetNumDelRec` with a query and no message, on a log of whole records, when the file can be
-- opened, the evaluation of the query reads no byte behind the data of a record, and no record is
-- the message that the compaction will log: with more rounds than there are records it succeeds, and
-- stores the number of records that a compaction with the same query and that message deletes, and
-- the number of bytes by which it shortens the log. What `varbuf` holds at its start does not matter.
pub evl_get_num_del_rec-Succeeds :
    (evaluate : Query → Bytes → Bytes → Bool) (message : Text) (fuel : ℕ) (varbuf header : Bytes)
    (rs : List Rec) (created : Created) (query : Query) (f : File)
    → created.status ≡ none
    → created.query ≡ some query
    → f.contents ≡ header ++ log_bytes rs
    → length header ≡ 40
    → length f.contents < off_mod
    → All IsLogged rs
    → All (IsPlain (evaluate query) message) rs
    → length rs < fuel
    → (bytes : ℕ) × (evl_get_num_del_rec evaluate [] fuel varbuf (some created) (some f)
        ≡ some (record {
          status = success;
          stored = some (some (deleted (evaluate query) message rs), bytes);
        }))
      × (bytes + length (log_bytes (kept (evaluate query) message rs)) ≡ length (log_bytes rs))
unfolding evl_get_num_del_rec count_with count_opened count_recs_for_deletion num_del_rec
evl_get_num_del_rec-Succeeds evaluate message fuel varbuf header rs created query f fine has_query
      whole size small logged plain enough =
    let all : length f.contents ≡ 40 + length (log_bytes rs) =
      omega (arith, ap length whole, size, length-append header (log_bytes rs)) in
    let some_bytes : (length f.contents == 0) ≡ false = ground (arith, all) in
    let t =
      count_loop-Totals (evaluate query) message f fuel rs header
        (record {
          varbuf = varbuf;
          offset = 40;
          bytes_to_process = (length f.contents + (u64_mod - 40)) % u64_mod;
          delcnt = 0;
          nbytes = 0;
        })
        enough
        (record {
          whole = whole;
          place = omega (arith, size);
          remaining = omega (arith, all, small);
          logged = logged;
          plain = plain;
          small = small;
          counted = omega (arith, all, small);
        }) in
    let number : t.final.delcnt ≡ deleted (evaluate query) message rs = omega (arith, t.number) in
    (t.final.nbytes, rw (fine, has_query, some_bytes, t.outcome, number), omega (arith, t.bytes))
