-- ===== src/LogManagement/CountRounds.antt =====
-- user/cmd/evlogmgr/evl_logmgmt.c: one round of the loop of `countRecsForDeletion` on a record.
use evlog.Prelude.{
  ℕ, suc, ◌+◌, ◌<◌, ◌%◌, ◌^◌, ◌≡◌, refl, sym, ap, ◌∙◌, Bool, true, false, ==_refl, ltb, leb, [],
  ◌∷◌, ◌++◌, length, drop, Text, Bool-cases, inl, inr, sign_extend, arith,
}
use mathlib.Core.List.{append_assoc}
use evlog.Log.File.{Bytes, File, off_mod}
use evlog.Log.Layout.{Rec, rec_bytes, whole_size, le_bytes, le_word, le_word-le_bytes}
use evlog.Log.Reading.{Holds, read_bytes-Holds, lseek-within}
use evlog.LogManagement.Records.{is_mgmt_message, matches_for_del}
use evlog.LogManagement.Rounds.{IsLogged, var_bytes, read-head, var-Holds}
use evlog.LogManagement.Kept.{deletes}
use evlog.LogManagement.Validated.{length-le_bytes, read-size}
use evlog.LogManagement.Count.{
  Counting, Counted, count_next, count_record, is_counted, no_message, count_sized, count_size,
  count_data, count_round, count_loop,
}

-- `varbuf`, and the state, behind a record.
abbrev pub with_data : Rec → Counting → Counting
with_data r c = record c { varbuf = r.body ++ drop (length r.body) c.varbuf }

module _ (evaluate : Bytes → Bytes → Bool) (msg : Text) where
  -- The evaluation of the query reads no byte behind the data of the record, and the record is not
  -- the message of the compaction.
  pub record IsPlain (r : Rec) : Type 0 where
    pub reads_data : (rest : Bytes) → evaluate r.head (r.body ++ rest) ≡ evaluate r.head r.body
    pub other : is_mgmt_message msg (var_bytes r) ≡ false

  deletes-IsPlain : (r : Rec) → IsPlain r → deletes evaluate msg r ≡ evaluate r.head r.body
  unfolding matches_for_del
  deletes-IsPlain r p =
      rw (p.other, p.reads_data (le_bytes 4 (whole_size r)))
        (elim (Bool-cases (evaluate r.head r.body)) [ inl e ↦ rw e | inr e ↦ rw e ])

  -- The state behind a record.
  abbrev pub counted_rec : Rec → Counting → Counting
  counted_rec r c =
      count_next (88 + length r.body) (count_record (deletes evaluate msg r) r.head (with_data r c))

  module _ (f : File) (r : Rec) (v : IsLogged r) where
    is_counted-IsPlain :
        (buf : Bytes)
        → IsPlain r
        → is_counted evaluate [] f r.head (r.body ++ buf) ≡ deletes evaluate msg r
    unfolding is_counted no_message
    is_counted-IsPlain buf p =
        rw (p.reads_data buf, deletes-IsPlain r p)
          (elim (Bool-cases (evaluate r.head r.body)) [ inl e ↦ rw e | inr e ↦ rw e ])

    count_size-record :
        {first after : Bytes} (next : Counting → Counted) (c : Counting) (p : ℕ)
        → IsPlain r
        → Holds first (rec_bytes r) after (record f { pos = c.offset })
        → p ≡ c.offset + 88 + length r.body
        → count_size evaluate [] f next r.head p (with_data r c) ≡ next (counted_rec r c)
    unfolding count_size count_sized whole_size
    count_size-record next c p plain h e =
        let value : le_word (le_bytes 4 (88 + length r.body)) ≡ 88 + length r.body =
          le_word-le_bytes (88 + length r.body) (omega (arith, v.is_rec.fits)) in
        let positive : sign_extend (88 + length r.body) ≡ 88 + length r.body =
          ground (arith, v.is_rec.fits) in
        let sum : (88 + length r.body) % 2 ^ 64 ≡ 88 + length r.body =
          omega (arith, v.is_rec.fits) in
        rw (
          e,
          read-size r v h,
          length-le_bytes (88 + length r.body),
          value,
          positive,
          v.is_rec.sized,
          sum,
          ==_refl (88 + length r.body),
          is_counted-IsPlain (drop (length r.body) c.varbuf) plain,
        )

    body-Holds :
        {first after : Bytes} (p : ℕ)
        → Holds first (rec_bytes r) after (record f { pos = p })
        → Holds
            (first ++ r.head)
            r.body
            (le_bytes 4 (whole_size r) ++ after)
            (record f { pos = p + 88 })
    body-Holds {first} {after} p h = record {
      whole =
          (var-Holds r v h).whole
          ∙ ap (λ t. (first ++ r.head) ++ t)
              (append_assoc r.body (le_bytes 4 (whole_size r)) after);
      place = (var-Holds r v h).place;
    }

    no_data :
        (body buf : Bytes) → ltb 0 (length body) ≡ false → body ++ drop (length body) buf ≡ buf
    no_data [] buf e = refl
    no_data (b ∷ body) buf e = absurd (ground arith)

    count_data-record :
        {first after : Bytes} (next : Counting → Counted) (c : Counting)
        → IsPlain r
        → Holds first (rec_bytes r) after (record f { pos = c.offset })
        → count_data evaluate [] f next r.head (c.offset + 88) c ≡ next (counted_rec r c)
    unfolding count_data
    count_data-record next c plain h = elim (Bool-cases (ltb 0 (length r.body))) [
      | inl e ↦
          let fits : leb (length r.body) 8192 ≡ true = ground (arith, v.is_rec.fits) in
          rw
            (
              v.is_rec.sized,
              e,
              fits,
              read_bytes-Holds (body-Holds c.offset h) (length r.body) refl,
              ==_refl (length r.body),
            )
            (count_size-record next c (c.offset + 88 + length r.body) plain h refl)
      | inr e ↦
          let here : c.offset + 88 ≡ c.offset + 88 + length r.body = ground arith in
          rw (v.is_rec.sized, e)
            (ap
                (λ t.
                  count_size evaluate [] f next r.head (c.offset + 88) (record c { varbuf = t }))
                (sym (no_data r.body c.varbuf e))
              ∙ count_size-record next c (c.offset + 88) plain h here)
    ]

    pub count_loop-step :
        {first after : Bytes} (fuel : ℕ) (c : Counting)
        → IsPlain r
        → Holds first (rec_bytes r) after (record f { pos = c.offset })
        → c.offset < off_mod
        → 0 < c.bytes_to_process
        → count_loop evaluate [] f (suc fuel) c ≡ count_loop evaluate [] f fuel (counted_rec r c)
    unfolding count_loop count_round
    count_loop-step fuel c plain h small more =
        let go_on : ltb 0 c.bytes_to_process ≡ true = ground (arith, more) in
        rw (go_on, lseek-within c.offset f small, read-head r v h, v.is_rec.head_size)
          (count_data-record (count_loop evaluate [] f fuel) c plain h)
