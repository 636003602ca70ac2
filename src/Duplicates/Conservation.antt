-- ===== src/Duplicates/Conservation.antt =====
-- user/cmd/evlogd/evlogd.c: no duplicate is lost: each is reported, or pending.
use evlog.Prelude.{
  ℕ, zero, suc, ◌+◌, ◌≤◌, ◌≡◌, refl, ap, ◌∙◌, Bool, true, false, ◌==◌, ltb, leb, if◌then◌else◌,
  Option, none, some, List, [], ◌∷◌, ◌++◌, set, get_elem?, Bool-cases, inl, inr, arith, ◌||◌,
}
use evlog.Log.File.{Bytes}
use evlog.Duplicates.Record.{DupBuffer, Settings, compute_score}
use evlog.Duplicates.Buffer.{
  Discard, Dups, blanks, array_of, Choice, Scan, duplicate, replaces, choose, is_duplicate, scan,
  count_duplicate, report, replace_with, next_turn, replace_chosen, scanned, first_choice,
  drop_dup_record,
}

-- The duplicates of the elements, and those that have been reported.
abbrev pub total : List DupBuffer → ℕ
total [] = 0
total (b ∷ bs) = b.dup_count + total bs

abbrev pub reported : List Discard → ℕ
reported [] = 0
reported (e ∷ es) = e.count + reported es

abbrev pub elements : Option (List DupBuffer) → List DupBuffer
elements none = []
elements (some bs) = bs

-- `linfo->dup_count` is the sum of the counts of the elements.
abbrev pub IsCounted : Dups → Type 0
IsCounted d = d.pending ≡ total (elements d.dup_recs_array)

-- The duplicates that are accounted for.
abbrev pub accounted : Dups → ℕ
accounted d = reported d.discards + d.pending

pub reported-append :
    (es : List Discard) (e : Discard) → reported (es ++ e ∷ []) ≡ reported es + e.count
reported-append [] e = omega arith
reported-append (x ∷ es) e = omega (arith, reported-append es e)

total-set :
    (bs : List DupBuffer) (i : ℕ) (b b' : DupBuffer)
    → get_elem? bs i ≡ some b
    → total (set bs i b') + b.dup_count ≡ total bs + b'.dup_count
total-set [] i b b' e = ground arith
total-set (x ∷ bs) zero b b' e = ground arith
total-set (x ∷ bs) (suc i) b b' e = omega (arith, total-set bs i b b' e)

total-le :
    (bs : List DupBuffer) (i : ℕ) (b : DupBuffer) → get_elem? bs i ≡ some b → b.dup_count ≤ total bs
total-le [] i b e = ground arith
total-le (x ∷ bs) zero b e = ground arith
total-le (x ∷ bs) (suc i) b e = omega (arith, total-le bs i b e)

total-blanks : (n : ℕ) → total (blanks n) ≡ 0
total-blanks zero = refl
total-blanks (suc n) = omega (arith, total-blanks n)

elements-total :
    (s : Settings) (o : Option (List DupBuffer)) → total (array_of s o) ≡ total (elements o)
unfolding array_of
elements-total s none = total-blanks s.array_size
elements-total s (some bs) = refl

-- An operation counts `n` more duplicates.
pub record Counts (n : ℕ) (d d' : Dups) : Type 0 where
  pub balanced : accounted d' ≡ accounted d + n
  pub counted : IsCounted d'

-- The value of a decision.
abbrev pub one_if : Bool → ℕ
one_if true = 1
one_if false = 0

if-Counts :
    (d : Dups) (b : Bool) (x y : Bool × Dups)
    → Counts (one_if x.0) d x.1
    → Counts (one_if y.0) d y.1
    → Counts (one_if (if b then x else y).0) d (if b then x else y).1
if-Counts d true x y p q = p
if-Counts d false x y p q = q

module _ (s : Settings) (now : ℕ) (rhdr : Bytes) where
  -- The loop ends at an element of the array.
  scan-duplicate :
      (all bs : List DupBuffer) (i : ℕ) (c : Choice) (j : ℕ) (b : DupBuffer)
      → ((k : ℕ) → get_elem? all (i + k) ≡ get_elem? bs k)
      → scan s now rhdr i c bs ≡ duplicate j b
      → get_elem? all j ≡ some b
  unfolding scan
  scan-duplicate all [] i c j b at e = ground arith
  scan-duplicate all (x ∷ bs) i c j b at e =
      let here : get_elem? all i ≡ some x = ap (get_elem? all) {x = i} (omega arith) ∙ at 0 in
      elim (Bool-cases (is_duplicate s now rhdr x)) [
        | inl m ↦ let e' = rw m at e in cc
        | inr m ↦
            scan-duplicate all bs (i + 1) (choose i (compute_score s now x) c) j b
              (λ k. ap (get_elem? all) {x = i + 1 + k} (omega arith) ∙ at (suc k)) (rw m at e)
      ]

  count_duplicate-Counts :
      (i : ℕ) (b : DupBuffer) (bs : List DupBuffer) (d : Dups)
      → get_elem? bs i ≡ some b
      → d.pending ≡ total bs
      → Counts 1 d (count_duplicate s now rhdr i b bs d)
  unfolding count_duplicate
  count_duplicate-Counts i b bs d at counted =
      let le = total-le bs i b at in
      let gone = total-set bs i b (record b { dup_count = 0; time_start = 0; rec = none }) at in
      let more = total-set bs i b (record b { dup_count = b.dup_count + 1 }) at in
      let written =
        reported-append d.discards (record { about = some rhdr; count = b.dup_count + 1 }) in
      elim (Bool-cases
        ((b.dup_count + 1 == s.max_count) || leb (b.time_start + s.dup_interval) now)) [
          | inl m ↦ rw m (record {
            balanced = omega (arith, written, le, counted);
            counted = omega (arith, gone, le, counted);
          })
          | inr m ↦ rw m (record { balanced = omega arith; counted = omega (arith, more, counted) })
        ]

  report-accounted :
      (b : DupBuffer) (d : Dups)
      → b.dup_count ≤ d.pending
      → (accounted (report s now rhdr b d) ≡ accounted d)
        × ((report s now rhdr b d).pending + b.dup_count ≡ d.pending)
  unfolding report
  report-accounted b d le =
      let written = reported-append d.discards (record { about = b.rec; count = b.dup_count }) in
      elim (Bool-cases (ltb 0 b.dup_count)) [
        | inl m ↦ rw m (omega (arith, written, le), omega (arith, le))
        | inr m ↦ rw m (refl, ground arith)
      ]

  replace_with-Counts :
      (buf_index i : ℕ) (bs : List DupBuffer) (d : Dups) (o : Option DupBuffer)
      → get_elem? bs i ≡ o
      → d.pending ≡ total bs
      → Counts 0 d (replace_with s now rhdr buf_index i bs d o)
  unfolding replace_with
  replace_with-Counts buf_index i bs d none at counted = record {
    balanced = omega arith;
    counted = counted;
  }
  replace_with-Counts buf_index i bs d (some b) at counted =
      let le = total-le bs i b at in
      let new : DupBuffer = record {
        buf_index = buf_index;
        dup_count = 0;
        time_start = now;
        rec = some rhdr;
      } in
      let r = report-accounted b d (omega (arith, le, counted)) in
      record {
        balanced = omega (arith, r.0);
        counted = omega (arith, total-set bs i b new at, r.1, counted);
      }

  replace_chosen-Counts :
      (buf_index : ℕ) (bs : List DupBuffer) (d : Dups) (c : Choice)
      → d.pending ≡ total bs
      → Counts 0 d (replace_chosen s now rhdr buf_index bs d c)
  unfolding replace_chosen
  replace_chosen-Counts buf_index bs d c counted = elim (Bool-cases c.equality) [
    | inl m ↦
        let c' =
          replace_with-Counts buf_index (next_turn s now rhdr d) bs
            (record d { equality_next = next_turn s now rhdr d + 1 }) _ refl counted in
        rw m (record { balanced = c'.balanced; counted = c'.counted })
    | inr m ↦ rw m (replace_with-Counts buf_index c.replace bs d _ refl counted)
  ]

  scanned-Counts :
      (buf_index : ℕ) (bs : List DupBuffer) (d : Dups) (o : Scan)
      → scan s now rhdr 0 (first_choice s now rhdr bs) bs ≡ o
      → d.pending ≡ total bs
      → Counts
          (one_if (scanned s now rhdr buf_index bs d o).0)
          d
          (scanned s now rhdr buf_index bs d o).1
  unfolding scanned
  scanned-Counts buf_index bs d (duplicate i b) e counted =
      count_duplicate-Counts i b bs d
        (scan-duplicate bs bs 0 (first_choice s now rhdr bs) i b
          (λ k. ap (get_elem? bs) {x = 0 + k} (omega arith)) e)
        counted
  scanned-Counts buf_index bs d (replaces c) e counted =
      replace_chosen-Counts buf_index bs d c counted

  -- `dropDupRecord` loses no duplicate: a record that it drops is one more duplicate that has been
  -- reported or is pending, and a record that it does not drop changes neither sum. `dup_count` of
  -- the log stays the sum of the counts of the elements.
  pub drop_dup_record-Counts :
      (buf_index : ℕ) (d : Dups)
      → IsCounted d
      → Counts
          (one_if (drop_dup_record s now rhdr buf_index d).0)
          d
          (drop_dup_record s now rhdr buf_index d).1
  unfolding drop_dup_record
  drop_dup_record-Counts buf_index d counted =
      if-Counts d s.dis_dup_recs _ (false, d)
        (scanned-Counts buf_index (array_of s d.dup_recs_array) d _ refl
          (omega (arith, counted, elements-total s d.dup_recs_array)))
        (record { balanced = omega arith; counted = counted })
