-- ===== src/Duplicates/Runs.antt =====
-- user/cmd/evlogd/evlogd.c: every run of the logging daemon accounts for the duplicates that it has
-- dropped.
use evlog.Prelude.{
  ℕ, ◌+◌, ◌≤◌, ◌≡◌, refl, ◌∙◌, Bool, ◌==◌, ltb, Option, none, some, List, [], ◌∷◌, Bool-cases, inl,
  inr, arith,
}
use evlog.Log.File.{Bytes}
use evlog.Duplicates.Record.{DupBuffer, Settings}
use evlog.Duplicates.Buffer.{Dups, drop_dup_record}
use evlog.Duplicates.Timeout.{
  empty_element, report_element, is_due, next_timeout, expire, expire_array, check_timeout,
  dump_element, dump_elements, dump_array, dump_duplicates,
}
use evlog.Duplicates.Conservation.{
  total, reported, reported-append, elements, IsCounted, accounted, Counts, one_if,
  drop_dup_record-Counts,
}

-- A report moves the duplicates of an element from the pending ones to the reported ones.
report_element-accounted :
    (b : DupBuffer) (d : Dups)
    → b.dup_count ≤ d.pending
    → (accounted (report_element b d) ≡ accounted d)
      × ((report_element b d).pending + b.dup_count ≡ d.pending)
unfolding report_element
report_element-accounted b d le =
    let written = reported-append d.discards (record { about = b.rec; count = b.dup_count }) in
    (omega (arith, written, le), omega (arith, le))

-- Over the elements `bs`, with `rest` duplicates of other elements.
expire-accounted :
    (s : Settings) (now : ℕ) (bs : List DupBuffer) (d : Dups) (tv rest : ℕ)
    → d.pending ≡ rest + total bs
    → (accounted (expire s now bs d tv).1 ≡ accounted d)
      × ((expire s now bs d tv).1.pending ≡ rest + total (expire s now bs d tv).0)
unfolding expire empty_element
expire-accounted s now [] d tv rest e = (refl, e)
expire-accounted s now (b ∷ bs) d tv rest e = elim (Bool-cases (is_due s now b)) [
  | inl m ↦
      let r = report_element-accounted b d (omega (arith, e)) in
      let ih =
        expire-accounted s now bs (report_element b d) (next_timeout s now b tv) rest
          (omega (arith, r.1, e)) in
      rw m (ih.0 ∙ r.0, omega (arith, ih.1))
  | inr m ↦
      let ih =
        expire-accounted s now bs d (next_timeout s now b tv) (rest + b.dup_count)
          (omega (arith, e)) in
      rw m (ih.0, omega (arith, ih.1))
]

dump_element-accounted :
    (b : DupBuffer) (d : Dups)
    → b.dup_count ≤ d.pending
    → (accounted (dump_element b d) ≡ accounted d)
      × ((dump_element b d).pending + b.dup_count ≡ d.pending)
unfolding dump_element
dump_element-accounted b d le = elim (Bool-cases (ltb 0 b.dup_count)) [
  | inl m ↦ rw m (report_element-accounted b d le)
  | inr m ↦ rw m (refl, ground arith)
]

dump_elements-accounted :
    (bs : List DupBuffer) (d : Dups)
    → d.pending ≡ total bs
    → reported (dump_elements bs d).discards ≡ reported d.discards + d.pending
unfolding dump_elements
dump_elements-accounted [] d e = omega (arith, e)
dump_elements-accounted (b ∷ bs) d e =
    let r = dump_element-accounted b d (omega (arith, e)) in
    dump_elements-accounted bs (dump_element b d) (omega (arith, r.1, e)) ∙ r.0

-- The elements are not touched by the loops that report.
expire_array-Counts :
    (s : Settings) (now tv : ℕ) (d : Dups) (o : Option (List DupBuffer))
    → d.pending ≡ total (elements o)
    → d.dup_recs_array ≡ o
    → Counts 0 d (expire_array s now o d tv).0
unfolding expire_array
expire_array-Counts s now tv d none e same = record { balanced = omega arith; counted = rw same e }
expire_array-Counts s now tv d (some bs) e same =
    let r = expire-accounted s now bs d tv 0 (omega (arith, e)) in
    record { balanced = omega (arith, r.0); counted = omega (arith, r.1) }

check_timeout-Counts :
    (s : Settings) (now tv : ℕ) (d : Dups) → IsCounted d → Counts 0 d (check_timeout s now d tv).0
unfolding check_timeout
check_timeout-Counts s now tv d counted = elim (Bool-cases (d.pending == 0)) [
  | inl m ↦ rw m (record { balanced = omega arith; counted = counted })
  | inr m ↦ rw m (expire_array-Counts s now tv d d.dup_recs_array counted refl)
]

dump_array-Counts :
    (d : Dups) (o : Option (List DupBuffer))
    → d.pending ≡ total (elements o)
    → d.dup_recs_array ≡ o
    → Counts 0 d (dump_array o d)
unfolding dump_array
dump_array-Counts d none e same = record { balanced = omega arith; counted = rw same e }
dump_array-Counts d (some bs) e same = record {
  balanced = omega (arith, dump_elements-accounted bs d e);
  counted = refl;
}

dump_duplicates-Counts : (d : Dups) → IsCounted d → Counts 0 d (dump_duplicates d)
unfolding dump_duplicates
dump_duplicates-Counts d counted = dump_array-Counts d d.dup_recs_array counted refl

-- The duplicates at the start of the daemon.
abbrev pub no_dups : List Bool → Dups
no_dups flags = record {
  dup_recs_array = none;
  pending = 0;
  in_use = flags;
  equality_next = 0;
  discards = [];
}

-- The runs of the daemon on one log, with the number of records that have been dropped: records
-- come in, time passes, and the duplicates are dumped, under settings that may change.
pub data Runs (flags : List Bool) : ℕ → Dups → Type 0 where
  start : Runs flags 0 (no_dups flags)
  record_in :
      {n : ℕ} {d : Dups} (s : Settings) (now : ℕ) (rhdr : Bytes) (buf_index : ℕ)
      → Runs flags n d
      → Runs flags
          (n + one_if (drop_dup_record s now rhdr buf_index d).0)
          (drop_dup_record s now rhdr buf_index d).1
  time_passes :
      {n : ℕ} {d : Dups} (s : Settings) (now tv : ℕ)
      → Runs flags n d
      → Runs flags n (check_timeout s now d tv).0
  dumped : {n : ℕ} {d : Dups} → Runs flags n d → Runs flags n (dump_duplicates d)

-- In every run of the daemon, the records that have been dropped are those that the events about
-- discarded duplicates have reported and those that are pending, and `dup_count` of the log is the
-- sum of the counts of the elements.
pub Runs-accounted :
    (flags : List Bool) (n : ℕ) (d : Dups)
    → Runs flags n d
    → (reported d.discards + d.pending ≡ n) × (d.pending ≡ total (elements d.dup_recs_array))
Runs-accounted flags n d start = (omega arith, refl)
Runs-accounted flags n d (record_in {n = m} {d = d'} s now rhdr buf_index run) =
    let ih = Runs-accounted flags m d' run in
    let c = drop_dup_record-Counts s now rhdr buf_index d' ih.1 in
    (omega (arith, ih.0, c.balanced), c.counted)
Runs-accounted flags n d (time_passes {n = m} {d = d'} s now tv run) =
    let ih = Runs-accounted flags m d' run in
    let c = check_timeout-Counts s now tv d' ih.1 in (omega (arith, ih.0, c.balanced), c.counted)
Runs-accounted flags n d (dumped {n = m} {d = d'} run) =
    let ih = Runs-accounted flags m d' run in
    let c = dump_duplicates-Counts d' ih.1 in (omega (arith, ih.0, c.balanced), c.counted)
