-- ===== src/LogManagement/Generation.antt =====
-- user/cmd/evlogmgr/evl_logmgmt.c: what `setGenerationNumber` makes of a log file.
use evlog.Prelude.{
  ℕ, ◌<◌, ◌^◌, ◌≡◌, refl, sym, ap, ◌∙◌, [], ◌++◌, length, take, drop, drop-append, length-append,
  length-take, length-drop, take-append_within, take-take, slice_part, arith,
}
use mathlib.Core.List.{append_assoc, append-nil}
use evlog.Log.File.{Bytes, File, Status, success, read_bytes, write_bytes}
use evlog.Log.Layout.{
  le_word, le_bytes, le_word-le_bytes, member, header_magic, log_generation, logfile_magic,
}
use evlog.Log.Reading.{read_bytes-Holds}
use evlog.LogManagement.Records.{
  SetGen, gen_reset, gen_incr, gen_even, gen_odd, new_generation, with_generation,
  set_generation_number,
}
use evlog.LogManagement.Moving.{write_bytes-contents}

-- The header of a log file.
pub record IsHeader (header : Bytes) : Type 0 where
  pub size : length header ≡ 40
  pub magic : header_magic header ≡ logfile_magic
  pub word : log_generation header < 2 ^ 32

pub new_generation-lt : (type : SetGen) (g : ℕ) → g < 2 ^ 32 → new_generation type g < 2 ^ 32
unfolding new_generation
new_generation-lt gen_incr g h = omega arith
new_generation-lt gen_reset g h = omega arith
new_generation-lt gen_even g h = ground arith
new_generation-lt gen_odd g h = ground arith

module _ (g : ℕ) (header : Bytes) (v : IsHeader header) where
  length-with_generation : length (with_generation g header) ≡ 40
  unfolding with_generation le_bytes
  length-with_generation = omega (
    arith,
    v.size,
    length-append (take 32 header) (le_bytes 4 g ++ drop 36 header),
    length-append (le_bytes 4 g) (drop 36 header),
    length-take 32 header (omega (arith, v.size)),
    length-drop 36 header,
  )

  -- The generation of a file that begins with the new header.
  pub log_generation-with_generation :
      (rest : Bytes) → g < 2 ^ 32 → log_generation (with_generation g header ++ rest) ≡ g
  unfolding log_generation member with_generation
  log_generation-with_generation rest small =
      ap le_word (
        slice_part (take 32 header) (le_bytes 4 g) (drop 36 header ++ rest) _ 32 4
          (append_assoc (take 32 header) (le_bytes 4 g ++ drop 36 header) rest
            ∙ ap (λ t. take 32 header ++ t) (append_assoc (le_bytes 4 g) (drop 36 header) rest))
          (sym (length-take 32 header (omega (arith, v.size)))) (unfold le_bytes in refl))
      ∙ le_word-le_bytes g small

  header_magic-with_generation : header_magic (with_generation g header) ≡ logfile_magic
  unfolding header_magic member with_generation
  header_magic-with_generation =
      ap le_word (
        take-append_within 4 (take 32 header) (le_bytes 4 g ++ drop 36 header)
          (omega (arith, length-take 32 header (omega (arith, v.size))))
        ∙ take-take 4 32 header (omega arith))
      ∙ v.magic

  pub with_generation-IsHeader : g < 2 ^ 32 → IsHeader (with_generation g header)
  with_generation-IsHeader small = record {
    size = length-with_generation;
    magic = header_magic-with_generation;
    word = omega (
      arith,
      small,
      (ap log_generation (sym (append-nil (with_generation g header)))
          ∙ log_generation-with_generation [] small),
    );
  }

-- What `setGenerationNumber` leaves: the file with the new generation in its header.
pub record Renumbered (type : SetGen) (header rest : Bytes) (o : Status × File) : Type 0 where
  pub file : File
  pub outcome : o ≡ (success, file)
  pub contents_lem :
      file.contents ≡ with_generation (new_generation type (log_generation header)) header ++ rest

pub set_generation_number-Renumbered :
    (type : SetGen) (header rest : Bytes) (f : File)
    → IsHeader header
    → f.contents ≡ header ++ rest
    → Renumbered type header rest (set_generation_number type f)
unfolding set_generation_number
set_generation_number-Renumbered type header rest f v whole =
    let start : File = record f { pos = 0 } in
    let r : read_bytes 40 start ≡ header =
      read_bytes-Holds {before = []} {xs = header} {after = rest} {f = start}
        (record { whole = whole; place = refl }) 40 (sym v.size) in
    let header' = with_generation (new_generation type (log_generation header)) header in
    let behind : drop (length header') (header ++ rest) ≡ rest =
      rw (length-with_generation (new_generation type (log_generation header)) header v, ← v.size)
        (drop-append header rest) in
    record {
      file = write_bytes header' start;
      outcome = rw (r, v.size, v.magic);
      contents_lem =
          write_bytes-contents header' [] (header ++ rest) start whole refl
          ∙ ap (λ t. header' ++ t) behind;
    }
