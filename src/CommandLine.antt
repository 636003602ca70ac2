-- ===== src/CommandLine.antt =====
-- user/lib/util/evl_common.c: command lines of the daemons, split into words and trimmed.
pub mod Trim
pub mod Split
mod Tests
use evlog.Prelude.{
  ℕ, zero, suc, Bool, true, false, not, ◌&&◌, ◌||◌, ◌==◌, if◌then◌else◌, Option, none, some, List,
  [], ◌∷◌, ◌++◌, Text,
}

unfoldable pub is_blank : ℕ → Bool
is_blank c = c == b' ' || c == 9

unfoldable pub is_quote : ℕ → Bool
is_quote c = c == b'\'' || c == b'"'

unfoldable pub is_nil : Text → Bool
is_nil [] = true
is_nil (c ∷ s) = false

unfoldable pub skip_blanks : Text → Text
unfolding is_blank
skip_blanks [] = []
skip_blanks (c ∷ s) = if is_blank c then skip_blanks s else c ∷ s

-- The loop that lowers `len`, from the end of the text.
unfoldable pub drop_trailing : Text → Text
unfolding is_blank is_nil
drop_trailing [] = []
drop_trailing (c ∷ s) =
    let rest = drop_trailing s in if is_nil rest && is_blank c then [] else c ∷ rest

-- The second loop of `_evlTrim` stops at the last character that is not blank. In a text that has
-- none, it goes on to the byte in front of the text: `none`.
unfoldable pub trim_end : Text → Option Text
unfolding drop_trailing
trim_end [] = none
trim_end (c ∷ s) = some (drop_trailing (c ∷ s))

-- `_evlTrim`: the text that is left in the buffer.
unfoldable pub evl_trim : Text → Option Text
unfolding trim_end skip_blanks
evl_trim s = trim_end (skip_blanks s)

unfoldable pub ends_quoted : Text → Bool
unfolding is_quote
ends_quoted [] = false
ends_quoted (c ∷ []) = is_quote c
ends_quoted (c ∷ d ∷ s) = ends_quoted (d ∷ s)

unfoldable pub without_last : Text → Text
without_last [] = []
without_last (c ∷ []) = []
without_last (c ∷ d ∷ s) = c ∷ without_last (d ∷ s)

-- A word, less the quotes around it. A quotation mark alone is never a word, since its quote is
-- open.
unfoldable pub unquote : Text → Text
unfolding is_quote ends_quoted without_last
unquote [] = []
unquote (c ∷ s) = if is_quote c && ends_quoted (c ∷ s) then without_last s else c ∷ s

unfoldable pub flip_at : ℕ → ℕ → Bool → Bool → Bool
flip_at mark c closed is_open = if c == mark && closed then not is_open else is_open

-- The loop of `_evlSplitCmd` with room for so many words: `skipping` is the inner loop over blanks
-- behind a word, `dbquote_open` and `squote_open` are the flags, and `word` is the text from `tmp`
-- to `cmdbuf`.
unfoldable pub split_from : ℕ → Bool → Bool → Bool → Text → Text → List Text
unfolding is_blank unquote flip_at
split_from zero skipping dbquote_open squote_open word s = []
split_from (suc room) skipping dbquote_open squote_open word [] =
    if dbquote_open || squote_open then [] else unquote word ∷ []
split_from (suc room) skipping dbquote_open squote_open word (c ∷ s) =
    let skipped = split_from (suc room) true false false [] s in
    let next_word = split_from room true false false [] s in
    let dq = flip_at b'"' c (not squote_open) dbquote_open in
    let longer =
      split_from (suc room) false dq (flip_at b'\'' c (not dq) squote_open) (word ++ c ∷ []) s in
    if is_blank c && skipping
    then skipped
    else if is_blank c && not (dbquote_open || squote_open)
    then unquote word ∷ next_word
    else longer

-- `_evlSplitCmd`
unfoldable pub split_cmd : Text → ℕ → List Text
unfolding split_from
split_cmd cmdbuf n = split_from n false false false [] cmdbuf
