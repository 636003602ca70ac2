-- ===== src/CommandLine/Split.antt =====
-- user/lib/util/evl_common.c: the words that `_evlSplitCmd` finds.
use evlog.Prelude.{
  All, ℕ, zero, suc, ◌≤◌, ◌<◌, Bool, true, false, not, ◌&&◌, ◌||◌, ◌==◌, List, [], ◌∷◌, ◌++◌, Text,
  length, ◌≡◌, refl, sym, ap, ◌∙◌, arith, Bool-cases, inl, inr,
}
use evlog.CommandLine.{is_blank, is_quote, unquote, flip_at, split_from, split_cmd}

-- Characters with no meaning of their own, and the words that are made of them.
abbrev pub is_plain : ℕ → Bool
is_plain c = not (is_blank c) && not (is_quote c)

abbrev pub IsWord : Text → Type 0
IsWord [] = ⊥
IsWord (c ∷ s) = (is_plain c ≡ true) × All (λ d. is_plain d ≡ true) s

-- The words with a space between one and the next.
abbrev pub join_words : Text → List Text → Text
join_words w [] = w
join_words w (v ∷ ws) = w ++ b' ' ∷ join_words v ws

no_blank : (c : ℕ) → is_plain c ≡ true → is_blank c ≡ false
no_blank c h = ground arith

no_quote : (c : ℕ) → is_plain c ≡ true → is_quote c ≡ false
no_quote c h = ground arith

no_mark : (c : ℕ) → is_plain c ≡ true → ((c == b'"') ≡ false) × ((c == b'\'') ≡ false)
unfolding is_quote
no_mark c h = ground arith

unquote-word : (w : Text) → IsWord w → unquote w ≡ w
unfolding unquote
unquote-word [] h = elim h [ ]
unquote-word (c ∷ s) h = rw (no_quote c h.0) refl

append_snoc : (s : Text) (c : ℕ) (t : Text) → s ++ c ∷ [] ++ t ≡ s ++ (c ∷ t)
append_snoc [] c t = refl
append_snoc (d ∷ s) c t = ap (λ u. d ∷ u) (append_snoc s c t)

-- Plain characters are added to the word.
split_from-plain :
    (room : ℕ) (skipping : Bool) (word : Text) (c : ℕ) (s : Text)
    → is_plain c ≡ true
    → split_from (suc room) skipping false false word (c ∷ s)
      ≡ split_from (suc room) false false false (word ++ c ∷ []) s
unfolding split_from flip_at is_blank is_quote
split_from-plain room skipping word c s h =
    let (dq, sq) = no_mark c h in rw (no_blank c h, dq, sq) refl

append_nil : (s : Text) → s ++ [] ≡ s
append_nil [] = refl
append_nil (c ∷ s) = ap (λ t. c ∷ t) (append_nil s)

split_from-append :
    (room : ℕ) (word w s : Text)
    → All (λ c. is_plain c ≡ true) w
    → split_from (suc room) false false false word (w ++ s)
      ≡ split_from (suc room) false false false (word ++ w) s
split_from-append room word [] s h =
    ap (λ t. split_from (suc room) false false false t s) (sym (append_nil word))
split_from-append room word (c ∷ w) s h =
    split_from-plain room false word c (w ++ s) h.0
    ∙ split_from-append room (word ++ c ∷ []) w s h.1
    ∙ ap (λ t. split_from (suc room) false false false t s) (append_snoc word c w)

split_from-word :
    (room : ℕ) (skipping : Bool) (w s : Text)
    → IsWord w
    → split_from (suc room) skipping false false [] (w ++ s)
      ≡ split_from (suc room) false false false w s
split_from-word room skipping [] s h = elim h [ ]
split_from-word room skipping (c ∷ w) s h =
    split_from-plain room skipping [] c (w ++ s) h.0 ∙ split_from-append room (c ∷ []) w s h.1

-- The end of the text, and the end of a word.
split_from-nil :
    (room : ℕ) (w : Text) → IsWord w → split_from (suc room) false false false w [] ≡ w ∷ []
unfolding split_from
split_from-nil room w h = ap (λ t. t ∷ []) (unquote-word w h)

split_from-space :
    (room : ℕ) (w s : Text)
    → IsWord w
    → split_from (suc room) false false false w (b' ' ∷ s)
      ≡ w ∷ split_from room true false false [] s
unfolding split_from is_blank
split_from-space room w s h = ap (λ t. t ∷ split_from room true false false [] s) (unquote-word w h)

split_from-join_words :
    (room : ℕ) (skipping : Bool) (w : Text) (ws : List Text)
    → IsWord w
    → All IsWord ws
    → length ws ≤ room
    → split_from (suc room) skipping false false [] (join_words w ws) ≡ w ∷ ws
split_from-join_words room skipping w [] h hs k =
    ap (split_from (suc room) skipping false false []) (sym (append_nil w))
    ∙ split_from-word room skipping w [] h
    ∙ split_from-nil room w h
split_from-join_words zero skipping w (v ∷ ws) h hs k = absurd (omega arith)
split_from-join_words (suc room) skipping w (v ∷ ws) h hs k =
    split_from-word (suc room) skipping w (b' ' ∷ join_words v ws) h
    ∙ split_from-space (suc room) w (join_words v ws) h
    ∙ ap (λ us. w ∷ us) (split_from-join_words room true v ws hs.0 hs.1 (omega arith))

-- Words of plain characters with a space between one and the next are found again by
-- `_evlSplitCmd`, when `argv` has room for all of them.
pub split_cmd-join_words :
    (w : Text) (ws : List Text) (n : ℕ)
    → IsWord w
    → All IsWord ws
    → length ws < n
    → split_cmd (join_words w ws) n ≡ w ∷ ws
unfolding split_cmd
split_cmd-join_words w ws zero h hs k = absurd (omega arith)
split_cmd-join_words w ws (suc n) h hs k = split_from-join_words n false w ws h hs (omega arith)

split_from-length :
    (room : ℕ) (skipping dq sq : Bool) (word s : Text)
    → length (split_from room skipping dq sq word s) ≤ room
unfolding split_from
split_from-length zero skipping dq sq word s = omega arith
split_from-length (suc room) skipping dq sq word [] = elim (Bool-cases (dq || sq)) [
  | inl p ↦ rw p (omega arith)
  | inr p ↦ rw p (omega arith)
]
split_from-length (suc room) skipping dq sq word (c ∷ s) =
    elim (Bool-cases (is_blank c && skipping)) [
      | inl p ↦ rw p (split_from-length (suc room) true false false [] s)
      | inr p ↦ rw p (elim (Bool-cases (is_blank c && not (dq || sq))) [
        | inl q ↦ rw q (omega (arith, split_from-length room true false false [] s))
        | inr q ↦ rw q (split_from-length (suc room) false _ _ (word ++ c ∷ []) s)
      ])
    ]

-- `_evlSplitCmd` never writes more words than `argv` has room for.
pub split_cmd-length : (cmdbuf : Text) (n : ℕ) → length (split_cmd cmdbuf n) ≤ n
unfolding split_cmd
split_cmd-length cmdbuf n = split_from-length n false false false [] cmdbuf
