-- ===== src/CommandLine/Trim.antt =====
-- user/lib/util/evl_common.c: what `_evlTrim` leaves of a text.
use evlog.Prelude.{
  All, ℕ, Bool, true, false, not, ◌&&◌, none, some, [], ◌∷◌, ◌++◌, Text, ◌≡◌, refl, sym, ap, ◌∙◌,
  arith, Bool-cases, ◌⊎◌, inl, inr,
}
use mathlib.Core.Path.{subst}
use evlog.CommandLine.{is_blank, is_nil, skip_blanks, drop_trailing, trim_end, evl_trim}

abbrev pub AreBlanks : Text → Type 0
AreBlanks s = All (λ c. is_blank c ≡ true) s

-- Whether a text begins, or ends, with a character that is not blank.
abbrev pub starts : Text → Bool
starts [] = false
starts (c ∷ s) = not (is_blank c)

abbrev pub ends : Text → Bool
ends [] = false
ends (c ∷ []) = not (is_blank c)
ends (c ∷ d ∷ s) = ends (d ∷ s)

-- A part of a text with only blanks on both sides of it, and none at its ends.
pub record IsCore (s t : Text) : Type 0 where
  pub before : Text
  pub after : Text
  pub parts : s ≡ before ++ (t ++ after)
  pub blank_before : AreBlanks before
  pub blank_after : AreBlanks after
  pub starts_well : starts t ≡ true
  pub ends_well : ends t ≡ true

-- Blanks in front of a text that starts with none.
skipped : (s : Text) → (bs : Text) × (s ≡ bs ++ skip_blanks s) × AreBlanks bs
unfolding skip_blanks
skipped [] = ([], refl, tt)
skipped (c ∷ s) = elim (Bool-cases (is_blank c)) [
  | inl p ↦ let (bs, q, h) = skipped s in (c ∷ bs, rw p (ap (λ t. c ∷ t) q), (p, h))
  | inr p ↦ ([], rw p refl, tt)
]

skipped-starts : (s : Text) → (skip_blanks s ≡ []) ⊎ (starts (skip_blanks s) ≡ true)
unfolding skip_blanks
skipped-starts [] = inl refl
skipped-starts (c ∷ s) = elim (Bool-cases (is_blank c)) [
  | inl p ↦ rw p (skipped-starts s)
  | inr p ↦ rw p (inr (rw p refl))
]

nil_of_is_nil : (s : Text) → is_nil s ≡ true → s ≡ []
unfolding is_nil
nil_of_is_nil [] h = refl
nil_of_is_nil (c ∷ s) h = cc

-- Blanks behind the text that is kept.
dropped : (s : Text) → (bs : Text) × (s ≡ drop_trailing s ++ bs) × AreBlanks bs
unfolding drop_trailing
dropped [] = ([], refl, tt)
dropped (c ∷ s) =
    let (bs, q, h) = dropped s in
    elim (Bool-cases (is_nil (drop_trailing s) && is_blank c)) [
      | inl p ↦
          let e = nil_of_is_nil (drop_trailing s) (ground arith) in
          (c ∷ bs, rw p (ap (λ t. c ∷ t) (q ∙ ap (λ t. t ++ bs) e)), (ground arith, h))
      | inr p ↦ (bs, rw p (ap (λ t. c ∷ t) q), h)
    ]

ends-cons : (c : ℕ) (t : Text) → ends t ≡ true → ends (c ∷ t) ≡ true
ends-cons c [] h = cc
ends-cons c (d ∷ t) h = h

dropped-ends : (s : Text) → (drop_trailing s ≡ []) ⊎ (ends (drop_trailing s) ≡ true)
unfolding drop_trailing is_nil
dropped-ends [] = inl refl
dropped-ends (c ∷ s) = elim (Bool-cases (is_nil (drop_trailing s) && is_blank c)) [
  | inl p ↦ rw p (inl refl)
  | inr p ↦ rw p (
      inr (elim (dropped-ends s) [
        | inl e ↦ let b = rw e at p in rw (e, b) refl
        | inr h ↦ ends-cons c (drop_trailing s) h
      ]))
]

dropped-starts :
    (c : ℕ) (s : Text) → is_blank c ≡ false → drop_trailing (c ∷ s) ≡ c ∷ drop_trailing s
unfolding drop_trailing
dropped-starts c s h = elim (Bool-cases (is_nil (drop_trailing s) && is_blank c)) [
  | inl p ↦ absurd (ground arith)
  | inr p ↦ rw p refl
]

append_nil : (s : Text) → s ++ [] ≡ s
append_nil [] = refl
append_nil (c ∷ s) = ap (λ t. c ∷ t) (append_nil s)

ends-drop_trailing : (c : ℕ) (s : Text) → is_blank c ≡ false → ends (drop_trailing (c ∷ s)) ≡ true
ends-drop_trailing c s h = elim (dropped-ends (c ∷ s)) [
  | inl e ↦ absurd (let e' = sym (dropped-starts c s h) ∙ e in cc)
  | inr k ↦ k
]

starts-drop_trailing :
    (c : ℕ) (s : Text) → is_blank c ≡ false → starts (drop_trailing (c ∷ s)) ≡ true
starts-drop_trailing c s h = rw (dropped-starts c s h) (rw h refl)

trim_end-IsCore :
    (s bs u : Text)
    → s ≡ bs ++ u
    → AreBlanks bs
    → (u ≡ []) ⊎ (starts u ≡ true)
    → ((t : Text) × (trim_end u ≡ some t) × IsCore s t) ⊎ ((trim_end u ≡ none) × AreBlanks s)
unfolding trim_end
trim_end-IsCore s bs [] p h k = inr (refl, subst AreBlanks (sym (p ∙ append_nil bs)) h)
trim_end-IsCore s bs (c ∷ u) p h (inl e) = absurd (cc e)
trim_end-IsCore s bs (c ∷ u) p h (inr k) =
    let (after, q, blank) = dropped (c ∷ u) in
    let solid : is_blank c ≡ false = ground arith in
    inl (
      drop_trailing (c ∷ u),
      refl,
      record {
        before = bs;
        after = after;
        parts = p ∙ ap (λ v. bs ++ v) q;
        blank_before = h;
        blank_after = blank;
        starts_well = starts-drop_trailing c u solid;
        ends_well = ends-drop_trailing c u solid;
      },
    )

-- `_evlTrim` leaves the text less the blanks at its two ends. In a text that has nothing but blanks
-- it reads in front of the buffer.
pub evl_trim-IsCore :
    (s : Text)
    → ((t : Text) × (evl_trim s ≡ some t) × IsCore s t) ⊎ ((evl_trim s ≡ none) × AreBlanks s)
unfolding evl_trim
evl_trim-IsCore s =
    let (bs, q, h) = skipped s in trim_end-IsCore s bs (skip_blanks s) q h (skipped-starts s)
