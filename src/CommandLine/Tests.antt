-- ===== src/CommandLine/Tests.antt =====
-- Runs of the functions on command lines (user/lib/util/evl_common.c).
use evlog.Prelude.{none, some, [], ◌∷◌, Text, codes, ◌≡◌, refl, arith, ◌⊎◌}
use evlog.CommandLine.{split_cmd, evl_trim, is_blank, is_quote}
use evlog.CommandLine.Trim.{IsCore, AreBlanks, evl_trim-IsCore}
use evlog.CommandLine.Split.{join_words, split_cmd-join_words}

trims : evl_trim (codes "  a b ") ≡ some (codes "a b")
unfolding evl_trim
trims = refl

-- A word in quotes keeps its blanks.
splits : split_cmd (codes "run 'a b' c") 8 ≡ codes "run" ∷ codes "a b" ∷ codes "c" ∷ []
unfolding split_cmd
splits = refl

-- A quote that is left open loses its word.
left_open : split_cmd (codes "run 'a b") 8 ≡ codes "run" ∷ []
unfolding split_cmd
left_open = refl

evl_trim-IsCore_example :
    ((t : Text) × (evl_trim (codes " a ") ≡ some t) × IsCore (codes " a ") t)
    ⊎ ((evl_trim (codes " a ") ≡ none) × AreBlanks (codes " a "))
evl_trim-IsCore_example = evl_trim-IsCore (codes " a ")

split_cmd-join_words_example :
    split_cmd (join_words (codes "ls") (codes "-l" ∷ codes "/tmp" ∷ [])) 3
    ≡ codes "ls" ∷ codes "-l" ∷ codes "/tmp" ∷ []
unfolding is_blank is_quote
split_cmd-join_words_example =
    split_cmd-join_words (codes "ls") (codes "-l" ∷ codes "/tmp" ∷ []) 3 (refl, (refl, tt))
      ((refl, (refl, tt)), ((refl, (refl, (refl, (refl, tt)))), tt)) (ground arith)
