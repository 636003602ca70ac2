-- ===== src/LogManagement/Kept.antt =====
-- user/cmd/evlogmgr/evl_logmgmt.c: what a compaction keeps of a log.
use evlog.Prelude.{
  ℕ, ◌+◌, ◌≡◌, sym, ap, ◌∙◌, Bool, true, false, if◌then◌else◌, List, [], ◌∷◌, ◌++◌, All, Text,
  arith,
}
use mathlib.Core.List.{append_assoc}
use evlog.Log.File.{Bytes, success}
use evlog.Log.Layout.{Rec, IsRec, rec_bytes, log_bytes}
use evlog.LogManagement.Records.{matches_for_del}
use evlog.LogManagement.Compact.{Compaction, Run, returns}
use evlog.LogManagement.Rounds.{IsLogged, var_bytes}

pub IsLogged-IsRec : (rs : List Rec) → All IsLogged rs → All IsRec rs
IsLogged-IsRec [] h = tt
IsLogged-IsRec (r ∷ rs) h = (h.0.is_rec, IsLogged-IsRec rs h.1)

module _ (evaluate : Bytes → Bytes → Bool) (msg : Text) where
  -- Whether a record is deleted, what is kept of a log, and how many records are deleted.
  abbrev pub deletes : Rec → Bool
  deletes r = matches_for_del evaluate msg r.head (var_bytes r)

  abbrev pub kept : List Rec → List Rec
  kept [] = []
  kept (r ∷ rs) = let rest = kept rs in if deletes r then rest else r ∷ rest

  abbrev pub deleted : List Rec → ℕ
  deleted [] = 0
  deleted (r ∷ rs) = (if deletes r then 1 else 0) + deleted rs

  -- The loop ends, with `contents` in the file and `n` records deleted.
  pub record Compacts (contents : Bytes) (n : ℕ) (run : Run) : Type 0 where
    pub final : Compaction
    pub outcome : run ≡ returns success final
    pub contents_lem : final.file.contents ≡ contents
    pub counted : final.num_delrec ≡ n

  pub Compacts-eq :
      {contents contents' : Bytes} {n n' : ℕ} {run run' : Run}
      → Compacts contents n run
      → contents ≡ contents'
      → n ≡ n'
      → run' ≡ run
      → Compacts contents' n' run'
  Compacts-eq c e e' e'' = record {
    final = c.final;
    outcome = e'' ∙ c.outcome;
    contents_lem = c.contents_lem ∙ e;
    counted = c.counted ∙ e';
  }

  pub kept-deletes : (r : Rec) (rest : List Rec) → deletes r ≡ true → kept (r ∷ rest) ≡ kept rest
  kept-deletes r rest e = rw e

  pub kept-keeps : (r : Rec) (rest : List Rec) → deletes r ≡ false → kept (r ∷ rest) ≡ r ∷ kept rest
  kept-keeps r rest e = rw e

  pub deleted-deletes :
      (r : Rec) (rest : List Rec) → deletes r ≡ true → deleted (r ∷ rest) ≡ 1 + deleted rest
  deleted-deletes r rest e = rw e

  pub deleted-keeps :
      (r : Rec) (rest : List Rec) → deletes r ≡ false → deleted (r ∷ rest) ≡ deleted rest
  deleted-keeps r rest e = rw e (omega arith)

  -- A record that is kept stands behind those that were kept before.
  pub keep-bytes :
      (first : Bytes) (r : Rec) (rest : List Rec)
      → deletes r ≡ false
      → (first ++ rec_bytes r) ++ log_bytes (kept rest) ≡ first ++ log_bytes (kept (r ∷ rest))
  unfolding log_bytes
  keep-bytes first r rest e =
      append_assoc first (rec_bytes r) (log_bytes (kept rest))
      ∙ ap (λ t. first ++ log_bytes t) (sym (kept-keeps r rest e))
