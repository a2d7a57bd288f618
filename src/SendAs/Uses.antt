-- ===== src/SendAs/Uses.antt =====
-- Any use of the alias store: the methods of sendas/store.go that change it, each with what the disk does
-- and the time.
use llama_labels.Common.{ℕ, String, Option, List, [], ◌∷◌, All}
use llama_labels.Disk.{Io}
use llama_labels.Document.Runs.{IsSound}
use llama_labels.SendAs.{
  AliasesFile, Store, create, mark_verified, mark_failed, delete, sweep_terminal,
}

pub data Use : Type 0 where
  creates : Option String → Option String → String → String → String → Use
  verifies : String → Use
  fails : String → Use
  deletes : String → Use
  sweeps : ℕ → Use

abbrev pub step : (String → String) → Io → ℕ → Store → Use → Store
step to_lower io now s (creates uuid code user_id email name) =
    (create to_lower io now s uuid code user_id email name).1
step to_lower io now s (verifies id) = (mark_verified io now s id).1
step to_lower io now s (fails id) = (mark_failed io now s id).1
step to_lower io now s (deletes id) = (delete io s id).1
step to_lower io now s (sweeps retention) = (sweep_terminal io now s retention).1

abbrev pub Uses : Type 0
Uses = List (Io × (ℕ × Use))

abbrev pub run : (String → String) → Store → Uses → Store
run to_lower s [] = s
run to_lower s ((io, (now, use_)) ∷ uses) = run to_lower (step to_lower io now s use_) uses

-- A property of the file that every use but those that are excluded keeps.
module _ (to_lower : String → String) (P : AliasesFile → Type 0) (IsOther : Use → Type 0) where
  abbrev pub KeepsEach : Type 0
  KeepsEach =
      (io : Io) (now : ℕ) (s : Store) (use_ : Use)
      → IsOther use_
      → IsSound P s
      → IsSound P (step to_lower io now s use_)

  pub run-IsSound :
      (s : Store) (uses : Uses)
      → KeepsEach
      → All (λ u. IsOther u.1.1) uses
      → IsSound P s
      → IsSound P (run to_lower s uses)
  run-IsSound s [] keeps other h = h
  run-IsSound s ((io, (now, use_)) ∷ uses) keeps other h =
      run-IsSound (step to_lower io now s use_) uses keeps other.1 (keeps io now s use_ other.0 h)
