-- ===== src/Mailcache/Uses.antt =====
-- Any use of the cache: the methods of mailcache/store.go that change it, each with what the disk does.
use llama_labels.Common.{ℕ, String, ◌≡◌, List, [], ◌∷◌, inl, inr}
use llama_labels.Disk.{Io, holds}
use llama_labels.Document.{transact, Change}
use llama_labels.Document.Runs.{transact-file}
use llama_labels.Mailcache.{Entry, Overview}
use llama_labels.Mailcache.Store.{MailCacheFile, Store, sync, upsert}

pub data Use : Type 0 where
  syncs : String → ℕ → List Overview → ℕ → Use
  upserts : String → List Entry → Use

abbrev pub step : (ℕ → String) → Io → Store → Use → Store
step itoa io s (syncs mailbox_key limit live since) =
    (sync itoa io s mailbox_key limit live since).1
step itoa io s (upserts mailbox_key entries) = (upsert io s mailbox_key entries).1

abbrev pub run : (ℕ → String) → Store → List (Io × Use) → Store
run itoa s [] = s
run itoa s ((io, use_) ∷ uses) = run itoa (step itoa io s use_) uses

-- mailcache.json holds windows.
abbrev pub Holding : Store → Type 0
Holding s = (d : MailCacheFile) × (s.file ≡ holds d)

transact-Holding :
    {A : Type 0} (io : Io) (s : Store) (change : MailCacheFile → Change MailCacheFile (Unit {0}) A)
    → Holding s
    → Holding (transact io s change).1
transact-Holding io s change (d, h) = elim (transact-file io s d change h) [
  | inl e ↦ (d, e)
  | inr e ↦ (_, e)
]

pub run-Holding :
    (itoa : ℕ → String) (s : Store) (uses : List (Io × Use)) → Holding s → Holding (run itoa s uses)
unfolding sync upsert
run-Holding itoa s [] h = h
run-Holding itoa s ((io, syncs mailbox_key limit live since) ∷ uses) h =
    run-Holding itoa (step itoa io s (syncs mailbox_key limit live since)) uses
      (transact-Holding io s _ h)
run-Holding itoa s ((io, upserts mailbox_key []) ∷ uses) h = run-Holding itoa s uses h
run-Holding itoa s ((io, upserts mailbox_key (e ∷ entries)) ∷ uses) h =
    run-Holding itoa (step itoa io s (upserts mailbox_key (e ∷ entries))) uses
      (transact-Holding io s _ h)
