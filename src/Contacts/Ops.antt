-- ===== src/Contacts/Ops.antt =====
-- Any use of the address book: the methods of contacts/store.go that change it, each with what the disk
-- does and the time.
use llama_labels.Common.{ℕ, String, Bool, Option, none, some, List, [], ◌∷◌, ◌≡◌, ◌⊎◌}
use llama_labels.Common.Lists.{find_first}
use llama_labels.Disk.{Io, holds}
use llama_labels.Document.Runs.{left_by, transact-file}
use llama_labels.Contacts.{Contact, ContactsFile, Store, has_uid}
use llama_labels.Contacts.Operations.{
  upsert, upsert_with_precondition, upsert_locked, upsert_checked, delete, delete_in,
  ContactPrecondition,
}
use llama_labels.Contacts.Operations.SelfFlag.{set_self, set_self_in}
use llama_labels.Contacts.Operations.Changes.{gc, gc_in, or_default}

pub data Op : Type 0 where
  upserts : Option String → Contact → Op
  checks : Option String → Contact → ContactPrecondition → Op
  deletes : String → Op
  flags : String → Bool → Op
  collects : ℕ → Op

abbrev pub step : Io → ℕ → Store → Op → Store
step io now s (upserts uuid c) = (upsert io now s uuid c).1
step io now s (checks uuid c pre) = (upsert_with_precondition io now s uuid c pre).1
step io now s (deletes uid) = (delete io now s uid).1
step io now s (flags uid self) = (set_self io now s uid self).1
step io now s (collects retention) = (gc io now s retention).1

abbrev pub run : Store → List (Io × (ℕ × Op)) → Store
run s [] = s
run s ((io, (now, op)) ∷ ops) = run (step io now s op) ops

-- The file that the operation makes of one that it reads, if the write succeeds.
abbrev pub made : ℕ → Op → ContactsFile → ContactsFile
made now (upserts uuid c) d = left_by d (upsert_locked now uuid c d)
made now (checks uuid c pre) d = left_by d (upsert_checked now uuid c pre d)
made now (deletes uid) d = left_by d (delete_in now uid d)
made now (flags uid self) d = left_by d (set_self_in now uid self d)
made now (collects retention) d = left_by d (gc_in now (or_default retention) d)

pub step-file :
    (io : Io) (now : ℕ) (s : Store) (op : Op) (d : ContactsFile)
    → s.file ≡ holds d
    → ((step io now s op).file ≡ holds d) ⊎ ((step io now s op).file ≡ holds (made now op d))
unfolding upsert upsert_with_precondition delete set_self gc
step-file io now s (upserts uuid c) d h = transact-file io s d (upsert_locked now uuid c) h
step-file io now s (checks uuid c pre) d h = transact-file io s d (upsert_checked now uuid c pre) h
step-file io now s (deletes uid) d h = transact-file io s d (delete_in now uid) h
step-file io now s (flags uid self) d h = transact-file io s d (set_self_in now uid self) h
step-file io now s (collects retention) d h =
    transact-file io s d (gc_in now (or_default retention)) h

abbrev pub IsNew : Option String → List Contact → Type 0
IsNew none contacts = Unit
IsNew (some uid) contacts = find_first (has_uid uid) contacts ≡ none

-- The UUID that a creation draws is not in use.
abbrev pub DrawsNew : Op → ContactsFile → Type 0
DrawsNew (upserts uuid c) d = IsNew uuid d.contacts
DrawsNew (checks uuid c pre) d = IsNew uuid d.contacts
DrawsNew op d = Unit
