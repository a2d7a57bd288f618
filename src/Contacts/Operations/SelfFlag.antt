-- ===== src/Contacts/Operations/SelfFlag.antt =====
-- contacts/store.go: SetSelf and GetSelf, the caller's own contact card.
use llama_labels.Common.{
  ℕ, ◌+◌, String, Bool, true, false, not, ◌&&◌, Option, none, some, List, [], ◌∷◌, nat_eq,
  if◌then◌else◌, ◌==◌,
}
use llama_labels.Common.Lists.{find_first, replace_first}
use llama_labels.Common.Stamps.{stamp}
use llama_labels.Disk.{Io}
use llama_labels.Document.{answer, fail, save, transact}
use llama_labels.Document as Document
use llama_labels.Contacts.{Contact, ContactsFile, Store, Result, Change, has_uid}

-- The flag of one contact, with the revision after `seq`.
abbrev pub flagged : ℕ → Bool → ℕ → Contact → Contact
flagged now self seq c = record c { is_self = self; rev = seq + 1; updated_at = stamp now }

abbrev pub cleared : ℕ → ℕ → Contact → Contact
cleared now seq c = if c.is_self then flagged now false seq c else c

abbrev pub taken : ℕ → Contact → ℕ
taken seq c = if c.is_self then seq + 1 else seq

-- The flag is cleared from every contact, and from every contact but the first with the UID; each change
-- takes a revision, from `seq` on.
unfoldable pub clear_all : ℕ → ℕ → List Contact → List Contact × ℕ
clear_all now seq [] = ([], seq)
clear_all now seq (c ∷ cs) =
    let (rest, last) = clear_all now (taken seq c) cs in (cleared now seq c ∷ rest, last)

unfoldable pub clear_others : ℕ → String → ℕ → List Contact → List Contact × ℕ
unfolding clear_all
clear_others now uid seq [] = ([], seq)
clear_others now uid seq (c ∷ cs) =
    let (others, last) = clear_others now uid (taken seq c) cs in
    let (all, end) = clear_all now seq cs in
    if c.uid == uid then (c ∷ all, end) else (cleared now seq c ∷ others, last)

abbrev pub same_flag : Bool → Bool → Bool
same_flag true b = b
same_flag false b = not b

-- The contact itself, once the others are cleared. Every change takes a revision, so nothing changed if
-- none was taken.
abbrev pub set_target :
    ℕ → String → Bool → ContactsFile → Contact → List Contact × ℕ → Change (Option Contact)
set_target now uid self d target (contacts, seq) =
    if same_flag target.is_self self
    then (if nat_eq seq d.seq
        then answer (some target)
        else save (some target) (record d { contacts = contacts; seq = seq }))
    else save (some (flagged now self seq target)) (record d {
      contacts = replace_first (has_uid uid) (flagged now self seq target) contacts;
      seq = seq + 1;
    })

abbrev pub setting_self :
    ℕ → String → Bool → ContactsFile → Option Contact → Change (Option Contact)
setting_self now uid self d none = answer none
setting_self now uid self d (some target) =
    set_target now uid self d target
      (if self then clear_others now uid d.seq d.contacts else (d.contacts, d.seq))

abbrev pub set_self_in : ℕ → String → Bool → ContactsFile → Change (Option Contact)
set_self_in now uid self d = setting_self now uid self d (find_first (has_uid uid) d.contacts)

-- `none` stands for a contact that is not there.
unfoldable pub set_self : Io → ℕ → Store → String → Bool → Result (Option Contact) × Store
unfolding clear_others
set_self io now s uid self = transact io s (set_self_in now uid self)

-- A failed read answers that there is none.
abbrev pub self_of : Result (Option Contact) → Option Contact
self_of (Document.ok o) = o
self_of (Document.err e) = none

abbrev pub find_self : ContactsFile → Change (Option Contact)
find_self d = answer (find_first (λ c. c.is_self && not c.deleted) d.contacts)

unfoldable pub get_self : Io → Store → Option Contact × Store
get_self io s = let (r, s') = transact io s find_self in (self_of r, s')
