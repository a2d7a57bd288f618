-- ===== src/Contacts/Guarded.antt =====
-- contacts/store.go, UpsertWithPrecondition against a file that others write too.
use llama_labels.Common.{
  ℕ, ◌+◌, String, ◌≡◌, ◌≢◌, refl, true, false, ◌||◌, ◌&&◌, Option, none, some, ◌==◌, if◌then◌else◌,
  Bool-cases, inl, inr, arith, ◌⊎◌,
}
use llama_labels.Common.Stamps.{stamp, is_empty}
use llama_labels.Disk.{Io, holds, write_failed}
use llama_labels.Document.{changed, transact}
use llama_labels.Document as Document
use llama_labels.Contacts.{Contact, ContactsFile, Store, Result, precondition_failed}
use llama_labels.Contacts.Operations.{
  ContactPrecondition, upsert_with_precondition, upsert_locked, for_rev, is_live, etag_differs,
}
use llama_labels.Contacts.Finds.{find, find-replace}

-- A live contact where none is to be, or no contact with the revision.
abbrev pub IsUnmet : ContactsFile → String → ContactPrecondition → ℕ → Type 0
IsUnmet d uid pre rev =
    ((pre.require_absent && is_live (find uid d.contacts)) ≡ true)
    ⊎ ((x : Contact) → find uid d.contacts ≡ some x → x.rev ≢ rev)

module _ (io : Io) (now : ℕ) (d : ContactsFile) (c : Contact) where
  -- The contact that `c` makes of `x`: it keeps whether it is the user's own, and the time of its creation
  -- where `c` has none.
  abbrev pub overwritten : Contact → Contact
  overwritten x = record c {
    rev = d.seq + 1;
    deleted = false;
    updated_at = stamp now;
    created_at = if is_empty c.created_at then x.created_at else c.created_at;
    is_self = x.is_self;
  }

  -- The new document is in memory and on disk, and has `written` for the UID and otherwise what it had.
  abbrev pub HasWritten : Contact → Store → Type 0
  HasWritten written s =
      (s.file ≡ holds s.memory)
      × ((s.memory.seq ≡ d.seq + 1)
          × ((uid : String)
              → find uid s.memory.contacts
                ≡ (if c.uid == uid then some written else find uid d.contacts)))

  module _ (pre : ContactPrecondition) (rev : ℕ) where
    -- The write is refused, with the reason, and leaves the file; or the contact on file has the revision and
    -- is overwritten.
    abbrev pub IsGuarded : Result Contact × Store → Type 0
    IsGuarded (Document.err e, s) =
        (s.file ≡ holds d)
        × (((e ≡ Document.disk write_failed) × (io.can_write ≡ false))
            ⊎ ((e ≡ Document.failure precondition_failed) × IsUnmet d c.uid pre rev))
    IsGuarded (Document.ok written, s) =
        (x : Contact) × ((find c.uid d.contacts ≡ some x)
          × ((x.rev ≡ rev) × ((written ≡ overwritten x) × HasWritten written s)))

    written-IsGuarded :
        (uuid : Option String) (x : Contact)
        → find c.uid d.contacts ≡ some x
        → x.rev ≡ rev
        → (c.uid == "") ≡ false
        → IsGuarded
            (changed io (record { memory = d; file = holds d }) (upsert_locked now uuid c d))
    written-IsGuarded uuid x found same named = elim (Bool-cases io.can_write) [
      | inl w ↦
          simp (named, found, w)
            (
              x,
              (
                refl,
                (
                  same,
                  (
                    refl,
                    (
                      refl,
                      (refl, λ uid. find-replace uid c.uid (overwritten x) x d.contacts found refl),
                    ),
                  ),
                ),
              ),
            )
      | inr w ↦ simp (named, found, w) (refl, inl (refl, refl))
    ]

etag-is_met :
    (rev : ℕ) (o : Option Contact)
    → etag_differs (some (for_rev rev)) o ≡ false
    → (x : Contact) × ((o ≡ some x) × (x.rev ≡ rev))
etag-is_met rev none h = ground arith
etag-is_met rev (some x) h = (x, (refl, ground (arith, h)))

etag-is_missed :
    (rev : ℕ) (o : Option Contact)
    → etag_differs (some (for_rev rev)) o ≡ true
    → (x : Contact) → o ≡ some x
    → x.rev ≢ rev
etag-is_missed rev none h x e = ground (arith, e)
etag-is_missed rev (some y) h x e = ground (arith, h, e)

refused-IsUnmet :
    (d : ContactsFile) (c : Contact) (pre : ContactPrecondition) (rev : ℕ)
    → pre.require_etag ≡ some (for_rev rev)
    → ((pre.require_absent && is_live (find c.uid d.contacts))
        || etag_differs pre.require_etag (find c.uid d.contacts))
      ≡ true
    → IsUnmet d c.uid pre rev
refused-IsUnmet d c pre rev asks h =
    elim (Bool-cases (pre.require_absent && is_live (find c.uid d.contacts))) [
      | inl there ↦ inl there
      | inr gone ↦
          let missed : etag_differs (some (for_rev rev)) (find c.uid d.contacts) ≡ true =
            rw (gone, asks) at h in
          inr (etag-is_missed rev (find c.uid d.contacts) missed)
    ]

-- A conditional write of a contact with a UID, which asks for the ETag of a revision, on a readable file. Where
-- it fails it leaves the file as it was, and either the disk refuses the write, or the precondition is not met:
-- the file has no contact of the UID with that revision, or a live one where the write asks for none. Where it
-- succeeds, the file had the contact with that revision; the contact written is the given one with the next
-- revision, the time and what it keeps of the old one; and the new document is in memory and on disk, where a
-- search of the UID finds the contact written, and any other search what it found before.
pub upsert-IsGuarded :
    (io : Io) (now : ℕ) (s : Store) (d : ContactsFile) (uuid : Option String) (c : Contact)
    (pre : ContactPrecondition) (rev : ℕ)
    → s.file ≡ holds d
    → io.can_read ≡ true
    → pre.require_etag ≡ some (for_rev rev)
    → (c.uid == "") ≡ false
    → IsGuarded io now d c pre rev (upsert_with_precondition io now s uuid c pre)
unfolding upsert_with_precondition transact
upsert-IsGuarded io now s d uuid c pre rev h reads asks named =
    elim (Bool-cases (
      (pre.require_absent && is_live (find c.uid d.contacts))
      || etag_differs pre.require_etag (find c.uid d.contacts))) [
        | inl e ↦
            let unmet = refused-IsUnmet d c pre rev asks e in
            rw (h, reads, e) (refl, inr (refl, unmet))
        | inr e ↦
            let met : etag_differs pre.require_etag (find c.uid d.contacts) ≡ false =
              ground (arith, e) in
            let differs : etag_differs (some (for_rev rev)) (find c.uid d.contacts) ≡ false =
              rw asks at met in
            let (x, (found, same)) = etag-is_met rev (find c.uid d.contacts) differs in
            rw (h, reads, e) (written-IsGuarded io now d c pre rev uuid x found same named)
      ]
