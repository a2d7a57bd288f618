-- ===== src/Contacts/Operations.antt =====
-- contacts/store.go: the operations. `uuid` is a fresh UUID, or `none` where the random source fails; an
-- ETag is the revision that it is made of, or any other text.
pub mod SelfFlag
pub mod Changes
use llama_labels.Common.{
  ℕ, ◌+◌, String, Bool, true, false, not, ◌&&◌, ◌||◌, Option, none, some, List, [], ◌∷◌, ◌++◌,
  nat_eq, if◌then◌else◌, ◌==◌, keep,
}
use llama_labels.Common.Lists.{find_first, replace_first}
use llama_labels.Common.Stamps.{stamp, is_empty}
use llama_labels.Disk.{File, Io}
use llama_labels.Document.{answer, fail, save, transact, peek}
use llama_labels.Document as Document
use llama_labels.Contacts.{
  Contact, ContactsFile, Store, no_entropy, precondition_failed, Result, Change, has_uid, tombstone,
}

abbrev pub empty_file : ContactsFile
empty_file = record { contacts = []; seq = 0; gc_high_water_rev = 0 }

unfoldable pub new : Io → File ContactsFile → Document.Result (Unit {0}) (Unit {0}) × Store
new io file = Document.new empty_file io file

unfoldable pub list : Io → Store → List Contact × Store
list io s = let s' = peek io s in (keep (λ c. not c.deleted) s'.memory.contacts, s')

-- A tombstone is found too.
unfoldable pub get : Io → Store → String → Option Contact × Store
get io s uid = let s' = peek io s in (find_first (has_uid uid) s'.memory.contacts, s')

-- The contact with the next revision.
abbrev pub revised : ℕ → ContactsFile → Contact → Contact
revised now d c = record c { rev = d.seq + 1; deleted = false; updated_at = stamp now }

abbrev pub with_contacts : ContactsFile → List Contact → ContactsFile
with_contacts d contacts = record d { contacts = contacts; seq = d.seq + 1 }

abbrev pub created : ℕ → ContactsFile → Option String → Contact → Change Contact
created now d none c = fail no_entropy (record d { seq = d.seq + 1 })
created now d (some uid) c =
    let c' = record c { uid = uid; created_at = stamp now } in
    save c' (with_contacts d (d.contacts ++ c' ∷ []))

abbrev pub placed : ℕ → ContactsFile → Contact → Option Contact → Change Contact
placed now d c none =
    let c' = record c { created_at = stamp now } in
    save c' (with_contacts d (d.contacts ++ c' ∷ []))
placed now d c (some existing) =
    let c' = record c {
      created_at = if is_empty c.created_at then existing.created_at else c.created_at;
      is_self = existing.is_self;
    } in
    save c' (with_contacts d (replace_first (has_uid c.uid) c' d.contacts))

abbrev pub upsert_locked : ℕ → Option String → Contact → ContactsFile → Change Contact
upsert_locked now uuid c d =
    if c.uid == ""
    then created now d uuid (revised now d c)
    else placed now d (revised now d c) (find_first (has_uid c.uid) d.contacts)

unfoldable pub upsert : Io → ℕ → Store → Option String → Contact → Result Contact × Store
upsert io now s uuid c = transact io s (upsert_locked now uuid c)

pub data ETag : Type 0 where
  for_rev : ℕ → ETag
  other : String → ETag

pub record ContactPrecondition : Type 0 where
  pub require_absent : Bool
  pub require_etag : Option ETag

abbrev pub is_live : Option Contact → Bool
is_live none = false
is_live (some c) = not c.deleted

abbrev pub etag_differs : Option ETag → Option Contact → Bool
etag_differs none existing = false
etag_differs (some e) none = true
etag_differs (some (for_rev rev)) (some c) = not (nat_eq c.rev rev)
etag_differs (some (other t)) (some c) = true

abbrev pub upsert_checked :
    ℕ → Option String → Contact → ContactPrecondition → ContactsFile → Change Contact
upsert_checked now uuid c pre d =
    let existing = find_first (has_uid c.uid) d.contacts in
    if (pre.require_absent && is_live existing) || etag_differs pre.require_etag existing
    then fail precondition_failed d
    else upsert_locked now uuid c d

unfoldable pub upsert_with_precondition :
    Io → ℕ → Store → Option String → Contact → ContactPrecondition → Result Contact × Store
upsert_with_precondition io now s uuid c pre = transact io s (upsert_checked now uuid c pre)

abbrev pub buried : ℕ → ContactsFile → Contact → Contact
buried now d c = record (tombstone c) { rev = d.seq + 1; updated_at = stamp now }

abbrev pub deleting : ℕ → String → ContactsFile → Option Contact → Change Bool
deleting now uid d none = answer false
deleting now uid d (some c) =
    save true (with_contacts d (replace_first (has_uid uid) (buried now d c) d.contacts))

abbrev pub delete_in : ℕ → String → ContactsFile → Change Bool
delete_in now uid d = deleting now uid d (find_first (has_uid uid) d.contacts)

unfoldable pub delete : Io → ℕ → Store → String → Result Bool × Store
delete io now s uid = transact io s (delete_in now uid)
