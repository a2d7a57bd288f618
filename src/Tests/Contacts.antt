-- ===== src/Tests/Contacts.antt =====
-- Runs of the address book and the instances of its theorems.
use llama_labels.Common.{ℕ, String, ◌≡◌, refl, true, false, none, some, List, [], ◌∷◌, arith}
use llama_labels.Common.Stamps.{text}
use llama_labels.Common.Lists.{find_first, replace_first}
use llama_labels.Disk.{Io, holds}
use llama_labels.Document.{peek, transact}
use llama_labels.Contacts.{Contact, ContactsFile, Store}
use llama_labels.Contacts.Operations.{
  ContactPrecondition, for_rev, get, delete, upsert, upsert_with_precondition,
}
use llama_labels.Contacts.Operations.SelfFlag.{set_self, clear_all, clear_others}
use llama_labels.Contacts.Operations.Changes.{changed_since, gc}
use llama_labels.Contacts.Ops.{Op, upserts, deletes, flags, collects, run}
use llama_labels.Contacts.Sync.{live, patched, sync-converges}
use llama_labels.Contacts.Self.{IsAlone, set_self-IsAlone}
use llama_labels.Contacts.Guarded.{IsGuarded, upsert-IsGuarded}

abbrev good_disk : Io
good_disk = record { can_read = true; can_write = true }

abbrev contact : String → ℕ → Contact
contact uid rev = record {
  uid = uid;
  rev = rev;
  deleted = false;
  created_at = text "";
  updated_at = text "";
  is_self = false;
  formatted_name = "Ann";
  given_name = "";
  family_name = "";
  middle_name = "";
  prefix = "";
  suffix = "";
  nickname = "";
  org = "";
  title = "";
  emails = [];
  phones = [];
  addresses = [];
  notes = "";
  birthday = "";
  photo_ref = "";
  group_ids = [];
  pgp_key = "";
  ims = [];
  websites = [];
  relations = [];
  events = [];
  phonetic_given_name = "";
  phonetic_family_name = "";
  department = "";
  custom_fields = [];
  pronouns = "";
  merged_uids = [];
  merged_into = "";
}

abbrev book : ContactsFile
book = record { contacts = contact "a" 1 ∷ contact "b" 2 ∷ []; seq = 2; gc_high_water_rev = 0 }

abbrev started : Store
started = record { memory = book; file = holds book }

abbrev busy : List (Io × (ℕ × Op))
busy =
    (good_disk, (10, deletes "a"))
    ∷ (good_disk, (20, upserts (some "c") (contact "" 0)))
    ∷ (good_disk, (30, flags "b" true))
    ∷ (good_disk, (40, collects 1000))
    ∷ []

sync-converges_example :
    patched "a" (changed_since good_disk (run started busy) 2).0 (live (some (contact "a" 1)))
    ≡ live (get good_disk (run started busy) "a").0
unfolding upsert transact delete find_first set_self gc replace_first clear_others clear_all
    changed_since peek
sync-converges_example =
    sync-converges "a" started book busy good_disk refl (refl, (refl, tt)) (omega arith)
      (tt, (refl, (tt, (tt, tt)))) refl refl

set_self-IsAlone_example : IsAlone "b" (set_self good_disk 30 started "b" true)
set_self-IsAlone_example =
    set_self-IsAlone good_disk 30 started book "b" (contact "b" 2) refl refl refl
      (unfold find_first in refl)

abbrev if_match : ContactPrecondition
if_match = record { require_absent = false; require_etag = some (for_rev 2) }

upsert-IsGuarded_example :
    IsGuarded good_disk 30 book
      (contact "b" 0)
      if_match
      2
      (upsert_with_precondition good_disk 30 started none (contact "b" 0) if_match)
upsert-IsGuarded_example =
    upsert-IsGuarded good_disk 30 started book none (contact "b" 0) if_match 2 refl refl refl refl
