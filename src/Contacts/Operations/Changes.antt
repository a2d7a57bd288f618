-- ===== src/Contacts/Operations/Changes.antt =====
-- contacts/store.go: ChangedSince, which sync clients follow, and GC, which forgets old tombstones.
use llama_labels.Common.{
  ℕ, ◌+◌, ◌*◌, Bool, false, not, ◌&&◌, ◌||◌, List, [], ◌∷◌, ltb, leb, if◌then◌else◌, keep,
}
use llama_labels.Common.Stamps.{Stamp, at, text, second}
use llama_labels.Disk.{Io}
use llama_labels.Document.{answer, save, transact, peek}
use llama_labels.Lockout.{minute}
use llama_labels.Contacts.{Contact, ContactsFile, Store, Result, Change}

pub record Delta : Type 0 where
  pub changed : List Contact
  pub deleted : List Contact
  pub cursor : ℕ
  pub too_old : Bool

abbrev pub delta_of : ℕ → ContactsFile → Delta
delta_of rev d =
    let too_old = ltb 0 rev && ltb rev d.gc_high_water_rev in
    record {
      changed = if too_old then [] else keep (λ c. ltb rev c.rev && not c.deleted) d.contacts;
      deleted = if too_old then [] else keep (λ c. ltb rev c.rev && c.deleted) d.contacts;
      cursor = d.seq;
      too_old = too_old;
    }

unfoldable pub changed_since : Io → Store → ℕ → Delta × Store
changed_since io s rev = let s' = peek io s in (delta_of rev s'.memory, s')

abbrev pub default_tombstone_retention : ℕ
default_tombstone_retention = 30 * (24 * (60 * minute))

-- `updatedAt.Before(now - retention)`, with the retention moved to the other side.
abbrev pub is_before : ℕ → ℕ → Stamp → Bool
is_before now retention (at t) = ltb (t * second + retention) now
is_before now retention (text s) = false

abbrev pub is_expired : ℕ → ℕ → Contact → Bool
is_expired now retention c = c.deleted && is_before now retention c.updated_at

-- The highest revision that is purged, or the mark so far.
abbrev pub high_water : ℕ → ℕ → ℕ → List Contact → ℕ
high_water now retention mark [] = mark
high_water now retention mark (c ∷ cs) =
    high_water now retention (if is_expired now retention c && ltb mark c.rev then c.rev else mark)
      cs

abbrev pub retained : ℕ → ℕ → List Contact → List Contact
retained now retention contacts = keep (λ c. not (is_expired now retention c)) contacts

abbrev pub any_expired : ℕ → ℕ → List Contact → Bool
any_expired now retention [] = false
any_expired now retention (c ∷ cs) = is_expired now retention c || any_expired now retention cs

abbrev pub gc_in : ℕ → ℕ → ContactsFile → Change (Unit {0})
gc_in now retention d =
    if any_expired now retention d.contacts
    then save tt (record d {
      contacts = retained now retention d.contacts;
      gc_high_water_rev = high_water now retention d.gc_high_water_rev d.contacts;
    })
    else answer tt

-- A retention of 0 stands for any that is not positive.
abbrev pub or_default : ℕ → ℕ
or_default retention = if leb retention 0 then default_tombstone_retention else retention

unfoldable pub gc : Io → ℕ → Store → ℕ → Result (Unit {0}) × Store
gc io now s retention = transact io s (gc_in now (or_default retention))
