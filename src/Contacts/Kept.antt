-- ===== src/Contacts/Kept.antt =====
-- A client's view of one contact against the file, through any operation of contacts/store.go.
use llama_labels.Common.{
  ℕ, ◌+◌, ◌≤◌, String, ◌≡◌, refl, Bool, true, false, ◌&&◌, ◌||◌, Option, none, some, List, [], ◌∷◌,
  ◌++◌, arith, ◌==◌, inl, inr, Bool-cases, nat_eq,
}
use llama_labels.Common.Lists.{replace_first}
use llama_labels.Contacts.{Contact, ContactsFile, has_uid}
use llama_labels.Document.Runs.{left_by}
use llama_labels.Contacts.Operations.{
  is_live, etag_differs, with_contacts, ContactPrecondition, upsert_locked, upsert_checked,
  deleting, created, placed, revised,
}
use llama_labels.Contacts.Operations.SelfFlag.{clear_others, setting_self, set_target, same_flag}
use llama_labels.Contacts.Operations.Changes.{gc_in, any_expired}
use llama_labels.Contacts.Ops.{Op, upserts, checks, deletes, flags, collects, made, DrawsNew, IsNew}
use llama_labels.Contacts.Finds.{
  find, IsDistinct, append-IsDistinct, replace-IsDistinct, keep-IsDistinct, found-uid,
}
use llama_labels.Contacts.Clears.{
  Moved, clear_others-Moved, clear_others-le, clear_others-IsDistinct,
}
use llama_labels.Contacts.Tracked.{
  Follows, append-Follows, replace-Follows, Moved-Follows, retained-Follows,
}
use llama_labels.Contacts.Operations.Changes.{or_default}
use llama_labels.Contacts.Clears.{Moved-refl, clear_others-find}

pub record IsTracked (u : String) (cursor : ℕ) (old : Option Contact) (d : ContactsFile)
    : Type 0 where
  pub bounded : cursor ≤ d.seq
  pub distinct : IsDistinct d.contacts
  pub follows : Follows cursor old (find u d.contacts) d.gc_high_water_rev

module _ (u : String) (cursor : ℕ) (old : Option Contact) where
  abbrev Kept : ContactsFile → Type 0
  Kept d = IsTracked u cursor old d

  appended-Kept :
      (d : ContactsFile) (v : Contact)
      → find v.uid d.contacts ≡ none
      → v.rev ≡ d.seq + 1
      → Kept d
      → Kept (with_contacts d (d.contacts ++ v ∷ []))
  appended-Kept d v new e t = record {
    bounded = omega (arith, t.bounded);
    distinct = append-IsDistinct d.contacts v new t.distinct;
    follows =
        append-Follows u cursor d.gc_high_water_rev old d.contacts v (omega (arith, e, t.bounded))
          t.follows;
  }

  replaced-Kept :
      (d : ContactsFile) (w : String) (v x : Contact)
      → find w d.contacts ≡ some x
      → v.uid ≡ w
      → v.rev ≡ d.seq + 1
      → Kept d
      → Kept (with_contacts d (replace_first (has_uid w) v d.contacts))
  replaced-Kept d w v x found same e t = record {
    bounded = omega (arith, t.bounded);
    distinct = replace-IsDistinct w v x d.contacts found same t.distinct;
    follows =
        replace-Follows u w cursor d.gc_high_water_rev old d.contacts v x
          (omega (arith, e, t.bounded)) found same t.follows;
  }

  created-Kept :
      (now : ℕ) (d : ContactsFile) (uuid : Option String) (c : Contact)
      → IsNew uuid d.contacts
      → c.rev ≡ d.seq + 1
      → Kept d
      → Kept (left_by d (created now d uuid c))
  created-Kept now d none c new e t = record {
    bounded = omega (arith, t.bounded);
    distinct = t.distinct;
    follows = t.follows;
  }
  created-Kept now d (some uid) c new e t = appended-Kept d _ new e t

  placed-Kept :
      (now : ℕ) (d : ContactsFile) (c : Contact) (o : Option Contact)
      → find c.uid d.contacts ≡ o
      → c.rev ≡ d.seq + 1
      → Kept d
      → Kept (left_by d (placed now d c o))
  placed-Kept now d c none found e t = appended-Kept d _ found e t
  placed-Kept now d c (some x) found e t = replaced-Kept d c.uid _ x found refl e t

  upsert-Kept :
      (now : ℕ) (uuid : Option String) (c : Contact) (d : ContactsFile)
      → IsNew uuid d.contacts
      → Kept d
      → Kept (left_by d (upsert_locked now uuid c d))
  upsert-Kept now uuid c d new t = elim (Bool-cases (c.uid == "")) [
    | inl e ↦ rw e (created-Kept now d uuid (revised now d c) new refl t)
    | inr e ↦ rw e (placed-Kept now d (revised now d c) _ refl refl t)
  ]

  checked-Kept :
      (now : ℕ) (uuid : Option String) (c : Contact) (pre : ContactPrecondition) (d : ContactsFile)
      → IsNew uuid d.contacts
      → Kept d
      → Kept (left_by d (upsert_checked now uuid c pre d))
  checked-Kept now uuid c pre d new t =
      let existing = find c.uid d.contacts in
      elim (Bool-cases
        ((pre.require_absent && is_live existing) || etag_differs pre.require_etag existing)) [
          | inl e ↦ rw e t
          | inr e ↦ rw e (upsert-Kept now uuid c d new t)
        ]

  deleting-Kept :
      (now : ℕ) (uid : String) (d : ContactsFile) (o : Option Contact)
      → find uid d.contacts ≡ o
      → Kept d
      → Kept (left_by d (deleting now uid d o))
  deleting-Kept now uid d none found t = t
  deleting-Kept now uid d (some x) found t =
      replaced-Kept d uid _ x found (found-uid uid d.contacts x found) refl t

  rearranged-Kept :
      (d : ContactsFile) (contacts : List Contact) (seq : ℕ)
      → d.seq ≤ seq
      → IsDistinct contacts
      → Moved d.seq (find u d.contacts) (find u contacts)
      → Kept d
      → Kept (record d { contacts = contacts; seq = seq })
  rearranged-Kept d contacts seq le distinct m t = record {
    bounded = omega (arith, le, t.bounded);
    distinct = distinct;
    follows = Moved-Follows cursor d.seq d.gc_high_water_rev old _ _ t.bounded m t.follows;
  }

  gc-Kept :
      (now retention : ℕ) (d : ContactsFile) → Kept d → Kept (left_by d (gc_in now retention d))
  gc-Kept now retention d t = elim (Bool-cases (any_expired now retention d.contacts)) [
    | inl e ↦ rw e record {
      bounded = t.bounded;
      distinct = keep-IsDistinct _ d.contacts t.distinct;
      follows =
          retained-Follows u now retention cursor d.gc_high_water_rev old d.contacts t.distinct
            t.follows;
    }
    | inr e ↦ rw e t
  ]

  target-Kept :
      (now : ℕ) (uid : String) (self : Bool) (d : ContactsFile) (x : Contact)
      (contacts : List Contact) (seq : ℕ)
      → Kept d
      → x.uid ≡ uid
      → find uid contacts ≡ some x
      → d.seq ≤ seq
      → IsDistinct contacts
      → Moved d.seq (find u d.contacts) (find u contacts)
      → Kept (left_by d (set_target now uid self d x (contacts, seq)))
  target-Kept now uid self d x contacts seq t same found le distinct m =
      let t' = rearranged-Kept d contacts seq le distinct m t in
      elim (Bool-cases (same_flag x.is_self self)) [
        | inl e ↦ elim (Bool-cases (nat_eq seq d.seq)) [
          | inl n ↦ rw (e, n) t
          | inr n ↦ rw (e, n) t'
        ]
        | inr e ↦
            rw e (
              replaced-Kept (record d { contacts = contacts; seq = seq }) uid _ x found same refl
                t')
      ]

  setting-Kept :
      (now : ℕ) (uid : String) (self : Bool) (d : ContactsFile) (o : Option Contact)
      → find uid d.contacts ≡ o
      → Kept d
      → Kept (left_by d (setting_self now uid self d o))
  setting-Kept now uid self d none found t = t
  setting-Kept now uid true d (some x) found t =
      target-Kept now uid true d x (clear_others now uid d.seq d.contacts).0
        (clear_others now uid d.seq d.contacts).1 t (found-uid uid d.contacts x found)
        (rw (clear_others-find now uid d.seq d.contacts) found)
        (clear_others-le now uid d.seq d.contacts)
        (clear_others-IsDistinct now uid d.seq d.contacts t.distinct)
        (clear_others-Moved u now uid d.seq d.contacts)
  setting-Kept now uid false d (some x) found t =
      target-Kept now uid false d x d.contacts d.seq t (found-uid uid d.contacts x found) found
        (omega arith) t.distinct (Moved-refl d.seq (find u d.contacts))

  pub made-IsTracked :
      (now : ℕ) (op : Op) (d : ContactsFile) → DrawsNew op d → Kept d → Kept (made now op d)
  made-IsTracked now (upserts uuid c) d new t = upsert-Kept now uuid c d new t
  made-IsTracked now (checks uuid c pre) d new t = checked-Kept now uuid c pre d new t
  made-IsTracked now (deletes uid) d new t = deleting-Kept now uid d _ refl t
  made-IsTracked now (flags uid self) d new t = setting-Kept now uid self d _ refl t
  made-IsTracked now (collects retention) d new t = gc-Kept now (or_default retention) d t
