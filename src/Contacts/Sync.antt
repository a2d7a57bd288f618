-- ===== src/Contacts/Sync.antt =====
-- contacts/store.go: what a sync client that patches its copy with ChangedSince sees.
use llama_labels.Common.{
  ℕ, ◌≤◌, ◌<◌, String, ◌≡◌, refl, true, false, not, ◌&&◌, Option, none, some, List, [], ◌∷◌, arith,
  ltb, inl, inr,
}
use llama_labels.Disk.{File, Io, holds}
use llama_labels.Document.{peek}
use llama_labels.Document.Runs.{OnFile}
use llama_labels.Contacts.{Contact, ContactsFile, Store}
use llama_labels.Contacts.Operations.{get}
use llama_labels.Contacts.Operations.Changes.{Delta, delta_of, changed_since}
use llama_labels.Contacts.Ops.{Op, step, run, made, step-file, DrawsNew}
use llama_labels.Contacts.Finds.{find, IsDistinct, filtered, find-keep}
use llama_labels.Contacts.Tracked.{Follows}
use llama_labels.Contacts.Kept.{IsTracked, made-IsTracked}

-- No creation of the run draws a UUID that is in use.
abbrev pub RunsNew : Store → List (Io × (ℕ × Op)) → Type 0
RunsNew s [] = Unit
RunsNew s ((io, (now, op)) ∷ ops) = OnFile (DrawsNew op) s.file × RunsNew (step io now s op) ops

abbrev pub live : Option Contact → Option Contact
live o = filtered (λ c. not c.deleted) o

-- What the client shows of one contact: what was sent as changed, nothing if it was sent as deleted, and
-- otherwise what it showed before.
abbrev pub seen_unless : Option Contact → Option Contact → Option Contact
seen_unless none old = old
seen_unless (some c) old = none

abbrev pub seen_or : Option Contact → Option Contact → Option Contact
seen_or none other = other
seen_or (some c) other = some c

abbrev pub patched : String → Delta → Option Contact → Option Contact
patched u delta old = seen_or (find u delta.changed) (seen_unless (find u delta.deleted) old)

HoldsTracked : String → ℕ → Option Contact → File ContactsFile → Type 0
HoldsTracked u cursor old file = (d : ContactsFile) × ((file ≡ holds d) × IsTracked u cursor old d)

run-HoldsTracked :
    (u : String) (cursor : ℕ) (old : Option Contact) (ops : List (Io × (ℕ × Op))) (s : Store)
    (d : ContactsFile)
    → s.file ≡ holds d
    → RunsNew s ops
    → IsTracked u cursor old d
    → HoldsTracked u cursor old (run s ops).file
unfolding HoldsTracked
run-HoldsTracked u cursor old [] s d h new t = (d, (h, t))
run-HoldsTracked u cursor old ((io, (now, op)) ∷ ops) s d h new t =
    elim (step-file io now s op d h) [
      | inl same ↦ run-HoldsTracked u cursor old ops (step io now s op) d same new.1 t
      | inr to ↦
          let draws : DrawsNew op d = rw h at new.0 in
          run-HoldsTracked u cursor old ops (step io now s op) (made now op d) to new.1
            (made-IsTracked u cursor old now op d draws t)
    ]

patched_found :
    (cursor mark : ℕ) (old o : Option Contact)
    → mark ≤ cursor
    → Follows cursor old o mark
    → seen_or
        (filtered (λ c. ltb cursor c.rev && not c.deleted) o)
        (seen_unless (filtered (λ c. ltb cursor c.rev && c.deleted) o) (live old))
      ≡ live o
patched_found cursor mark none none le h = refl
patched_found cursor mark (some x) none le h = ground (arith, h)
patched_found cursor mark old (some c) le (inl lt) = ground (arith, lt)
patched_found cursor mark old (some c) le (inr e) = rw e (ground arith)

patched-live :
    (u : String) (cursor : ℕ) (old : Option Contact) (d : ContactsFile)
    → 0 < cursor
    → IsTracked u cursor old d
    → (delta_of cursor d).too_old ≡ false
    → patched u (delta_of cursor d) (live old) ≡ live (find u d.contacts)
patched-live u cursor old d pos t fresh =
    let le : d.gc_high_water_rev ≤ cursor = ground (arith, fresh) in
    rw
      (
        fresh,
        find-keep u (λ c. ltb cursor c.rev && not c.deleted) d.contacts t.distinct,
        find-keep u (λ c. ltb cursor c.rev && c.deleted) d.contacts t.distinct,
      )
      (patched_found cursor d.gc_high_water_rev old (find u d.contacts) le t.follows)

start-IsTracked :
    (u : String) (d : ContactsFile)
    → IsDistinct d.contacts
    → IsTracked u d.seq (find u d.contacts) d
start-IsTracked u d distinct = record {
  bounded = omega arith;
  distinct = distinct;
  follows = start (find u d.contacts);
}
  where
    start : (o : Option Contact) → Follows d.seq o o d.gc_high_water_rev
    start none = inl refl
    start (some c) = inr refl

-- A client that has seen contacts.json up to its sequence number, of which no UID stands twice, follows
-- it: after any later operations (writes checked or not, deletions, self flags, collections of tombstones,
-- with failing disks among them, none drawing a UUID that is in use), unless ChangedSince answers that
-- the cursor is too old, patching any contact with the answer gives the contact that Get finds, live.
pub sync-converges :
    (u : String) (s : Store) (d : ContactsFile) (ops : List (Io × (ℕ × Op))) (io : Io)
    → s.file ≡ holds d
    → IsDistinct d.contacts
    → 0 < d.seq
    → RunsNew s ops
    → io.can_read ≡ true
    → (changed_since io (run s ops) d.seq).0.too_old ≡ false
    → patched u (changed_since io (run s ops) d.seq).0 (live (find u d.contacts))
      ≡ live (get io (run s ops) u).0
unfolding changed_since get peek HoldsTracked
sync-converges u s d ops io h distinct pos new reads fresh =
    let (d', (h', t)) =
      run-HoldsTracked u d.seq (find u d.contacts) ops s d h new (start-IsTracked u d distinct) in
    rw (h', reads) (patched-live u d.seq (find u d.contacts) d' pos t (rw (h', reads) at fresh))
