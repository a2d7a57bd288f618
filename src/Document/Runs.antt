-- ===== src/Document/Runs.antt =====
-- What an operation makes of the document on disk, and what is kept through any of them.
use llama_labels.Common.{Bool, true, false, ◌≡◌, refl, Bool-cases, inl, inr, ◌⊎◌, if◌then◌else◌}
use llama_labels.Disk.{
  File, absent, corrupt, holds, Io, Loaded, loaded, missing, failed, read_file, parsed, read_failed,
}
use llama_labels.Document.{
  Store, Result, ok, err, Change, answer, fail, save, refreshed, refresh, peek, peeked, changed,
  changing, transact,
}

-- The document that a change leaves on disk if the write succeeds.
abbrev pub left_by : {D E A : Type 0} → D → Change D E A → D
left_by d (answer a) = d
left_by d (fail e d') = d
left_by d (save a d') = d'

module _ {D : Type 0} where
  changed-file :
      {E A : Type 0} (io : Io) (d : D) (c : Change D E A)
      → ((changed io (record { memory = d; file = holds d }) c).1.file ≡ holds d)
        ⊎ ((changed io (record { memory = d; file = holds d }) c).1.file ≡ holds (left_by d c))
  changed-file io d (answer a) = inl refl
  changed-file io d (fail e d') = inl refl
  changed-file io d (save a d') = elim (Bool-cases io.can_write) [
    | inl w ↦ inr (rw w refl)
    | inr w ↦ inl (rw w refl)
  ]

  -- On a file that holds a document, an operation leaves that document or the one that it makes of it.
  pub transact-file :
      {E A : Type 0} (io : Io) (s : Store D) (d : D) (change : D → Change D E A)
      → s.file ≡ holds d
      → ((transact io s change).1.file ≡ holds d)
        ⊎ ((transact io s change).1.file ≡ holds (left_by d (change d)))
  unfolding transact
  transact-file io s d change h = elim (Bool-cases io.can_read) [
    | inl r ↦ rw (h, r) (changed-file io d (change d))
    | inr r ↦ inl (rw r h)
  ]

  -- On a file that is read and written, a change that saves is what memory and file hold.
  pub transact-save :
      {E A : Type 0} (io : Io) (s : Store D) (change : D → Change D E A) (d d' : D) (a : A)
      → s.file ≡ holds d
      → io.can_read ≡ true
      → io.can_write ≡ true
      → change d ≡ save a d'
      → transact io s change ≡ (ok a, record { memory = d'; file = holds d' })
  unfolding transact
  transact-save io s change d d' a h reads writes e = rw (h, reads, e, writes) refl

  pub peek-memory :
      (io : Io) (s : Store D) (d : D)
      → s.file ≡ holds d
      → io.can_read ≡ true
      → (peek io s).memory ≡ d
  unfolding peek
  peek-memory io s d h reads = rw (h, reads) refl

module _ {D : Type 0} (P : D → Type 0) where
  abbrev pub OnFile : File D → Type 0
  OnFile absent = Unit
  OnFile corrupt = Unit
  OnFile (holds d) = P d

  abbrev pub IsSound : Store D → Type 0
  IsSound s = P s.memory × OnFile s.file

  -- What a change leaves, on each of its ends.
  abbrev pub Keeps : {E A : Type 0} → Change D E A → Type 0
  Keeps (answer a) = Unit
  Keeps (fail e d) = P d
  Keeps (save a d) = P d

  OnLoaded : Loaded D → Type 0
  OnLoaded missing = Unit
  OnLoaded (failed e) = Unit
  OnLoaded (loaded d) = P d

  parsed-OnLoaded :
      (b : Bool) (file : File D)
      → OnFile file
      → OnLoaded (if b then parsed file else failed read_failed)
  unfolding OnLoaded
  parsed-OnLoaded false file h = tt
  parsed-OnLoaded true absent h = tt
  parsed-OnLoaded true corrupt h = tt
  parsed-OnLoaded true (holds d) h = h

  abbrev IsSoundResult : {E : Type 0} → Result E (Store D) → Type 0
  IsSoundResult (ok s) = IsSound s
  IsSoundResult (err e) = Unit

  refreshed-IsSound :
      (E : Type 0) (s : Store D) (l : Loaded D)
      → IsSound s
      → OnLoaded l
      → IsSoundResult {E = E} (refreshed s l)
  unfolding OnLoaded
  refreshed-IsSound E s missing h on = h
  refreshed-IsSound E s (failed e) h on = tt
  refreshed-IsSound E s (loaded d) h on = (on, h.1)

  refresh-IsSound :
      (E : Type 0) (io : Io) (s : Store D) → IsSound s → IsSoundResult {E = E} (refresh io s)
  refresh-IsSound E io s h =
      refreshed-IsSound E s (read_file io s.file) h (parsed-OnLoaded io.can_read s.file h.1)

  changed-IsSound :
      {E A : Type 0} (io : Io) (s : Store D) (c : Change D E A)
      → IsSound s
      → Keeps c
      → IsSound (changed io s c).1
  changed-IsSound io s (answer a) h k = h
  changed-IsSound io s (fail e d) h k = (k, h.1)
  changed-IsSound io s (save a d) h k = elim (Bool-cases io.can_write) [
    | inl w ↦ rw w (k, k)
    | inr w ↦ rw w (k, h.1)
  ]

  changing-IsSound :
      {E A : Type 0} (io : Io) (s : Store D) (change : D → Change D E A) (r : Result E (Store D))
      → ((d : D) → P d → Keeps (change d))
      → IsSound s
      → IsSoundResult r
      → IsSound (changing io s change r).1
  changing-IsSound io s change (err e) keeps h r = h
  changing-IsSound io s change (ok s') keeps h r =
      changed-IsSound io s' (change s'.memory) r (keeps s'.memory r.0)

  -- A property of documents that the change keeps is kept in memory and on disk by the operation.
  pub transact-IsSound :
      {E A : Type 0} (io : Io) (s : Store D) (change : D → Change D E A)
      → ((d : D) → P d → Keeps (change d))
      → IsSound s
      → IsSound (transact io s change).1
  unfolding transact
  transact-IsSound io s change keeps h =
      changing-IsSound io s change (refresh io s) keeps h (refresh-IsSound _ io s h)

  pub peek-IsSound : (io : Io) (s : Store D) → IsSound s → IsSound (peek io s)
  unfolding peek
  peek-IsSound io s h = go (refresh io s) (refresh-IsSound _ io s h)
    where
      go : (r : Result (Unit {0}) (Store D)) → IsSoundResult r → IsSound (peeked s r)
      go (ok s') h' = h'
      go (err e) h' = h

-- The operation succeeds, and its answer and the document that it leaves in memory have the property.
abbrev pub Succeeds : {D E A : Type 0} → (A → D → Type 0) → Result E A × Store D → Type 0
Succeeds Q (ok a, s) = Q a s.memory
Succeeds Q (err e, s) = ⊥
