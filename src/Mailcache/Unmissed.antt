-- ===== src/Mailcache/Unmissed.antt =====
-- No change of a message is missed by a client that goes on from its cursor, through any use of the cache.
use llama_labels.Common.{
  ℕ, ◌≡◌, refl, ap, sym, ◌∙◌, String, Bool, true, not, ◌&&◌, Option, some, List, [], ◌∷◌, arith,
  All, keep, ltb, Bool-cases, inl, inr, ◌⊎◌, ◌==◌, eq_iff, eq_refl,
}
use llama_labels.Common.Dict.{lookup, insert, lookup-insert}
use llama_labels.Disk.{Io, holds}
use llama_labels.Document.Runs.{IsSound, transact-IsSound, transact-save, Succeeds}
use llama_labels.Mailcache.{Entry, EntryMeta, Overview, SyncResult, meta}
use llama_labels.Mailcache.Store.{
  MailboxWindow, MailCacheFile, Store, window_of, sync, sync_in, sync_window, upsert, delta_of,
  removed_from,
}
use llama_labels.Mailcache.Uses.{Use, syncs, upserts, step, run, run-Holding}
use llama_labels.Mailcache.Rounds.{
  is_known, IsFollowed, IsTracked, sync-IsTracked, upsert-IsTracked,
}

abbrev pub window_at : String → MailCacheFile → MailboxWindow
window_at k d = window_of (lookup k d.mailboxes)

abbrev pub IsIn : Entry → List Entry → Type 0
IsIn e [] = ⊥
IsIn e (x ∷ xs) = (e ≡ x) ⊎ IsIn e xs

keep-IsIn :
    (p : Entry → Bool) (e : Entry) (es : List Entry) → p e ≡ true → IsIn e es → IsIn e (keep p es)
keep-IsIn p e [] pass i = i
keep-IsIn p e (x ∷ es) pass (inl same) =
    let pass' : p x ≡ true = ap p (sym same) ∙ pass in rw pass' (inl same)
keep-IsIn p e (x ∷ es) pass (inr i) = elim (Bool-cases (p x)) [
  | inl q ↦ rw q (inr (keep-IsIn p e es pass i))
  | inr q ↦ rw q (keep-IsIn p e es pass i)
]

-- The entry is reported as new or as updated, or it is as the client has it.
abbrev pub IsReported : (ℕ → Option EntryMeta) → SyncResult → Entry → Type 0
IsReported known result e =
    (IsIn e result.new ⊎ IsIn e result.updated) ⊎ (known e.uid ≡ some (meta e))

-- Every entry of the window is reported or known, and what is reported as updated is known at all.
abbrev pub IsUnmissed : String → (ℕ → Option EntryMeta) → SyncResult → MailCacheFile → Type 0
IsUnmissed k known result d =
    All (IsReported known result) (window_at k d).entries
    × All (λ e. is_known (known e.uid) ≡ true) result.updated

module _ (k : String) (cursor : ℕ) (known : ℕ → Option EntryMeta) where
  abbrev pub IsFresh : MailCacheFile → Type 0
  IsFresh d = IsTracked cursor known (window_at k d)

  written-IsFresh :
      (mailbox_key : String) (win : MailboxWindow) (d : MailCacheFile)
      → IsFresh d
      → ((mailbox_key == k) ≡ true → IsTracked cursor known win)
      → IsFresh (record { mailboxes = insert mailbox_key win d.mailboxes })
  written-IsFresh mailbox_key win d t own = elim (Bool-cases (mailbox_key == k)) [
    | inl e ↦ simp (lookup-insert mailbox_key k win d.mailboxes, e) (own e)
    | inr e ↦ simp (lookup-insert mailbox_key k win d.mailboxes, e) t
  ]

  own_window :
      (mailbox_key : String) (d : MailCacheFile)
      → IsFresh d
      → (mailbox_key == k) ≡ true
      → IsTracked cursor known (window_at mailbox_key d)
  own_window mailbox_key d t e =
      let same : mailbox_key ≡ k = (eq_iff mailbox_key k).0 e in rw same t

  step-IsFresh :
      (itoa : ℕ → String) (io : Io) (s : Store) (use_ : Use)
      → IsSound IsFresh s
      → IsSound IsFresh (step itoa io s use_)
  unfolding sync upsert
  step-IsFresh itoa io s (syncs mailbox_key limit live since) h =
      transact-IsSound IsFresh io s _
        (λ d t.
          written-IsFresh mailbox_key _ d t
            (λ e. sync-IsTracked cursor known itoa limit live _ (own_window mailbox_key d t e)))
        h
  step-IsFresh itoa io s (upserts mailbox_key []) h = h
  step-IsFresh itoa io s (upserts mailbox_key (x ∷ entries)) h =
      transact-IsSound IsFresh io s _
        (λ d t.
          written-IsFresh mailbox_key _ d t
            (λ e. upsert-IsTracked cursor known (x ∷ entries) _ (own_window mailbox_key d t e)))
        h

  run-IsFresh :
      (itoa : ℕ → String) (s : Store) (uses : List (Io × Use))
      → IsSound IsFresh s
      → IsSound IsFresh (run itoa s uses)
  run-IsFresh itoa s [] h = h
  run-IsFresh itoa s ((io, use_) ∷ uses) h =
      run-IsFresh itoa (step itoa io s use_) uses (step-IsFresh itoa io s use_ h)

  reported :
      (removed entries : List Entry) (seq : ℕ) (e : Entry)
      → IsFollowed cursor known e
      → IsIn e entries
      → IsReported known (delta_of cursor removed seq entries) e
  reported removed entries seq e f i = elim (Bool-cases (ltb cursor e.rev)) [
    | inl newer ↦ elim (Bool-cases (ltb cursor e.first_rev)) [
      | inl first ↦ inl (inl (keep-IsIn _ e entries (rw (newer, first) refl) i))
      | inr first ↦ inl (inr (keep-IsIn _ e entries (rw (newer, first) refl) i))
    ]
    | inr older ↦ inr (ground (arith, older, f.0))
  ]

  All-IsReported :
      (removed entries some_of : List Entry) (seq : ℕ)
      → All (IsFollowed cursor known) some_of
      → ((e : Entry) → IsIn e some_of → IsIn e entries)
      → All (IsReported known (delta_of cursor removed seq entries)) some_of
  All-IsReported removed entries [] seq f sub = tt
  All-IsReported removed entries (e ∷ es) seq f sub = (
    reported removed entries seq e f.0 (sub e (inl refl)),
    All-IsReported removed entries es seq f.1 (λ x i. sub x (inr i)),
  )

  updated_known :
      (entries : List Entry)
      → All (IsFollowed cursor known) entries
      → All
          (λ e. is_known (known e.uid) ≡ true)
          (keep (λ e. ltb cursor e.rev && not (ltb cursor e.first_rev)) entries)
  updated_known [] f = tt
  updated_known (e ∷ es) f = elim (Bool-cases (ltb cursor e.rev && not (ltb cursor e.first_rev))) [
    | inl q ↦ rw q (ground (arith, q, f.0.1), updated_known es f.1)
    | inr q ↦ rw q (updated_known es f.1)
  ]

  window-IsUnmissed :
      (itoa : ℕ → String) (limit : ℕ) (live : List Overview) (d : MailCacheFile)
      → IsFresh d
      → IsUnmissed k known
          (delta_of cursor
            (removed_from limit live (window_at k d))
            (sync_window itoa limit live (window_at k d)).seq
            (sync_window itoa limit live (window_at k d)).entries)
          (record {
            mailboxes = insert k (sync_window itoa limit live (window_at k d)) d.mailboxes;
          })
  window-IsUnmissed itoa limit live d t =
      let win = sync_window itoa limit live (window_at k d) in
      let t' = sync-IsTracked cursor known itoa limit live (window_at k d) t in
      let here : lookup k (insert k win d.mailboxes) ≡ some win =
        lookup-insert k k win d.mailboxes ∙ rw (eq_refl k) refl in
      (
        rw here (
            All-IsReported (removed_from limit live (window_at k d)) win.entries win.entries win.seq
              t'.followed (λ e i. i)),
        updated_known win.entries t'.followed,
      )

-- A client that has the metadata of every message of a mailbox's window goes on from the sequence number
-- of that window: after any syncs and upserts of any mailboxes, with failing disks among them, a Sync of
-- the mailbox on a working disk succeeds; each message of the window that it leaves is reported as new or as
-- updated, or has the metadata that the client has; and one reported as updated is one that the client has.
pub sync-IsUnmissed :
    (itoa : ℕ → String) (k : String) (known : ℕ → Option EntryMeta) (d : MailCacheFile)
    (uses : List (Io × Use)) (io : Io) (limit : ℕ) (live : List Overview)
    → All (λ e. known e.uid ≡ some (meta e)) (window_at k d).entries
    → io.can_read ≡ true
    → io.can_write ≡ true
    → Succeeds (IsUnmissed k known) (
        sync itoa io
          (run itoa (record { memory = d; file = holds d }) uses)
          k
          limit
          live
          (window_at k d).seq)
unfolding sync
sync-IsUnmissed itoa k known d uses io limit live has reads writes =
    let cursor = (window_at k d).seq in
    let s : Store = record { memory = d; file = holds d } in
    let fresh = start in
    let sound = run-IsFresh k cursor known itoa s uses (fresh, fresh) in
    let (d', h) = run-Holding itoa s uses (d, refl) in
    let fresh' : IsFresh k cursor known d' = rw h at sound.1 in
    rw
      (transact-save io (run itoa s uses) (sync_in itoa k limit live cursor) d' _ _ h reads writes
        refl)
      (window-IsUnmissed k cursor known itoa limit live d' fresh')
  where
    followed :
        (es : List Entry)
        → All (λ e. known e.uid ≡ some (meta e)) es
        → All (IsFollowed (window_at k d).seq known) es
    followed [] f = tt
    followed (e ∷ es) f = ((inr f.0, inr (rw f.0 refl)), followed es f.1)

    start : IsTracked (window_at k d).seq known (window_at k d)
    start = record { bounded = omega arith; followed = followed (window_at k d).entries has }
