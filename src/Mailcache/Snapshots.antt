-- ===== src/Mailcache/Snapshots.antt =====
-- mailcache/store.go: what a snapshot promises, and how large a window gets.
use llama_labels.Common.{
  ℕ, ◌-◌, ◌≤◌, ◌≡◌, refl, String, Bool, true, false, not, Option, none, some, List, [], ◌∷◌, arith,
  All, any, length, length-drop, ltb, nat_eq, Bool-cases, inl, inr, ◌==◌, eq_refl, ◌∙◌,
}
use llama_labels.Common.Dict.{lookup, insert, lookup-insert}
use llama_labels.Disk.{Io, holds}
use llama_labels.Document.{peek}
use llama_labels.Document.Runs.{transact-save, Succeeds}
use llama_labels.Mailcache.{Entry}
use llama_labels.Mailcache.Store.{
  MailboxWindow, MailCacheFile, Store, snapshot, snapshot_of, upsert, upsert_in, trimmed,
  max_window_entries, window_of, sort_by_uid, upsert_all,
}

abbrev pub has_body : Entry → Bool
has_body e = not (e.body == "")

bodies :
    (es : List Entry) → not (any (λ e. e.body == "") es) ≡ true → All (λ e. has_body e ≡ true) es
bodies [] h = tt
bodies (e ∷ es) h = (ground (arith, h), bodies es (ground (arith, h)))

snapshot_of-IsWarm :
    (limit : ℕ) (o : Option MailboxWindow)
    → (snapshot_of limit o).1 ≡ true
    → (length (snapshot_of limit o).0 ≡ limit)
      × All (λ e. has_body e ≡ true) (snapshot_of limit o).0
snapshot_of-IsWarm limit none h = ground (arith, h)
snapshot_of-IsWarm limit (some win) h = elim (Bool-cases (ltb (length win.entries) limit)) [
  | inl e ↦ let off : false ≡ true = simp e at h in ground (arith, off)
  | inr e ↦
      let le : limit ≤ length win.entries = ground (arith, e) in
      simp e (
        omega (arith, length-drop (length win.entries - limit) win.entries, le),
        bodies _ (simp e at h),
      )
]

-- A snapshot that may be served without IMAP has exactly `limit` messages, each with its body.
pub snapshot-IsWarm :
    (io : Io) (s : Store) (mailbox_key : String) (limit : ℕ)
    → (snapshot io s mailbox_key limit).0.1 ≡ true
    → (length (snapshot io s mailbox_key limit).0.0 ≡ limit)
      × All (λ e. has_body e ≡ true) (snapshot io s mailbox_key limit).0.0
unfolding snapshot
snapshot-IsWarm io s mailbox_key limit h = elim (Bool-cases (nat_eq limit 0)) [
  | inl e ↦ let off : false ≡ true = simp e at h in ground (arith, off)
  | inr e ↦
      simp e
        (snapshot_of-IsWarm limit (lookup mailbox_key (peek io s).memory.mailboxes) (simp e at h))
]

trimmed-length : (win : MailboxWindow) → length (trimmed win).entries ≤ max_window_entries
trimmed-length win = omega (
  arith,
  length-drop (length (sort_by_uid win.entries) - max_window_entries) (sort_by_uid win.entries),
)

abbrev pub IsWithin : String → Unit {0} → MailCacheFile → Type 0
IsWithin k done d = length (window_of (lookup k d.mailboxes)).entries ≤ max_window_entries

-- An Upsert of any messages on a working disk succeeds and leaves the mailbox's window within its bound.
pub upsert-IsWithin :
    (io : Io) (s : Store) (d : MailCacheFile) (k : String) (e : Entry) (entries : List Entry)
    → s.file ≡ holds d
    → io.can_read ≡ true
    → io.can_write ≡ true
    → Succeeds (IsWithin k) (upsert io s k (e ∷ entries))
unfolding upsert
upsert-IsWithin io s d k e entries h reads writes =
    let win = trimmed (upsert_all (e ∷ entries) (window_of (lookup k d.mailboxes))) in
    let here : lookup k (insert k win d.mailboxes) ≡ some win =
      lookup-insert k k win d.mailboxes ∙ rw (eq_refl k) refl in
    rw (transact-save io s (upsert_in k (e ∷ entries)) d _ tt h reads writes refl, here)
      (trimmed-length (upsert_all (e ∷ entries) (window_of (lookup k d.mailboxes))))
