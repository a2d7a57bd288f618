-- ===== src/Mailcache/Rounds.antt =====
-- What a client that stopped at a cursor can rely on, through every step on a mailbox's window.
use llama_labels.Common.{
  ℕ, ◌≤◌, ◌<◌, ◌≡◌, refl, String, Bool, true, false, Option, none, some, List, [], ◌∷◌, arith, All,
  All-append, All-drop, Bool-cases, inl, inr, ◌⊎◌, if◌then◌else◌, ◌==◌,
}
use llama_labels.Mailcache.{Entry, EntryMeta, Overview, meta, overview_meta_equal, entry_meta_equal}
use llama_labels.Mailcache.Store.{
  MailboxWindow, find_last, synced, sync_all, sync_window, is_reset, merged, upsert_entry,
  upsert_all, trimmed,
}
use llama_labels.Mailcache.Entries.{find_last-All, sort-All, replace_last-All, equal_sound}

abbrev pub is_known : Option EntryMeta → Bool
is_known none = false
is_known (some m) = true

-- `known` is the metadata that the client has. An entry has a newer revision or is as the client has it;
-- and it came after the cursor or the client has it at all.
module _ (cursor : ℕ) (known : ℕ → Option EntryMeta) where
  abbrev pub IsFollowed : Entry → Type 0
  IsFollowed e =
      ((cursor < e.rev) ⊎ (known e.uid ≡ some (meta e)))
      × ((cursor < e.first_rev) ⊎ (is_known (known e.uid) ≡ true))

  pub record IsTracked (win : MailboxWindow) : Type 0 where
    pub bounded : cursor ≤ win.seq
    pub followed : All IsFollowed win.entries

  synced-IsFollowed :
      (itoa : ℕ → String) (ov : Overview) (seq : ℕ) (o : Option Entry) (es : List Entry)
      → cursor ≤ seq
      → All IsFollowed es
      → find_last ov.uid es ≡ o
      → IsFollowed (synced itoa ov seq o).0 × (seq ≤ (synced itoa ov seq o).1)
  synced-IsFollowed itoa ov seq none es le h found =
      ((inl (omega (arith, le)), inl (omega (arith, le))), omega arith)
  synced-IsFollowed itoa ov seq (some prev) es le h found =
      let (f, same) = find_last-All IsFollowed ov.uid es prev h found in
      elim (Bool-cases (overview_meta_equal prev ov)) [
        | inl e ↦ rw e (f, omega arith)
        | inr e ↦ rw e ((inl (omega (arith, le)), rw same at f.1), omega arith)
      ]

  sync_all-IsFollowed :
      (itoa : ℕ → String) (es : List Entry) (seq : ℕ) (live : List Overview)
      → cursor ≤ seq
      → All IsFollowed es
      → All IsFollowed (sync_all itoa es seq live).0 × (seq ≤ (sync_all itoa es seq live).1)
  unfolding sync_all
  sync_all-IsFollowed itoa es seq [] le h = (tt, omega arith)
  sync_all-IsFollowed itoa es seq (ov ∷ live) le h =
      let (f, up) = synced-IsFollowed itoa ov seq _ es le h refl in
      let (rest, more) =
        sync_all-IsFollowed itoa es (synced itoa ov seq (find_last ov.uid es)).1 live
          (omega (arith, le, up)) h in
      ((f, rest), omega (arith, up, more))

  pub sync-IsTracked :
      (itoa : ℕ → String) (limit : ℕ) (live : List Overview) (win : MailboxWindow)
      → IsTracked win
      → IsTracked (sync_window itoa limit live win)
  sync-IsTracked itoa limit live win t =
      let start : All IsFollowed (if is_reset limit win then [] else win.entries) =
        elim (Bool-cases (is_reset limit win)) [ inl e ↦ rw e tt | inr e ↦ rw e t.followed ] in
      let (all, up) = sync_all-IsFollowed itoa _ win.seq live t.bounded start in
      record { bounded = omega (arith, t.bounded, up); followed = sort-All IsFollowed _ all }

  abbrev IsCovered : Entry → Type 0
  IsCovered e = (cursor < e.first_rev) ⊎ (is_known (known e.uid) ≡ true)

  merged-IsCovered : (stored fresh : Entry) → IsCovered stored → IsCovered (merged stored fresh)
  merged-IsCovered stored fresh h = elim (Bool-cases (fresh.body == "")) [
    | inl b ↦ rw b h
    | inr b ↦ rw b h
  ]

  merged-IsFollowed :
      (stored fresh : Entry)
      → entry_meta_equal stored fresh ≡ true
      → IsFollowed stored
      → IsFollowed (merged stored fresh)
  merged-IsFollowed stored fresh e h = elim (Bool-cases (fresh.body == "")) [
    | inl b ↦ rw b (rw same at h)
    | inr b ↦ rw b (rw same at h)
  ]
    where
      same : meta stored ≡ meta fresh
      same = equal_sound (meta stored) (meta fresh) e

  upsert_entry-IsTracked :
      (fresh : Entry) (win : MailboxWindow) (o : Option Entry)
      → find_last fresh.uid win.entries ≡ o
      → IsTracked win
      → IsTracked (upsert_entry fresh win o)
  upsert_entry-IsTracked fresh win none found t = record {
    bounded = omega (arith, t.bounded);
    followed =
        All-append IsFollowed win.entries _ t.followed
          ((inl (omega (arith, t.bounded)), inl (omega (arith, t.bounded))), tt);
  }
  upsert_entry-IsTracked fresh win (some stored) found t =
      let (f, same) = find_last-All IsFollowed fresh.uid win.entries stored t.followed found in
      elim (Bool-cases (entry_meta_equal stored fresh)) [
        | inl e ↦ rw e record {
          bounded = t.bounded;
          followed =
              replace_last-All IsFollowed fresh.uid _ win.entries
                (merged-IsFollowed stored fresh e f) t.followed;
        }
        | inr e ↦ rw e record {
          bounded = omega (arith, t.bounded);
          followed =
              replace_last-All IsFollowed fresh.uid _ win.entries
                (inl (omega (arith, t.bounded)), merged-IsCovered stored fresh f.1) t.followed;
        }
      ]

  upsert_all-IsTracked :
      (entries : List Entry) (win : MailboxWindow)
      → IsTracked win
      → IsTracked (upsert_all entries win)
  unfolding upsert_all
  upsert_all-IsTracked [] win t = t
  upsert_all-IsTracked (fresh ∷ entries) win t =
      upsert_all-IsTracked entries _ (upsert_entry-IsTracked fresh win _ refl t)

  pub upsert-IsTracked :
      (entries : List Entry) (win : MailboxWindow)
      → IsTracked win
      → IsTracked (trimmed (upsert_all entries win))
  upsert-IsTracked entries win t =
      let t' = upsert_all-IsTracked entries win t in
      record {
        bounded = t'.bounded;
        followed = All-drop IsFollowed _ _ (sort-All IsFollowed _ t'.followed);
      }
