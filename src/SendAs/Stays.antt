-- ===== src/SendAs/Stays.antt =====
-- sendas/store.go: a verified alias stays verified until it is deleted.
use llama_labels.Common.{
  ℕ, String, ◌≡◌, refl, Bool, true, false, not, Option, none, some, List, arith, any, All, keep,
  Bool-cases, inl, inr, ◌==◌, eq_iff,
}
use llama_labels.Common.Lists.{replace_first}
use llama_labels.Common.Keyed.{
  find, has_key, found-key, find-replace, find-drop, find-append, find-keep_found, or_else,
}
use llama_labels.Disk.{Io}
use llama_labels.Document.Runs.{IsSound, Keeps, transact-IsSound, peek-IsSound}
use llama_labels.SendAs.{
  Alias, AliasesFile, Store, id_of, is_verified, create_with, verifying, failing, deleting,
  sweep_in, is_terminal, create, mark_verified, mark_failed, delete, sweep_terminal, get,
}
use llama_labels.SendAs.Uses.{
  Use, creates, verifies, fails, deletes, sweeps, Uses, run, KeepsEach, run-IsSound,
}

-- An alias is found, and it is verified.
abbrev pub stands : Option Alias → Bool
stands none = false
stands (some a) = is_verified a

module _ (k : String) where
  abbrev pub IsVerified : AliasesFile → Type 0
  IsVerified d = stands (find id_of k d.aliases) ≡ true

  abbrev pub DeletesOther : Use → Type 0
  DeletesOther (deletes id) = (id == k) ≡ false
  DeletesOther u = Unit

  appended-stands : (o p : Option Alias) → stands o ≡ true → stands (or_else o p) ≡ true
  appended-stands none p h = ground (arith, h)
  appended-stands (some a) p h = h

  create-IsVerified :
      (now : ℕ) (user_id email name : String) (uuid code : Option String) (d : AliasesFile)
      → IsVerified d
      → Keeps IsVerified (create_with now user_id email name uuid code d)
  create-IsVerified now user_id email name none code d h = h
  create-IsVerified now user_id email name (some id) none d h = h
  create-IsVerified now user_id email name (some id) (some code) d h =
      rw (find-append id_of k d.aliases _) (appended-stands (find id_of k d.aliases) _ h)

  -- An alias that is found and not verified has another ID.
  unlike :
      (id : String) (d : AliasesFile) (a : Alias)
      → find id_of id d.aliases ≡ some a
      → is_verified a ≡ false
      → IsVerified d
      → (id == k) ≡ false
  unlike id d a found unverified h = elim (Bool-cases (id == k)) [
    | inl e ↦
        let same : id ≡ k = (eq_iff id k).0 e in
        let found' : find id_of k d.aliases ≡ some a = rw same at found in
        ground (arith, rw found' at h, unverified)
    | inr e ↦ e
  ]

  replaced-IsVerified :
      (id : String) (d : AliasesFile) (a v : Alias)
      → find id_of id d.aliases ≡ some a
      → v.id ≡ id
      → is_verified a ≡ false
      → IsVerified d
      → IsVerified (record { aliases = replace_first (has_key id_of id) v d.aliases })
  replaced-IsVerified id d a v found named unverified h =
      let other = unlike id d a found unverified h in
      simp (find-replace id_of k id v a d.aliases found named, other) h

  verifying-IsVerified :
      (now : ℕ) (id : String) (d : AliasesFile) (o : Option Alias)
      → find id_of id d.aliases ≡ o
      → IsVerified d
      → Keeps IsVerified (verifying now id d o)
  verifying-IsVerified now id d none found h = h
  verifying-IsVerified now id d (some a) found h = elim (Bool-cases (is_verified a)) [
    | inl e ↦ rw e tt
    | inr e ↦ rw e (replaced-IsVerified id d a _ found (found-key id_of id d.aliases a found) e h)
  ]

  failing-IsVerified :
      (now : ℕ) (id : String) (d : AliasesFile) (o : Option Alias)
      → find id_of id d.aliases ≡ o
      → IsVerified d
      → Keeps IsVerified (failing now id d o)
  failing-IsVerified now id d none found h = h
  failing-IsVerified now id d (some a) found h = elim (Bool-cases (a.status == "pending")) [
    | inl e ↦
        let pending : a.status ≡ "pending" = (eq_iff a.status "pending").0 e in
        rw e (
          replaced-IsVerified id d a _ found (found-key id_of id d.aliases a found)
            (rw pending refl) h)
    | inr e ↦ rw e h
  ]

  deleting-IsVerified :
      (id : String) (d : AliasesFile) (o : Option Alias)
      → (id == k) ≡ false
      → IsVerified d
      → Keeps IsVerified (deleting id d o)
  deleting-IsVerified id d none other h = h
  deleting-IsVerified id d (some a) other h = rw (find-drop id_of k id d.aliases other) h

  kept-stands :
      (now retention : ℕ) (aliases : List Alias) (o : Option Alias)
      → find id_of k aliases ≡ o
      → stands o ≡ true
      → stands (find id_of k (keep (λ a. not (is_terminal now retention a)) aliases)) ≡ true
  kept-stands now retention aliases none found h = ground (arith, h)
  kept-stands now retention aliases (some a) found h =
      let verified : a.status ≡ "verified" = (eq_iff a.status "verified").0 h in
      let kept : not (is_terminal now retention a) ≡ true = rw verified refl in
      rw (find-keep_found id_of k (λ x. not (is_terminal now retention x)) aliases a found kept) h

  sweep-IsVerified :
      (now retention : ℕ) (d : AliasesFile)
      → IsVerified d
      → Keeps IsVerified (sweep_in now retention d)
  sweep-IsVerified now retention d h =
      elim (Bool-cases (any (is_terminal now retention) d.aliases)) [
        | inl e ↦ rw e (kept-stands now retention d.aliases _ refl h)
        | inr e ↦ rw e tt
      ]

  step-IsVerified : (to_lower : String → String) → KeepsEach to_lower IsVerified DeletesOther
  unfolding create mark_verified mark_failed delete sweep_terminal
  step-IsVerified to_lower io now s (creates uuid code user_id email name) other h =
      transact-IsSound IsVerified io s _
        (create-IsVerified now user_id (to_lower email) name uuid code) h
  step-IsVerified to_lower io now s (verifies id) other h =
      transact-IsSound IsVerified io s _ (λ d. verifying-IsVerified now id d _ refl) h
  step-IsVerified to_lower io now s (fails id) other h =
      transact-IsSound IsVerified io s _ (λ d. failing-IsVerified now id d _ refl) h
  step-IsVerified to_lower io now s (deletes id) other h =
      transact-IsSound IsVerified io s _
        (λ d. deleting-IsVerified id d (find id_of id d.aliases) other) h
  step-IsVerified to_lower io now s (sweeps retention) other h =
      transact-IsSound IsVerified io s _ (sweep-IsVerified now retention) h

  -- An alias that Get finds verified, in memory and on disk, is found verified after any uses of the store
  -- but a deletion of its ID, whatever the disk does: it is neither failed nor swept away.
  pub verified-stays :
      (to_lower : String → String) (s : Store) (uses : Uses) (io : Io)
      → IsSound IsVerified s
      → All (λ u. DeletesOther u.1.1) uses
      → stands (get io (run to_lower s uses) k).0 ≡ true
  unfolding get
  verified-stays to_lower s uses io h other =
      (peek-IsSound IsVerified io (run to_lower s uses)
        (run-IsSound to_lower IsVerified DeletesOther s uses (step-IsVerified to_lower) other h)).0
