-- ===== src/SendAs/Earned.antt =====
-- sendas/store.go: how an alias becomes verified.
use llama_labels.Common.{
  ℕ, String, ◌≡◌, refl, Bool, false, ◌&&◌, Option, none, some, arith, any, All, Bool-cases, inl,
  inr, ◌==◌, any-append, any-replace, any-drop, any-keep, any-found,
}
use llama_labels.Common.Keyed.{find, has_key, found-key}
use llama_labels.Disk.{Io}
use llama_labels.Document.{peek}
use llama_labels.Document.Runs.{IsSound, Keeps, transact-IsSound, peek-IsSound}
use llama_labels.SendAs.{
  Alias, AliasesFile, Store, id_of, is_verified, create_with, verifying, failing, deleting,
  sweep_in, is_terminal, create, mark_verified, mark_failed, delete, sweep_terminal,
  find_verified_by_email,
}
use llama_labels.SendAs.Uses.{
  Use, creates, verifies, fails, deletes, sweeps, Uses, run, KeepsEach, run-IsSound,
}

module _ (k : String) where
  abbrev marked : Alias → Bool
  marked a = a.id == k && is_verified a

  -- No alias with the ID is verified.
  abbrev pub IsUnverified : AliasesFile → Type 0
  IsUnverified d = any marked d.aliases ≡ false

  abbrev pub VerifiesOther : Use → Type 0
  VerifiesOther (verifies id) = (id == k) ≡ false
  VerifiesOther u = Unit

  create-IsUnverified :
      (now : ℕ) (user_id email name : String) (uuid code : Option String) (d : AliasesFile)
      → IsUnverified d
      → Keeps IsUnverified (create_with now user_id email name uuid code d)
  create-IsUnverified now user_id email name none code d h = h
  create-IsUnverified now user_id email name (some id) none d h = h
  create-IsUnverified now user_id email name (some id) (some code) d h =
      any-append marked d.aliases _ (ground arith) h

  verifying-IsUnverified :
      (now : ℕ) (id : String) (d : AliasesFile) (o : Option Alias)
      → find id_of id d.aliases ≡ o
      → (id == k) ≡ false
      → IsUnverified d
      → Keeps IsUnverified (verifying now id d o)
  verifying-IsUnverified now id d none found other h = h
  verifying-IsUnverified now id d (some a) found other h = elim (Bool-cases (is_verified a)) [
    | inl e ↦ rw e tt
    | inr e ↦
        let named = found-key id_of id d.aliases a found in
        rw e (any-replace marked (has_key id_of id) d.aliases _ (ground (arith, named, other)) h)
  ]

  failing-IsUnverified :
      (now : ℕ) (id : String) (d : AliasesFile) (o : Option Alias)
      → IsUnverified d
      → Keeps IsUnverified (failing now id d o)
  failing-IsUnverified now id d none h = h
  failing-IsUnverified now id d (some a) h = elim (Bool-cases (a.status == "pending")) [
    | inl e ↦ rw e (any-replace marked (has_key id_of id) d.aliases _ (ground arith) h)
    | inr e ↦ rw e h
  ]

  deleting-IsUnverified :
      (id : String) (d : AliasesFile) (o : Option Alias)
      → IsUnverified d
      → Keeps IsUnverified (deleting id d o)
  deleting-IsUnverified id d none h = h
  deleting-IsUnverified id d (some a) h = any-drop marked (has_key id_of id) d.aliases h

  sweep-IsUnverified :
      (now retention : ℕ) (d : AliasesFile)
      → IsUnverified d
      → Keeps IsUnverified (sweep_in now retention d)
  sweep-IsUnverified now retention d h =
      elim (Bool-cases (any (is_terminal now retention) d.aliases)) [
        | inl e ↦ rw e (any-keep marked _ d.aliases h)
        | inr e ↦ rw e tt
      ]

  step-IsUnverified : (to_lower : String → String) → KeepsEach to_lower IsUnverified VerifiesOther
  unfolding create mark_verified mark_failed delete sweep_terminal
  step-IsUnverified to_lower io now s (creates uuid code user_id email name) other h =
      transact-IsSound IsUnverified io s _
        (create-IsUnverified now user_id (to_lower email) name uuid code) h
  step-IsUnverified to_lower io now s (verifies id) other h =
      transact-IsSound IsUnverified io s _ (λ d. verifying-IsUnverified now id d _ refl other) h
  step-IsUnverified to_lower io now s (fails id) other h =
      transact-IsSound IsUnverified io s _
        (λ d. failing-IsUnverified now id d (find id_of id d.aliases)) h
  step-IsUnverified to_lower io now s (deletes id) other h =
      transact-IsSound IsUnverified io s _
        (λ d. deleting-IsUnverified id d (find id_of id d.aliases)) h
  step-IsUnverified to_lower io now s (sweeps retention) other h =
      transact-IsSound IsUnverified io s _ (sweep-IsUnverified now retention) h

  -- An ID of which no alias is verified, in memory and on disk, is not what a later search for a verified
  -- address finds: not after any uses of the store but a MarkVerified of that ID, whatever the disk does.
  pub verified-earned :
      (to_lower : String → String) (s : Store) (uses : Uses) (io : Io) (email : String) (a : Alias)
      → IsSound IsUnverified s
      → All (λ u. VerifiesOther u.1.1) uses
      → (find_verified_by_email to_lower io (run to_lower s uses) email).0 ≡ some a
      → (a.id == k) ≡ false
  unfolding find_verified_by_email
  verified-earned to_lower s uses io email a h other found =
      let end =
        run-IsSound to_lower IsUnverified VerifiesOther s uses (step-IsUnverified to_lower) other
          h in
      let seen = peek-IsSound IsUnverified io (run to_lower s uses) end in
      any-found marked _ (λ x. x.id == k) (peek io (run to_lower s uses)).memory.aliases a
        (λ x e. ground (arith, e)) seen.0 found
