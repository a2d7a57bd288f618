-- ===== src/Users/Steps.antt =====
-- Any use of the account store: one step for each operation that changes it, by the API or by the
-- daemon, with whatever the disk does.
use llama_labels.Common.{
  ℕ, ◌≤◌, String, ◌≡◌, refl, Bool, Option, none, some, List, [], ◌∷◌, ◌++◌, arith, eq_iff, inl, inr,
  Bool-cases,
}
use llama_labels.Disk.{absent, corrupt, holds, Io}
use llama_labels.Users.{
  Role, User, UsersFile, Store, Result, ok, err, recovery_code_no_match, find_user, has_id,
  set_user, wrote, mutate, create, read_locked, write_locked, new_user,
}
use llama_labels.Users.Operations.{
  set_role, set_password, clear_must_change_password, deactivate, reactivate,
  set_pending_totp_secret, enable_totp, disable_totp, set_push_mfa_enabled, set_last_used_totp_step,
  set_pgp_identity, clear_pgp_identity, replace_recovery_codes, consume_recovery_code, matched,
  spending,
}
use llama_labels.Users.Mutation.{mutate-Outcome, stamped}

pub data Step (verify : String → String → Bool) (s : Store) : Store → Type 0 where
  creates :
      (io : Io) (username : String) (hash id : Option String) (role : Role) (now : String)
      → Step verify s (create io s username hash id role now).1
  sets_role :
      (io : Io) (id : String) (role : Role) (now : String)
      → Step verify s (set_role io s id role now).1
  sets_password :
      (io : Io) (id : String) (hash : Option String) (require_change : Bool) (now : String)
      → Step verify s (set_password io s id hash require_change now).1
  clears_must_change :
      (io : Io) (id now : String) → Step verify s (clear_must_change_password io s id now).1
  deactivates : (io : Io) (id now : String) → Step verify s (deactivate io s id now).1
  reactivates : (io : Io) (id now : String) → Step verify s (reactivate io s id now).1
  stages_totp :
      (io : Io) (id secret_enc now : String)
      → Step verify s (set_pending_totp_secret io s id secret_enc now).1
  enables_totp :
      (io : Io) (id confirmed_at : String) (hashes : List String) (now : String)
      → Step verify s (enable_totp io s id confirmed_at hashes now).1
  disables_totp : (io : Io) (id now : String) → Step verify s (disable_totp io s id now).1
  sets_push_mfa :
      (io : Io) (id : String) (enabled : Bool) (now : String)
      → Step verify s (set_push_mfa_enabled io s id enabled now).1
  records_step :
      (io : Io) (id : String) (totp_step : ℕ) (now : String)
      → Step verify s (set_last_used_totp_step io s id totp_step now).1
  sets_pgp :
      (io : Io) (id fingerprint key_id public_key private_key_enc source created_at now : String)
      → Step verify s
          (set_pgp_identity io s id fingerprint key_id public_key private_key_enc source created_at
            now).1
  clears_pgp : (io : Io) (id now : String) → Step verify s (clear_pgp_identity io s id now).1
  replaces_codes :
      (io : Io) (id : String) (hashes : List String) (now : String)
      → Step verify s (replace_recovery_codes io s id hashes now).1
  uses_code :
      (io : Io) (id candidate now : String)
      → Step verify s (consume_recovery_code verify io s id candidate now).1

-- The stores that operations make of `s`, whoever runs them.
pub data Later (verify : String → String → Bool) : Store → Store → Type 0 where
  unchanged : {s : Store} → Later verify s s
  changed : {s t u : Store} → Step verify s t → Later verify t u → Later verify s u

-- The account as it stands in the file.
abbrev pub on_disk : Store → String → Option User
on_disk absent id = none
on_disk corrupt id = none
on_disk (holds f) id = find_user (has_id id) f.users

-- The account has accepted a step of at least `n`.
abbrev pub HasStep : ℕ → Option User → Type 0
HasStep n none = ⊥
HasStep n (some u) = n ≤ u.last_used_totp_step

-- The function keeps the ID and never lowers the step.
abbrev pub Grows : (User → Result User) → Type 0
Grows fn =
    (u v : User) → fn u ≡ ok v → (v.id ≡ u.id) × (u.last_used_totp_step ≤ v.last_used_totp_step)

HasStep-set_user :
    (id j : String) (u v : User) (us : List User) (n : ℕ)
    → find_user (has_id id) us ≡ some u
    → v.id ≡ u.id
    → u.last_used_totp_step ≤ v.last_used_totp_step
    → HasStep n (find_user (has_id j) us)
    → HasStep n (find_user (has_id j) (set_user id v us))
unfolding find_user set_user
HasStep-set_user id j u v [] n found same le h = h
HasStep-set_user id j u v (w ∷ us) n found same le h =
    ground (arith, eq_iff w.id id, eq_iff w.id j, eq_iff v.id j, HasStep-set_user id j u v us n)

HasStep-mutate :
    (io : Io) (s : Store) (id j now : String) (fn : User → Result User) (n : ℕ)
    → Grows fn
    → HasStep n (on_disk s j)
    → HasStep n (on_disk (mutate io s id now fn).1 j)
HasStep-mutate io s id j now fn n grows h = elim (mutate-Outcome io s id now fn) [
  | inl (e, p) ↦ rw p h
  | inr (f, u, v, held, found, made, p) ↦ rw p (
      HasStep-set_user id j u (stamped v now) f.users n found (grows u v made).0 (grows u v made).1
        (rw held at h))
]

HasStep-append :
    (j : String) (v : User) (us : List User) (n : ℕ)
    → HasStep n (find_user (has_id j) us)
    → HasStep n (find_user (has_id j) (us ++ v ∷ []))
unfolding find_user
HasStep-append j v [] n h = absurd h
HasStep-append j v (w ∷ us) n h = ground (arith, HasStep-append j v us n)

HasStep-wrote :
    (io : Io) (f : UsersFile) (v : User) (j : String) (n : ℕ)
    → HasStep n (find_user (has_id j) f.users)
    → HasStep n (on_disk (wrote io (record f { users = f.users ++ v ∷ [] }) (holds f) v).1 j)
unfolding write_locked
HasStep-wrote io f v j n h = elim (Bool-cases io.can_write) [
  | inl w ↦ rw w (HasStep-append j v f.users n h)
  | inr w ↦ rw w h
]

HasStep-create :
    (io : Io) (s : Store) (username : String) (hash id : Option String) (role : Role)
    (now j : String) (n : ℕ)
    → HasStep n (on_disk s j)
    → HasStep n (on_disk (create io s username hash id role now).1 j)
unfolding create read_locked
HasStep-create io absent username hash id role now j n h = absurd h
HasStep-create io corrupt username hash id role now j n h = absurd h
HasStep-create io (holds f) username none id role now j n h = ground arith
HasStep-create io (holds f) username (some hash) none role now j n h = ground arith
HasStep-create io (holds f) username (some hash) (some id) role now j n h =
    ground (arith, HasStep-wrote io f (new_user id username hash role now) j n h)

pub matched-store : (r : Result User × Store) → (matched r).1 ≡ r.1
matched-store (ok u, s) = refl
matched-store (err recovery_code_no_match, s) = refl
matched-store (err e, s) = refl

spending-Grows :
    (verify : String → String → Bool) (candidate : String) → Grows (spending verify candidate)
spending-Grows verify candidate u v e = ground arith

-- No operation of the store lowers the step that an account has on record.
HasStep-Step :
    {verify : String → String → Bool} {s t : Store} (j : String) (n : ℕ)
    → Step verify s t
    → HasStep n (on_disk s j)
    → HasStep n (on_disk t j)
unfolding set_role set_password clear_must_change_password deactivate reactivate
    set_pending_totp_secret enable_totp disable_totp set_push_mfa_enabled set_last_used_totp_step
    set_pgp_identity clear_pgp_identity replace_recovery_codes consume_recovery_code
HasStep-Step {s} j n (creates io username hash id role now) h =
    HasStep-create io s username hash id role now j n h
HasStep-Step {s} j n (sets_role io id role now) h =
    HasStep-mutate io s id j now _ n (λ u v e. ground arith) h
HasStep-Step {s} j n (sets_password io id none require now) h = h
HasStep-Step {s} j n (sets_password io id (some hash) require now) h =
    HasStep-mutate io s id j now _ n (λ u v e. ground arith) h
HasStep-Step {s} j n (clears_must_change io id now) h =
    HasStep-mutate io s id j now _ n (λ u v e. ground arith) h
HasStep-Step {s} j n (deactivates io id now) h =
    HasStep-mutate io s id j now _ n (λ u v e. ground arith) h
HasStep-Step {s} j n (reactivates io id now) h =
    HasStep-mutate io s id j now _ n (λ u v e. ground arith) h
HasStep-Step {s} j n (stages_totp io id secret now) h =
    HasStep-mutate io s id j now _ n (λ u v e. ground arith) h
HasStep-Step {s} j n (enables_totp io id at hashes now) h =
    HasStep-mutate io s id j now _ n (λ u v e. ground arith) h
HasStep-Step {s} j n (disables_totp io id now) h =
    HasStep-mutate io s id j now _ n (λ u v e. ground arith) h
HasStep-Step {s} j n (sets_push_mfa io id enabled now) h =
    HasStep-mutate io s id j now _ n (λ u v e. ground arith) h
HasStep-Step {s} j n (records_step io id m now) h =
    HasStep-mutate io s id j now _ n (λ u v e. ground arith) h
HasStep-Step {s} j n (sets_pgp io id a b c d e f now) h =
    HasStep-mutate io s id j now _ n (λ u v e. ground arith) h
HasStep-Step {s} j n (clears_pgp io id now) h =
    HasStep-mutate io s id j now _ n (λ u v e. ground arith) h
HasStep-Step {s} j n (replaces_codes io id hashes now) h =
    HasStep-mutate io s id j now _ n (λ u v e. ground arith) h
HasStep-Step {verify} {s} j n (uses_code io id candidate now) h =
    rw (matched-store (mutate io s id now (spending verify candidate))) (
      HasStep-mutate io s id j now (spending verify candidate) n (spending-Grows verify candidate)
        h)

pub HasStep-Later :
    {verify : String → String → Bool} {s t : Store} (j : String) (n : ℕ)
    → Later verify s t
    → HasStep n (on_disk s j)
    → HasStep n (on_disk t j)
HasStep-Later j n unchanged h = h
HasStep-Later j n (changed st more) h = HasStep-Later j n more (HasStep-Step j n st h)
