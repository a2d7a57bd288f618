-- ===== src/Users/Replay.antt =====
-- Replay protection that is kept with the account: TOTP steps and recovery codes.
use llama_labels.Common.{ℕ, ◌≤◌, String, ◌≡◌, ◌≢◌, Bool, some, arith, eq_refl, inl, inr, ◌∙◌}
use llama_labels.Disk.{Io}
use llama_labels.Users.{User, Store, ok}
use llama_labels.Users.Operations.{set_last_used_totp_step, advance_step}
use llama_labels.Users.Mutation.{mutate-Outcome, find_user-set_user, find_user-has_id, stamped}
use llama_labels.Users.Steps.{HasStep, HasStep-Later, Later, on_disk}

advanced :
    (n : ℕ) (u v : User) → advance_step n u ≡ ok v → (v.id ≡ u.id) × (v.last_used_totp_step ≡ n)
advanced n u v h = ground arith

accepted-HasStep :
    (io : Io) (s : Store) (id now : String) (n : ℕ) (u : User)
    → (set_last_used_totp_step io s id n now).0 ≡ ok u
    → HasStep n (on_disk (set_last_used_totp_step io s id n now).1 id)
unfolding set_last_used_totp_step
accepted-HasStep io s id now n u h = elim (mutate-Outcome io s id now (advance_step n)) [
  | inl (e, p) ↦ ground (arith, p)
  | inr (f, u', v, held, found, made, p) ↦
      let w = stamped v now in
      let same = (advanced n u' v made).0 ∙ find_user-has_id id u' f.users found in
      rw (p, find_user-set_user id id u' w f.users found same, eq_refl id)
        (omega (arith, (advanced n u' v made).1))
]

refused_again :
    (io : Io) (s : Store) (id now : String) (n m : ℕ) (u : User)
    → HasStep m (on_disk s id)
    → n ≤ m
    → (set_last_used_totp_step io s id n now).0 ≢ ok u
unfolding set_last_used_totp_step
refused_again io s id now n m u h le q = elim (mutate-Outcome io s id now (advance_step n)) [
  | inl (e, p) ↦ ground (arith, p)
  | inr (f, u', v, held, found, made, p) ↦
      let h' : HasStep m (some u') = rw (held, found) at h in ground (arith, made)
]

-- A TOTP step that the account has accepted is never accepted again, nor is an earlier one: not after
-- any operations of the store, one after the other, by any process and with whatever the disk does in
-- between.
pub totp-replay :
    (verify : String → String → Bool) (io io' : Io) (s t : Store) (id now now' : String) (n n' : ℕ)
    (u u' : User)
    → (set_last_used_totp_step io s id n now).0 ≡ ok u
    → Later verify (set_last_used_totp_step io s id n now).1 t
    → n' ≤ n
    → (set_last_used_totp_step io' t id n' now').0 ≢ ok u'
totp-replay verify io io' s t id now now' n n' u u' h r le =
    refused_again io' t id now' n' n u' (HasStep-Later id n r (accepted-HasStep io s id now n u h))
      le
