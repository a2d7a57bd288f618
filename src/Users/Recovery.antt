-- ===== src/Users/Recovery.antt =====
-- A recovery code is good for one use.
use mathlib.Core.Path.{subst}
use llama_labels.Common.{
  String, ◌≡◌, ◌≢◌, refl, Bool, true, false, ◌||◌, none, some, List, [], ◌∷◌, arith, eq_refl, inl,
  inr, ◌∙◌, Option-cases, Bool-cases,
}
use llama_labels.Disk.{holds, Io}
use llama_labels.Users.{User, UsersFile, Store, ok, find_user, has_id, mutate}
use llama_labels.Users.Operations.{consume_recovery_code, spend, spending}
use llama_labels.Users.Mutation.{mutate-Outcome, find_user-set_user, find_user-has_id, stamped}
use llama_labels.Users.Steps.{on_disk, matched-store}

same-user :
    (s : Store) (f : UsersFile) (id : String) (v a : User)
    → on_disk s id ≡ some v
    → s ≡ holds f
    → find_user (has_id id) f.users ≡ some a
    → v ≡ a
same-user s f id v a there held found =
    let t : on_disk (holds f) id ≡ some v = rw held at there in cc

module _ (verify : String → String → Bool) (candidate : String) where
  -- Whether a hash in the list fits the candidate.
  abbrev pub fits : List String → Bool
  fits [] = false
  fits (h ∷ hs) = verify h candidate || fits hs

  -- At most one hash in the list fits the candidate.
  abbrev pub FitsOnce : List String → Type 0
  FitsOnce [] = Unit
  FitsOnce (h ∷ hs) = (verify h candidate ≡ true → fits hs ≡ false) × FitsOnce hs

  spend_unfit : (hs : List String) → fits hs ≡ false → spend verify hs candidate ≡ none
  unfolding spend
  spend_unfit [] h = refl
  spend_unfit (x ∷ hs) h = ground (arith, spend_unfit hs)

  spend_once :
      (hs rest : List String)
      → FitsOnce hs
      → spend verify hs candidate ≡ some rest
      → fits rest ≡ false
  unfolding spend
  spend_once [] rest once h = ground arith
  spend_once (x ∷ hs) rest once h = elim (Bool-cases (verify x candidate)) [
    | inl v ↦ ground (arith, v, once.0)
    | inr v ↦ elim (Option-cases (spend verify hs candidate)) [
      | inl e ↦ ground arith
      | inr (r, e) ↦ ground (arith, spend_once hs r once.1 e)
    ]
  ]

  spend-spent :
      (u v : User)
      → spending verify candidate u ≡ ok v
      → (v.id ≡ u.id) × (spend verify u.recovery_codes_hash candidate ≡ some v.recovery_codes_hash)
  spend-spent u v h = ground arith

  accepted-unfit :
      (io : Io) (s : Store) (id now : String) (u v : User)
      → on_disk s id ≡ some v
      → FitsOnce v.recovery_codes_hash
      → (consume_recovery_code verify io s id candidate now).0 ≡ ok (some u)
      → (w : User) × (on_disk (consume_recovery_code verify io s id candidate now).1 id ≡ some w)
        × (fits w.recovery_codes_hash ≡ false)
  unfolding consume_recovery_code
  accepted-unfit io s id now u v there once h =
      elim (mutate-Outcome io s id now (spending verify candidate)) [
        | inl (e, p) ↦ absurd (ground (arith, p))
        | inr (f, a, b, held, found, made, p) ↦
            let (same, left) = spend-spent a b made in
            let w = stamped b now in
            let known : v ≡ a = same-user s f id v a there held found in
            (
              w,
              rw (matched-store (mutate io s id now (spending verify candidate)), p)
                  (find_user-set_user id id a w f.users found
                      (same ∙ find_user-has_id id a f.users found)
                    ∙ rw (eq_refl id)),
              spend_once a.recovery_codes_hash b.recovery_codes_hash
                  (subst (λ (x : User). FitsOnce x.recovery_codes_hash) known once) left,
            )
      ]

  unfit-refused :
      (io : Io) (s : Store) (id now : String) (u w : User)
      → on_disk s id ≡ some w
      → fits w.recovery_codes_hash ≡ false
      → (consume_recovery_code verify io s id candidate now).0 ≢ ok (some u)
  unfolding consume_recovery_code
  unfit-refused io s id now u w there unfit q =
      elim (mutate-Outcome io s id now (spending verify candidate)) [
        | inl (e, p) ↦ ground (arith, p)
        | inr (f, a, b, held, found, made, p) ↦
            let known : w ≡ a = same-user s f id w a there held found in
            ground (
              arith,
              (spend-spent a b made).1,
              spend_unfit a.recovery_codes_hash
                  (subst (λ (x : User). fits x.recovery_codes_hash ≡ false) known unfit),
            )
      ]

  -- After a recovery code was accepted for an account whose stored hashes it fits at most once, the
  -- same code is not accepted again by the store that the use left behind.
  pub recovery-code-once :
      (io io' : Io) (s : Store) (id now now' : String) (u u' v : User)
      → on_disk s id ≡ some v
      → FitsOnce v.recovery_codes_hash
      → (consume_recovery_code verify io s id candidate now).0 ≡ ok (some u)
      → (consume_recovery_code verify io'
          (consume_recovery_code verify io s id candidate now).1
          id
          candidate
          now').0
        ≢ ok (some u')
  recovery-code-once io io' s id now now' u u' v there once h =
      let (w, there', unfit) = accepted-unfit io s id now u v there once h in
      unfit-refused io' (consume_recovery_code verify io s id candidate now).1 id now' u' w there'
        unfit
