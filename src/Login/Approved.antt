-- ===== src/Login/Approved.antt =====
-- handlePushFinish: what it takes to complete a login challenge with an approval, and that it is done once.
use llama_labels.Common.{
  ℕ, ◌+◌, ◌≤◌, String, ◌≡◌, refl, ap, sym, ◌∙◌, Bool, true, some, List, arith, Bool-cases, inl, inr,
}
use llama_labels.Common.Text.{trim_space}
use llama_labels.Common.Dict.{IsMap}
use llama_labels.Users.{User}
use llama_labels.Users as Users
use llama_labels.Challenges.{
  Call, create, run, challenge_ttl, consume_push_approval, push_not_approved,
}
use llama_labels.Challenges as Challenges
use llama_labels.Challenges.Redeem.{Avoids, any_approves, redeem-provenance}
use llama_labels.Users.Mutation.{get-has_id}
use llama_labels.Login.{Server, Env, signed_in, start_session}
use llama_labels.Login.SecondFactor.{push_account, push_redeemed, handle_push_finish}
use llama_labels.Login.Earned.{SignsIn, session-SignsIn}

-- The account is found, active, and has its logins approved by a device.
abbrev pub CanApprove : Env → String → Server → Type 0
CanApprove env user_id s =
    (u : User) × ((Users.get env.read_io s.users user_id ≡ Users.ok u)
      × ((u.active ≡ true) × (u.push_mfa_enabled ≡ true)))

module _ (env : Env) (user_id : String) (m : Bool) where
  account-CanApprove :
      (s : Server) (id : String) (r : Users.Result User)
      → Users.get env.read_io s.users id ≡ r
      → SignsIn env user_id m (push_account env s r)
      → (id ≡ user_id) × CanApprove env user_id s
  unfolding start_session
  account-CanApprove s id (Users.err e) found h = ground (arith, h)
  account-CanApprove s id (Users.ok u) found h = elim (Bool-cases u.active) [
    | inl a ↦ elim (Bool-cases u.push_mfa_enabled) [
      | inl p ↦
          let (same, kept) =
            session-SignsIn env user_id m u s env.token env.csrf_token (simp (a, p) at h) in
          let named : id ≡ user_id = sym (get-has_id env.read_io s.users id u found) ∙ same in
          (named, (u, (rw named at found, (a, p))))
      | inr p ↦ ground (arith, simp (a, p) at h)
    ]
    | inr a ↦ ground (arith, simp a at h)
  ]

  redeemed-CanApprove :
      (s : Server) (p : Challenges.Result String × Challenges.Store)
      → SignsIn env user_id m (push_redeemed env s p)
      → (p.0 ≡ Challenges.ok user_id) × CanApprove env user_id s
  redeemed-CanApprove s (Challenges.err push_not_approved, cs) h = ground (arith, h)
  redeemed-CanApprove s (Challenges.err e, cs) h = ground (arith, h)
  redeemed-CanApprove s (Challenges.ok id, cs) h =
      let (same, can) = account-CanApprove (record s { mfa_challenges = cs }) id _ refl h in
      (ap (λ x. Challenges.ok x) same, can)

  finish-CanApprove :
      (s : Server) (challenge_id : String)
      → SignsIn env user_id m (handle_push_finish env s (some challenge_id))
      → ((consume_push_approval s.mfa_challenges (trim_space challenge_id) env.now).0
          ≡ Challenges.ok user_id)
        × CanApprove env user_id s
  unfolding handle_push_finish
  finish-CanApprove s challenge_id h = redeemed-CanApprove s _ h

-- A login challenge that was created for `user` under the ID `k`, in a store in which no ID stands twice, and
-- that a request completes by an approval after any calls that do not draw `k` again: it signs `user` in, a
-- call has approved the challenge, its time to live has not passed, and the account is found, active and with
-- logins approved by a device.
pub finish-IsApproved :
    (env : Env) (s : Server) (cs : Challenges.Store) (calls : List (ℕ × Call))
    (k user user_id challenge_id : String) (born : ℕ) (m : Bool)
    → IsMap cs.m
    → Avoids k calls
    → s.mfa_challenges ≡ run (create cs user (some k) born).1 calls
    → trim_space challenge_id ≡ k
    → (handle_push_finish env s (some challenge_id)).0 ≡ signed_in user_id m
    → (user_id ≡ user)
      × ((any_approves k calls ≡ true)
          × ((env.now ≤ born + challenge_ttl) × CanApprove env user_id s))
finish-IsApproved env s cs calls k user user_id challenge_id born m w a kept trimmed h =
    let (redeemed, can) = finish-CanApprove env user_id m s challenge_id h in
    let (same, approved, alive) =
      redeem-provenance cs k user user_id born env.now calls w a (rw (kept, trimmed) at redeemed) in
    (same, (approved, (alive, can)))
