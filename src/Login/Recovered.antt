-- ===== src/Login/Recovered.antt =====
-- handleMFARecoveryCode: what it takes to complete a login challenge with a recovery code, and that a code
-- does it once.
use llama_labels.Common.{
  String, ◌≡◌, ◌≢◌, refl, ap, ◌∙◌, Bool, not, ◌||◌, Option, none, some, arith, Bool-cases, inl, inr,
}
use llama_labels.Common.Text.{trim_space}
use llama_labels.Lockout.{allowed, record_success}
use llama_labels.Users.{User}
use llama_labels.Users as Users
use llama_labels.Users.Operations.{consume_recovery_code}
use llama_labels.Users.Steps.{on_disk}
use llama_labels.Users.Recovery.{FitsOnce, recovery-code-once}
use llama_labels.Challenges.{Challenge, delete}
use llama_labels.Challenges as Challenges
use llama_labels.Login.{Server, Env, Reply, signed_in, start_session}
use llama_labels.Login.SecondFactor.{
  recovery_checked, recovery_account, with_challenge, handle_mfa_recovery_code,
}
use llama_labels.Login.Earned.{SignsIn, session-SignsIn}

module _ (env : Env) (user_id : String) (m : Bool) where
  -- The request spent a recovery code of the user's account.
  abbrev pub IsSpent : String → Users.Store → Users.Store → Type 0
  IsSpent code before after =
      (v : User) × (((consume_recovery_code env.verify env.write_io before user_id (trim_space code)
            env.now_text).0
          ≡ Users.ok (some v))
        × (after
            ≡ (consume_recovery_code env.verify env.write_io before user_id (trim_space code)
                env.now_text).1))

  completed-same :
      (u : User) (ch : Challenge) (s : Server) (v : User) (us : Users.Store)
      → SignsIn env user_id m (recovery_checked env u ch s (Users.ok (some v), us))
      → (u.id ≡ user_id) × ((recovery_checked env u ch s (Users.ok (some v), us)).1.users ≡ us)
  unfolding start_session
  completed-same u ch s v us h =
      session-SignsIn env user_id m u
        (record s {
          users = us;
          mfa_lockout = record_success s.mfa_lockout ch.user_id;
          mfa_challenges = delete s.mfa_challenges ch.id;
        })
        env.token env.csrf_token h

  checked-SignsIn :
      (u : User) (ch : Challenge) (s : Server) (p : Users.Result (Option User) × Users.Store)
      → SignsIn env user_id m (recovery_checked env u ch s p)
      → (v : User) × ((p.0 ≡ Users.ok (some v))
          × ((u.id ≡ user_id) × ((recovery_checked env u ch s p).1.users ≡ p.1)))
  checked-SignsIn u ch s (Users.err e, us) h = ground (arith, h)
  checked-SignsIn u ch s (Users.ok none, us) h = ground (arith, h)
  checked-SignsIn u ch s (Users.ok (some v), us) h = (v, (refl, completed-same u ch s v us h))

  account-IsSpent :
      (code : String) (ch : Challenge) (s : Server) (r : Users.Result User)
      → SignsIn env user_id m (recovery_account env code ch s r)
      → IsSpent code s.users (recovery_account env code ch s r).1.users
  account-IsSpent code ch s (Users.err e) h = ground (arith, h)
  account-IsSpent code ch s (Users.ok u) h =
      elim (Bool-cases (not u.active || not u.totp_enabled)) [
        | inl e ↦ ground (arith, simp e at h)
        | inr e ↦
            let (v, (spent, (same, kept))) = checked-SignsIn u ch s _ (simp e at h) in
            let left : String → Users.Store = λ id.
              (consume_recovery_code env.verify env.write_io s.users id (trim_space code)
                env.now_text).1 in
            (v, (rw same at spent, simp e (kept ∙ ap left same)))
      ]

  challenge-IsSpent :
      (code : String) (s : Server) (p : Option Challenge × Challenges.Store)
      → let next : Challenge → Server → Reply × Server =
          λ ch s'. recovery_account env code ch s' (Users.get env.read_io s'.users ch.user_id) in
        SignsIn env user_id m (with_challenge env next s p)
        → IsSpent code s.users (with_challenge env next s p).1.users
  challenge-IsSpent code s (none, cs) h = ground (arith, h)
  challenge-IsSpent code s (some ch, cs) h =
      elim (Bool-cases (not (allowed s.mfa_lockout ch.user_id env.now).0)) [
        | inl e ↦ ground (arith, simp e at h)
        | inr e ↦
            simp e (account-IsSpent code ch (record s { mfa_challenges = cs }) _ (simp e at h))
      ]

  pub recovery-IsSpent :
      (s : Server) (challenge_id code : String)
      → SignsIn env user_id m (handle_mfa_recovery_code env s (some (challenge_id, code)))
      → IsSpent code s.users (handle_mfa_recovery_code env s (some (challenge_id, code))).1.users
  unfolding handle_mfa_recovery_code
  recovery-IsSpent s challenge_id code h =
      challenge-IsSpent code s (Challenges.get s.mfa_challenges (trim_space challenge_id) env.now) h

-- A recovery code that fits at most one of its account's stored hashes completes one login challenge: the next
-- request that finds the accounts as the first left them is not signed in with a code that trims to the same
-- text, on whatever challenge, where both requests compare hashes the same way.
pub recovery-login_once :
    (env env' : Env) (s t : Server) (user_id challenge_id challenge_id' code code' : String)
    (m m' : Bool) (u : User)
    → on_disk s.users user_id ≡ some u
    → FitsOnce env.verify (trim_space code) u.recovery_codes_hash
    → env'.verify ≡ env.verify
    → trim_space code' ≡ trim_space code
    → (handle_mfa_recovery_code env s (some (challenge_id, code))).0 ≡ signed_in user_id m
    → t.users ≡ (handle_mfa_recovery_code env s (some (challenge_id, code))).1.users
    → (handle_mfa_recovery_code env' t (some (challenge_id', code'))).0 ≢ signed_in user_id m'
recovery-login_once env env' s t user_id challenge_id challenge_id' code code' m m' u there once
      same_verify same_code first kept second =
    let (v, (spent, left)) = recovery-IsSpent env user_id m s challenge_id code first in
    let (v', (spent', left')) = recovery-IsSpent env' user_id m' t challenge_id' code' second in
    recovery-code-once env.verify (trim_space code) env.write_io env'.write_io s.users user_id
      env.now_text env'.now_text v v' u there once spent
      (rw (same_verify, same_code, kept, left) at spent')
