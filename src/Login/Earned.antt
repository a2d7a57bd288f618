-- ===== src/Login/Earned.antt =====
-- What it takes to complete a login challenge with a TOTP code.
use llama_labels.Common.{
  ℕ, String, ◌≡◌, refl, sym, ◌∙◌, Bool, not, ◌||◌, Option, none, some, arith, Bool-cases, inl, inr,
  if◌then◌else◌, ◌==◌,
}
use llama_labels.Common.Text.{trim_space}
use llama_labels.Users.Mutation.{get-has_id}
use llama_labels.Lockout.{allowed, record_success}
use llama_labels.Totp.{validate}
use llama_labels.Users.{User}
use llama_labels.Users as Users
use llama_labels.Users.Operations.{set_last_used_totp_step}
use llama_labels.Challenges.{
  Challenge, delete, consume_totp_step, record_totp_attempt, too_many_attempts,
  challenge_already_used,
}
use llama_labels.Challenges as Challenges
use llama_labels.Login as Login
use llama_labels.Login.{
  Server, Env, Reply, signed_in, unauthorized, with_session, start_session, sign_in,
}
use llama_labels.Login.SecondFactor.{
  step_recorded, step_consumed, code_checked, secret_opened, totp_account, with_challenge,
  handle_mfa_totp,
}

module _ (env : Env) (user_id : String) (m : Bool) where
  -- The reply is that the user is signed in.
  abbrev pub SignsIn : Reply × Server → Type 0
  SignsIn p = p.0 ≡ signed_in user_id m

  pub session-SignsIn :
      (u : User) (s : Server) (token csrf : Option String)
      → let p : Bool × Server = with_session env u.id s token csrf in
        (if p.0 then signed_in u.id u.must_change_password else Login.internal_error)
          ≡ signed_in user_id m
        → (u.id ≡ user_id) × (p.1.users ≡ s.users)
  session-SignsIn u s none csrf h = ground (arith, h)
  session-SignsIn u s (some t) none h = ground (arith, h)
  session-SignsIn u s (some t) (some c) h = (ground (arith, h), refl)

  -- The server once the challenge is completed.
  abbrev completed_server : Challenge → Server → Users.Store → Server
  completed_server ch s us = record s {
    users = us;
    mfa_lockout = record_success s.mfa_lockout ch.user_id;
    mfa_challenges = delete s.mfa_challenges ch.id;
  }

  -- The account is the user's, and its step was recorded by the request.
  abbrev pub IsRecorded : User → ℕ → Users.Store → Users.Store → Type 0
  IsRecorded u step before after =
      (v : User) × (((set_last_used_totp_step env.write_io before u.id step env.now_text).0
          ≡ Users.ok v)
        × ((u.id ≡ user_id)
            × (after ≡ (set_last_used_totp_step env.write_io before u.id step env.now_text).1)))

  recorded-SignsIn :
      (u : User) (ch : Challenge) (s : Server) (p : Users.Result User × Users.Store)
      → SignsIn (step_recorded env u ch s p)
      → (v : User) × ((p.0 ≡ Users.ok v)
          × ((u.id ≡ user_id) × ((step_recorded env u ch s p).1.users ≡ p.1)))
  unfolding start_session
  recorded-SignsIn u ch s (Users.err e, us) h = ground (arith, h)
  recorded-SignsIn u ch s (Users.ok v, us) h =
      let (same, kept) = session-SignsIn u (completed_server ch s us) env.token env.csrf_token h in
      (v, (refl, (same, kept)))

  consumed-IsRecorded :
      (u : User) (ch : Challenge) (step : ℕ) (s : Server)
      (q : Challenges.Result (Unit {0}) × Challenges.Store)
      → SignsIn (step_consumed env u ch step s q)
      → IsRecorded u step s.users (step_consumed env u ch step s q).1.users
  consumed-IsRecorded u ch step s (Challenges.err e, cs) h = ground (arith, h)
  consumed-IsRecorded u ch step s (Challenges.ok done, cs) h =
      recorded-SignsIn u ch (record s { mfa_challenges = cs })
        (set_last_used_totp_step env.write_io s.users u.id step env.now_text) h

  -- The code is that of a step of the account's secret, and the request recorded the step.
  abbrev pub IsEarned : String → Users.Store → Users.Store → Type 0
  IsEarned code before after =
      (u : User) × ((Users.get env.read_io before user_id ≡ Users.ok u)
        × ((secret : String) × ((env.open_totp_secret u.totp_secret_enc ≡ some secret)
              × ((step : ℕ) × ((validate env.generate_code secret code env.now ≡ some step)
                    × IsRecorded u step before after)))))

  checked-IsRecorded :
      (u : User) (ch : Challenge) (s : Server) (o : Option ℕ)
      → SignsIn (code_checked env u ch s o)
      → (step : ℕ) × ((o ≡ some step)
          × IsRecorded u step s.users (code_checked env u ch s o).1.users)
  checked-IsRecorded u ch s none h = ground (arith, h)
  checked-IsRecorded u ch s (some step) h = (
    step,
    (
      refl,
      consumed-IsRecorded u ch step s (consume_totp_step s.mfa_challenges ch.id step env.now) h,
    ),
  )

  opened-IsEarned :
      (code : String) (u : User) (ch : Challenge) (s : Server) (o : Option String)
      → env.open_totp_secret u.totp_secret_enc ≡ o
      → Users.get env.read_io s.users ch.user_id ≡ Users.ok u
      → SignsIn (secret_opened env code u ch s o)
      → IsEarned code s.users (secret_opened env code u ch s o).1.users
  opened-IsEarned code u ch s none opens found h = ground (arith, h)
  opened-IsEarned code u ch s (some secret) opens found h =
      let (step, (matched, recorded)) =
        checked-IsRecorded u ch s (validate env.generate_code secret code env.now) h in
      let same : ch.user_id ≡ user_id =
        sym (get-has_id env.read_io s.users ch.user_id u found) ∙ recorded.1.1.0 in
      (u, (rw same at found, (secret, (opens, (step, (matched, recorded))))))

  account-IsEarned :
      (code : String) (ch : Challenge) (s : Server) (r : Users.Result User)
      → Users.get env.read_io s.users ch.user_id ≡ r
      → SignsIn (totp_account env code ch s r)
      → IsEarned code s.users (totp_account env code ch s r).1.users
  account-IsEarned code ch s (Users.err e) found h = ground (arith, h)
  account-IsEarned code ch s (Users.ok u) found h =
      elim (Bool-cases (not u.active || (not u.totp_enabled || u.totp_secret_enc == ""))) [
        | inl e ↦ ground (arith, simp e at h)
        | inr e ↦ simp e (opened-IsEarned code u ch s _ refl found (simp e at h))
      ]

  challenge-IsEarned :
      (code : String) (s : Server) (p : Option Challenge × Challenges.Store)
      → let next : Challenge → Server → Reply × Server =
          λ ch s'. totp_account env code ch s' (Users.get env.read_io s'.users ch.user_id) in
        SignsIn (with_challenge env next s p)
        → IsEarned code s.users (with_challenge env next s p).1.users
  challenge-IsEarned code s (none, cs) h = ground (arith, h)
  challenge-IsEarned code s (some ch, cs) h =
      elim (Bool-cases (not (allowed s.mfa_lockout ch.user_id env.now).0)) [
        | inl e ↦ ground (arith, simp e at h)
        | inr e ↦
            simp e
              (account-IsEarned code ch (record s { mfa_challenges = cs }) _ refl (simp e at h))
      ]

  pub totp-IsEarned :
      (s : Server) (challenge_id code : String)
      → SignsIn (handle_mfa_totp env s (some (challenge_id, code)))
      → IsEarned code s.users (handle_mfa_totp env s (some (challenge_id, code))).1.users
  unfolding handle_mfa_totp
  totp-IsEarned s challenge_id code h =
      challenge-IsEarned code s (Challenges.get s.mfa_challenges (trim_space challenge_id) env.now)
        h
