-- ===== src/Login/Required.antt =====
-- handleLogin: what it takes to sign in with a password alone.
use llama_labels.Common.{
  ℕ, String, ◌≡◌, refl, Bool, true, false, ◌||◌, some, arith, Bool-cases, inl, inr,
}
use llama_labels.Lockout.{allowed, record_success}
use llama_labels.Users.{User, get_by_username}
use llama_labels.Users as Users
use llama_labels.Challenges.{create}
use llama_labels.Challenges as Challenges
use llama_labels.Login.{
  Server, Env, Captcha, not_configured, captcha_error, answers, signed_in, start_session,
  lockout_key, challenged, password_checked, found_account, captcha_checked, handle_allowed,
  handle_login,
}
use llama_labels.Login.Earned.{SignsIn, session-SignsIn}

module _ (env : Env) (user_id : String) (m : Bool) where
  -- The account is active, has the password and has no second factor.
  abbrev pub IsAlone : String → User → Type 0
  IsAlone password u =
      (u.id ≡ user_id)
      × ((u.active ≡ true)
          × ((env.verify u.password_hash password ≡ true)
              × ((u.totp_enabled ≡ false) × (u.push_mfa_enabled ≡ false))))

  challenged-not :
      (u : User) (s : Server) (p : Challenges.Result Challenges.Challenge × Challenges.Store)
      → ¬ SignsIn env user_id m (challenged env u s p)
  challenged-not u s (Challenges.err e, cs) h = ground (arith, h)
  challenged-not u s (Challenges.ok ch, cs) h = ground (arith, h)

  checked-SignsIn :
      (u : User) (s : Server)
      → SignsIn env user_id m (password_checked env u s)
      → (u.id ≡ user_id) × ((u.totp_enabled ≡ false) × (u.push_mfa_enabled ≡ false))
  unfolding start_session
  checked-SignsIn u s h = elim (Bool-cases (u.totp_enabled || u.push_mfa_enabled)) [
    | inl e ↦ absurd (challenged-not u s _ (simp e at h))
    | inr e ↦
        let (same, kept) =
          session-SignsIn env user_id m u s env.token env.csrf_token (simp e at h) in
        (same, (ground (arith, e), ground (arith, e)))
  ]

  found-IsAlone :
      (key password : String) (s : Server) (r : Users.Result User)
      → SignsIn env user_id m (found_account env key password s r)
      → (u : User) × ((r ≡ Users.ok u) × IsAlone password u)
  found-IsAlone key password s (Users.err e) h = ground (arith, h)
  found-IsAlone key password s (Users.ok u) h = elim (Bool-cases u.active) [
    | inl a ↦ elim (Bool-cases (env.verify u.password_hash password)) [
      | inl v ↦
          let (same, alone) =
            checked-SignsIn u (record s { login_lockout = record_success s.login_lockout key })
              (simp (a, v) at h) in
          (u, (refl, (same, (a, (v, alone)))))
      | inr v ↦ ground (arith, simp (a, v) at h)
    ]
    | inr a ↦ ground (arith, simp a at h)
  ]

  abbrev pub IsPassword : String → String → Server → Type 0
  IsPassword username password s =
      (u : User) × ((get_by_username env.read_io s.users username ≡ Users.ok u)
        × IsAlone password u)

  captcha-IsPassword :
      (key username password : String) (s : Server) (c : Captcha)
      → SignsIn env user_id m (captcha_checked env key username password s c)
      → IsPassword username password s
  captcha-IsPassword key username password s not_configured h = found-IsAlone key password s _ h
  captcha-IsPassword key username password s captcha_error h = ground (arith, h)
  captcha-IsPassword key username password s (answers true) h = found-IsAlone key password s _ h
  captcha-IsPassword key username password s (answers false) h = ground (arith, h)

  allowed-IsPassword :
      (username password : String) (s : Server) (p : Bool × ℕ)
      → SignsIn env user_id m (handle_allowed env username password s p)
      → (p.0 ≡ true) × IsPassword username password s
  allowed-IsPassword username password s (false, wait) h = ground (arith, h)
  allowed-IsPassword username password s (true, wait) h =
      (refl, captcha-IsPassword _ username password s env.captcha h)

  -- A login that signs a user in: the key of its username and address is not locked out, and the account
  -- that has the username is the user's, is active, has the password, and has no second factor.
  pub login-IsPassword :
      (s : Server) (username password : String)
      → (handle_login env s (some (username, password))).0 ≡ signed_in user_id m
      → ((allowed s.login_lockout (lockout_key username env.client_ip) env.now).0 ≡ true)
        × IsPassword username password s
  unfolding handle_login
  login-IsPassword s username password h =
      allowed-IsPassword username password s
        (allowed s.login_lockout (lockout_key username env.client_ip) env.now) h
