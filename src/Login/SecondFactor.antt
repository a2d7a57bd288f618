-- ===== src/Login/SecondFactor.antt =====
-- backend/internal/api/server.go, handleMFATOTP and handleMFARecoveryCode, and push_mfa_handlers.go,
-- handlePushPoll and handlePushFinish: what completes a login challenge.
use llama_labels.Common.{ℕ, String, not, ◌||◌, Option, none, some, if◌then◌else◌, ◌==◌}
use llama_labels.Common.Text.{trim_space}
use llama_labels.Lockout.{allowed, record_failure, record_success}
use llama_labels.Totp.{validate}
use llama_labels.Users.{User}
use llama_labels.Users as Users
use llama_labels.Users.Operations.{set_last_used_totp_step, consume_recovery_code}
use llama_labels.Challenges.{
  Challenge, get, record_totp_attempt, consume_totp_step, delete, consume_push_approval,
  push_status, PushStatus, too_many_attempts, challenge_already_used, push_not_approved,
}
use llama_labels.Challenges as Challenges
use llama_labels.Login.{
  Server, Env, Reply, bad_request, internal_error, conflict, unauthorized, sign_in, start_session,
}
use llama_labels.Login as Login

abbrev bad_challenge_text : String
bad_challenge_text = "invalid or expired challenge"

abbrev pub bad_challenge : Reply
bad_challenge = unauthorized bad_challenge_text

-- A wrong code counts against the account and against the challenge.
abbrev counted_text : Challenges.Result (Unit {0}) → String
counted_text (Challenges.ok done) = "invalid code"
counted_text (Challenges.err too_many_attempts) = "too many attempts"
counted_text (Challenges.err e) = "invalid code"

abbrev pub wrong_code : Env → Server → Challenge → Reply × Server
wrong_code env s ch =
    let (r, cs) = record_totp_attempt s.mfa_challenges ch.id env.now in
    (
      unauthorized (counted_text r),
      record s {
        mfa_lockout = record_failure s.mfa_lockout ch.user_id env.now;
        mfa_challenges = cs;
      },
    )

-- The challenge is gone and the account's failures are forgotten.
abbrev pub completed : Env → User → Challenge → Server → Reply × Server
completed env u ch s = sign_in env u (record s {
  mfa_lockout = record_success s.mfa_lockout ch.user_id;
  mfa_challenges = delete s.mfa_challenges ch.id;
})

abbrev pub step_recorded :
    Env → User → Challenge → Server → Users.Result User × Users.Store → Reply × Server
step_recorded env u ch s (Users.err e, us) = (
  unauthorized "invalid code",
  record s {
    users = us;
    mfa_lockout = record_failure s.mfa_lockout ch.user_id env.now;
    mfa_challenges = delete s.mfa_challenges ch.id;
  },
)
step_recorded env u ch s (Users.ok v, us) = completed env u ch (record s { users = us })

abbrev consumed_text : Challenges.Error → String
consumed_text challenge_already_used = "challenge already used"
consumed_text e = bad_challenge_text

abbrev pub step_consumed :
    Env
    → User
    → Challenge
    → ℕ
    → Server
    → Challenges.Result (Unit {0}) × Challenges.Store
    → Reply × Server
step_consumed env u ch step s (Challenges.err e, cs) =
    (unauthorized (consumed_text e), record s { mfa_challenges = cs })
step_consumed env u ch step s (Challenges.ok done, cs) =
    step_recorded env u ch (record s { mfa_challenges = cs })
      (set_last_used_totp_step env.write_io s.users u.id step env.now_text)

abbrev pub code_checked : Env → User → Challenge → Server → Option ℕ → Reply × Server
code_checked env u ch s none = wrong_code env s ch
code_checked env u ch s (some step) =
    step_consumed env u ch step s (consume_totp_step s.mfa_challenges ch.id step env.now)

abbrev pub secret_opened : Env → String → User → Challenge → Server → Option String → Reply × Server
secret_opened env code u ch s none = (internal_error, s)
secret_opened env code u ch s (some secret) =
    code_checked env u ch s (validate env.generate_code secret code env.now)

abbrev pub totp_account : Env → String → Challenge → Server → Users.Result User → Reply × Server
totp_account env code ch s (Users.err e) = (bad_challenge, s)
totp_account env code ch s (Users.ok u) =
    if not u.active || (not u.totp_enabled || u.totp_secret_enc == "")
    then (bad_challenge, s)
    else secret_opened env code u ch s (env.open_totp_secret u.totp_secret_enc)

-- A live challenge whose account is not locked out, or the end of the request.
abbrev pub with_challenge :
    Env
    → (Challenge → Server → Reply × Server)
    → Server
    → Option Challenge × Challenges.Store
    → Reply × Server
with_challenge env next s (none, cs) = (bad_challenge, record s { mfa_challenges = cs })
with_challenge env next s (some ch, cs) =
    if not (allowed s.mfa_lockout ch.user_id env.now).0
    then (Login.too_many_attempts, record s { mfa_challenges = cs })
    else next ch (record s { mfa_challenges = cs })

unfoldable pub handle_mfa_totp : Env → Server → Option (String × String) → Reply × Server
unfolding start_session
handle_mfa_totp env s none = (bad_request, s)
handle_mfa_totp env s (some (challenge_id, code)) =
    with_challenge env
      (λ ch s'. totp_account env code ch s' (Users.get env.read_io s'.users ch.user_id)) s
      (get s.mfa_challenges (trim_space challenge_id) env.now)

abbrev pub recovery_checked :
    Env → User → Challenge → Server → Users.Result (Option User) × Users.Store → Reply × Server
recovery_checked env u ch s (Users.err e, us) = (internal_error, record s { users = us })
recovery_checked env u ch s (Users.ok none, us) = wrong_code env (record s { users = us }) ch
recovery_checked env u ch s (Users.ok (some v), us) = completed env u ch (record s { users = us })

abbrev pub recovery_account : Env → String → Challenge → Server → Users.Result User → Reply × Server
recovery_account env code ch s (Users.err e) = (bad_challenge, s)
recovery_account env code ch s (Users.ok u) =
    if not u.active || not u.totp_enabled
    then (bad_challenge, s)
    else recovery_checked env u ch s
        (consume_recovery_code env.verify env.write_io s.users u.id (trim_space code) env.now_text)

unfoldable pub handle_mfa_recovery_code : Env → Server → Option (String × String) → Reply × Server
unfolding start_session
handle_mfa_recovery_code env s none = (bad_request, s)
handle_mfa_recovery_code env s (some (challenge_id, code)) =
    with_challenge env
      (λ ch s'. recovery_account env code ch s' (Users.get env.read_io s'.users ch.user_id)) s
      (get s.mfa_challenges (trim_space challenge_id) env.now)

abbrev pub push_account : Env → Server → Users.Result User → Reply × Server
push_account env s (Users.err e) = (bad_challenge, s)
push_account env s (Users.ok u) =
    if not u.active
    then (bad_challenge, s)
    else if not u.push_mfa_enabled
    then (bad_challenge, s)
    else sign_in env u s

abbrev pub push_redeemed :
    Env → Server → Challenges.Result String × Challenges.Store → Reply × Server
push_redeemed env s (Challenges.err push_not_approved, cs) =
    (conflict, record s { mfa_challenges = cs })
push_redeemed env s (Challenges.err e, cs) = (bad_challenge, record s { mfa_challenges = cs })
push_redeemed env s (Challenges.ok user_id, cs) =
    push_account env (record s { mfa_challenges = cs }) (Users.get env.read_io s.users user_id)

unfoldable pub handle_push_finish : Env → Server → Option String → Reply × Server
unfolding start_session
handle_push_finish env s none = (bad_request, s)
handle_push_finish env s (some challenge_id) =
    push_redeemed env s (consume_push_approval s.mfa_challenges (trim_space challenge_id) env.now)

pub data PollAnswer : Type 0 where
  undecodable expired : PollAnswer
  has_status : PushStatus → PollAnswer

abbrev polled : Server → Option PushStatus × Challenges.Store → PollAnswer × Server
polled s (none, cs) = (expired, record s { mfa_challenges = cs })
polled s (some status, cs) = (has_status status, record s { mfa_challenges = cs })

unfoldable pub handle_push_poll : Env → Server → Option String → PollAnswer × Server
handle_push_poll env s none = (undecodable, s)
handle_push_poll env s (some challenge_id) =
    polled s (push_status s.mfa_challenges (trim_space challenge_id) env.now)
