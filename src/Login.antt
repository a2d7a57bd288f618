-- ===== src/Login.antt =====
-- backend/internal/api/server.go, handleLogin, and the state that the login handlers share. A request body
-- that is not JSON of its type is `none`.
pub mod SecondFactor
pub mod Required
pub mod Earned
pub mod Once
pub mod Approved
pub mod Recovered
use llama_labels.Common.{
  ℕ, ◌+◌, ◌*◌, ◌/◌, String, Bool, true, false, not, ◌&&◌, ◌||◌, Option, none, some, List, [], ◌∷◌,
  if◌then◌else◌, ◌==◌,
}
use Prim.Native.String.{◌++◌}
use llama_labels.Common.Dict.{Dict, insert}
use llama_labels.Common.Stamps.{second}
use llama_labels.Disk.{Io}
use llama_labels.Lockout.{FailureLockout, allowed, record_failure, record_success, minute}
use llama_labels.Cooldown.Push.{MfaPushCooldown, try_consume}
use llama_labels.Users.{User, get_by_username}
use llama_labels.Users as Users
use llama_labels.Challenges.{Challenge, create}
use llama_labels.Challenges as Challenges
use llama_labels.Accounts.{Session}

-- `pushes` are the challenges that notifications were sent for, the last first.
pub record Server : Type 0 where
  pub users : Users.Store
  pub login_lockout : FailureLockout
  pub mfa_lockout : FailureLockout
  pub mfa_challenges : Challenges.Store
  pub mfa_push_cooldown : MfaPushCooldown
  pub sessions : Dict Session
  pub pushes : List (String × String)

-- The answer of the CAPTCHA provider, if one is configured.
pub data Captcha : Type 0 where
  not_configured captcha_error : Captcha
  answers : Bool → Captcha

-- What a request meets: the time, as a number and as text, what the disk does, the client's address, the
-- CAPTCHA answer, what the random source draws, scrypt's comparison, the opening of a sealed TOTP secret
-- and the code of a secret at a step.
pub record Env : Type 0 where
  pub now : ℕ
  pub now_text : String
  pub read_io : Io
  pub write_io : Io
  pub client_ip : String
  pub captcha : Captcha
  pub challenge_id : Option String
  pub token : Option String
  pub csrf_token : Option String
  pub verify : String → String → Bool
  pub open_totp_secret : String → Option String
  pub generate_code : String → ℕ → Option String

pub data Reply : Type 0 where
  bad_request unavailable internal_error conflict : Reply
  unauthorized : String → Reply
  too_many_attempts : Reply
  retry_after : ℕ → Reply
  mfa_required : String → Bool → Bool → Reply
  signed_in : String → Bool → Reply

abbrev pub session_lifetime : ℕ
session_lifetime = 24 * (60 * minute)

abbrev pub with_session : Env → String → Server → Option String → Option String → Bool × Server
with_session env user_id s none csrf = (false, s)
with_session env user_id s (some token) none = (false, s)
with_session env user_id s (some token) (some csrf) =
    let session : Session = record {
      user_id = user_id;
      expires_at = env.now + session_lifetime;
      csrf_token = csrf;
    } in
    (true, record s { sessions = insert token session s.sessions })

unfoldable pub start_session : Env → String → Server → Bool × Server
start_session env user_id s = with_session env user_id s env.token env.csrf_token

-- A session for the user, at the end of a handler.
abbrev pub sign_in : Env → User → Server → Reply × Server
sign_in env u s =
    let (done, s') = start_session env u.id s in
    (if done then signed_in u.id u.must_change_password else internal_error, s')

-- A notification about the challenge, unless one went out within the cooldown.
abbrev pub push_challenge : Env → User → String → Server → Server
push_challenge env u challenge_id s =
    let (answer, cooldown) = try_consume s.mfa_push_cooldown u.id env.now in
    record s {
      mfa_push_cooldown = cooldown;
      pushes = if answer.0 then (u.id, challenge_id) ∷ s.pushes else s.pushes;
    }

abbrev pub challenged :
    Env → User → Server → Challenges.Result Challenge × Challenges.Store → Reply × Server
challenged env u s (Challenges.err e, cs) = (internal_error, record s { mfa_challenges = cs })
challenged env u s (Challenges.ok ch, cs) =
    let s' = record s { mfa_challenges = cs } in
    (
      mfa_required ch.id u.totp_enabled u.push_mfa_enabled,
      if u.push_mfa_enabled then push_challenge env u ch.id s' else s',
    )

abbrev pub password_checked : Env → User → Server → Reply × Server
password_checked env u s =
    if u.totp_enabled || u.push_mfa_enabled
    then challenged env u s (create s.mfa_challenges u.id env.challenge_id env.now)
    else sign_in env u s

abbrev pub refused : Env → String → Server → Reply × Server
refused env key s = (
  unauthorized "invalid credentials",
  record s { login_lockout = record_failure s.login_lockout key env.now },
)

abbrev pub found_account : Env → String → String → Server → Users.Result User → Reply × Server
found_account env key password s (Users.err e) = refused env key s
found_account env key password s (Users.ok u) =
    if not u.active
    then refused env key s
    else if not (env.verify u.password_hash password)
    then refused env key s
    else password_checked env u (record s { login_lockout = record_success s.login_lockout key })

abbrev pub captcha_checked : Env → String → String → String → Server → Captcha → Reply × Server
captcha_checked env key username password s captcha_error = (unavailable, s)
captcha_checked env key username password s (answers false) =
    (unauthorized "captcha verification failed", s)
captcha_checked env key username password s _ =
    found_account env key password s (get_by_username env.read_io s.users username)

-- The username and the address, after a separator that no address holds.
abbrev pub lockout_key : String → String → String
lockout_key username ip = username ++ ("\0" ++ ip)

abbrev pub handle_allowed : Env → String → String → Server → Bool × ℕ → Reply × Server
handle_allowed env username password s (false, wait) = (retry_after (wait / second + 1), s)
handle_allowed env username password s (true, wait) =
    captcha_checked env (lockout_key username env.client_ip) username password s env.captcha

unfoldable pub handle_login : Env → Server → Option (String × String) → Reply × Server
unfolding start_session
handle_login env s none = (bad_request, s)
handle_login env s (some (username, password)) =
    handle_allowed env username password s
      (allowed s.login_lockout (lockout_key username env.client_ip) env.now)
