-- ===== src/Sessions.antt =====
-- backend/internal/api/server.go: the sessions, from the cookie of a request to the handler behind it
-- (currentUser, csrfCheckOK, withAuth), handleLogout and handleChangePassword; and
-- withAdmin of server_users.go.
pub mod Uses
pub mod Revoked
pub mod Maps
pub mod Idle
pub mod Admitted
use llama_labels.Common.{
  ℕ, ◌+◌, String, Bool, true, false, not, ◌&&◌, ◌||◌, Option, none, some, if◌then◌else◌, ◌==◌, ltb,
}
use llama_labels.Common.Text.{trim_space}
use llama_labels.Common.Dict.{Dict, lookup, insert, remove}
use llama_labels.Disk.{Io}
use llama_labels.Users.{User, Role, is_admin}
use llama_labels.Users as Users
use llama_labels.Users.Operations.{set_password}
use llama_labels.Accounts.{Session, revoke_user_sessions}
use llama_labels.Login.{session_lifetime}

pub record AuthContext : Type 0 where
  pub user_id : String
  pub username : String
  pub role : Role
  pub must_change_password : Bool

abbrev pub owner_checked :
    String → Dict Session → Users.Result User → Option AuthContext × Dict Session
owner_checked token sessions (Users.err e) = (none, remove token sessions)
owner_checked token sessions (Users.ok u) =
    if not u.active then (none, remove token sessions) else (
      some (record {
        user_id = u.id;
        username = u.username;
        role = u.role;
        must_change_password = u.must_change_password;
      }),
      sessions,
    )

abbrev pub session_checked :
    Io
    → ℕ
    → Users.Store
    → String
    → Dict Session
    → Option Session
    → Option AuthContext × Dict Session
session_checked io now users token sessions none = (none, sessions)
session_checked io now users token sessions (some sess) =
    if ltb sess.expires_at now
    then (none, remove token sessions)
    else owner_checked token
        (insert token (record sess { expires_at = now + session_lifetime }) sessions)
        (Users.get io users sess.user_id)

-- `cookie` is the value of kypost_session, where the request has it.
unfoldable pub current_user :
    Io → ℕ → Users.Store → Option String → Dict Session → Option AuthContext × Dict Session
current_user io now users none sessions = (none, sessions)
current_user io now users (some token) sessions =
    session_checked io now users token sessions (lookup token sessions)

abbrev header_matches : String → Option Session → Bool
header_matches header none = true
header_matches header (some sess) = not (header == "") && header == sess.csrf_token

-- `safe` says that the method is GET, HEAD or OPTIONS, `header` is X-CSRF-Token.
unfoldable pub csrf_check_ok : Bool → Option String → String → Dict Session → Bool
csrf_check_ok true cookie header sessions = true
csrf_check_ok false none header sessions = true
csrf_check_ok false (some token) header sessions = header_matches header (lookup token sessions)

-- What a request meets on its way to a handler.
pub data Gate : Type 0 where
  unauthorized csrf_refused password_change_required forbidden : Gate
  passes : AuthContext → Gate

pub record Request : Type 0 where
  pub cookie : Option String
  pub safe : Bool
  pub csrf_header : String
  pub path : String

abbrev pub is_exempt : String → Bool
is_exempt path = path == "/api/auth/password" || path == "/api/auth/logout"

abbrev pub user_checked : Request → Option AuthContext × Dict Session → Gate × Dict Session
user_checked r (none, sessions) = (unauthorized, sessions)
user_checked r (some ac, sessions) = (
  if not (csrf_check_ok r.safe r.cookie r.csrf_header sessions)
      then csrf_refused
      else if ac.must_change_password && not (is_exempt r.path)
      then password_change_required
      else passes ac,
  sessions,
)

unfoldable pub with_auth : Io → ℕ → Users.Store → Request → Dict Session → Gate × Dict Session
unfolding csrf_check_ok
with_auth io now users r sessions = user_checked r (current_user io now users r.cookie sessions)

abbrev pub admin_checked : Gate × Dict Session → Gate × Dict Session
admin_checked (passes ac, sessions) = (if is_admin ac.role then passes ac else forbidden, sessions)
admin_checked (g, sessions) = (g, sessions)

unfoldable pub with_admin : Io → ℕ → Users.Store → Request → Dict Session → Gate × Dict Session
unfolding with_auth
with_admin io now users r sessions = admin_checked (with_auth io now users r sessions)

unfoldable pub handle_logout : Option String → Dict Session → Dict Session
handle_logout none sessions = sessions
handle_logout (some token) sessions = remove token sessions

-- The cookie's value, or nothing.
abbrev pub current_session_token : Option String → String
current_session_token none = ""
current_session_token (some token) = token

pub data Answer : Type 0 where
  bad_request internal_error invalid_credentials done : Answer

abbrev pub password_set :
    Option String
    → User
    → Dict Session
    → Users.Result User × Users.Store
    → Answer × (Users.Store × Dict Session)
password_set cookie u sessions (Users.err e, us) = (internal_error, (us, sessions))
password_set cookie u sessions (Users.ok v, us) =
    (done, (us, revoke_user_sessions u.id (current_session_token cookie) sessions))

-- What a request to change a password meets: what the disk does, the time as text, scrypt's comparison and
-- scrypt's hash of a password, if the random source gives a salt.
pub record Env : Type 0 where
  pub read_io : Io
  pub write_io : Io
  pub now_text : String
  pub verify : String → String → Bool
  pub hash_password : String → Option String

-- Whether the old password that was given is one that does not pass.
abbrev pub is_refused : Env → User → String → Bool
is_refused env u old =
    not (env.verify u.password_hash old)
    && (not u.must_change_password || not (trim_space old == ""))

abbrev pub changing_password :
    Env
    → Option String
    → String
    → String
    → Users.Store
    → Dict Session
    → Users.Result User
    → Answer × (Users.Store × Dict Session)
changing_password env cookie old new us sessions (Users.err e) = (internal_error, (us, sessions))
changing_password env cookie old new us sessions (Users.ok u) =
    if is_refused env u old
    then (invalid_credentials, (us, sessions))
    else password_set cookie u sessions
        (set_password env.write_io us u.id (env.hash_password new) false env.now_text)

-- The request of `ac`, which `with_auth` has let through; `body` has the old and the new password.
unfoldable pub handle_change_password :
    Env
    → Option String
    → AuthContext
    → Option (String × String)
    → Users.Store
    → Dict Session
    → Answer × (Users.Store × Dict Session)
handle_change_password env cookie ac none us sessions = (bad_request, (us, sessions))
handle_change_password env cookie ac (some (old, new)) us sessions =
    if trim_space new == ""
    then (bad_request, (us, sessions))
    else changing_password env cookie old new us sessions (Users.get env.read_io us ac.user_id)
