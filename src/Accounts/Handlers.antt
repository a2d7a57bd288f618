-- ===== src/Accounts/Handlers.antt =====
-- server_users.go: the handlers. A request whose body is not JSON is `none`; `shows` and `fails` are the
-- replies, with their status. The admin check of `withAdmin` and the log are not modelled.
use llama_labels.Common.{
  ℕ, ◌+◌, String, Bool, true, false, ◌&&◌, Option, none, some, List, [], ◌∷◌, map, nat_eq,
  if◌then◌else◌, ◌==◌,
}
use llama_labels.Common.Text.{trim_space}
use llama_labels.Challenges.{delete_by_user}
use llama_labels.Users.{
  Role, admin, user, User, Store, Error, not_found, username_taken, Result, ok, err, list,
  is_active_admin, create,
}
use llama_labels.Users.Public.{Public, public}
use llama_labels.Users.Operations.{set_role, set_password, deactivate, reactivate, disable_totp}
use llama_labels.Accounts.{Server, Env, revoke_user_sessions, revoke_user_devices}

pub data Reply : Type 0 where
  shows : ℕ → Public → Reply
  lists : List Public → Reply
  fails : ℕ → String → Reply

abbrev pub parse_role : String → Option Role
parse_role raw =
    let r = trim_space raw in
    if r == "admin"
    then some admin
    else (if r == "user" then some user else (if r == "" then some user else none))

abbrev pub user_store_error : Error → Reply
user_store_error not_found = fails 404 "user not found"
user_store_error e = fails 500 "user store error"

-- Whether the user is an active admin, and how many others are.
abbrev pub admins_beside : String → List User → Bool × ℕ
admins_beside id [] = (false, 0)
admins_beside id (u ∷ us) =
    let (target, others) = admins_beside id us in
    if is_active_admin u
    then (if u.id == id then (true, others) else (target, others + 1))
    else (target, others)

abbrev pub is_last : Bool × ℕ → Bool
is_last (target, others) = target && nat_eq others 0

abbrev pub last_among : String → Result (List User) → Result Bool
last_among id (ok all) = ok (is_last (admins_beside id all))
last_among id (err e) = err e

unfoldable pub is_last_active_admin : Env → Server → String → Result Bool
is_last_active_admin env s id = last_among id (list env.check_io s.users)

abbrev pub with_users : Server → Store → Server
with_users s users = record s { users = users }

abbrev pub listed : Result (List User) → Reply
listed (ok all) = lists (map public all)
listed (err e) = fails 500 "failed to list users"

abbrev pub users_list : Env → Server → Reply × Server
users_list env s = (listed (list env.check_io s.users), s)

abbrev pub created : Result User → Reply
created (ok u) = shows 201 (public u)
created (err username_taken) = fails 409 "username already in use"
created (err e) = fails 500 "failed to create user"

abbrev pub create_with : Env → Server → String → String → Option Role → Reply × Server
create_with env s username password none = (fails 400 "invalid role; expected admin or user", s)
create_with env s username password (some role) =
    let (r, users) =
      create env.write_io s.users username (env.hash_password password) env.uuid role
        env.now_text in
    (created r, with_users s users)

-- The username, the password and the role.
unfoldable pub users_create : Env → Server → Option (String × (String × String)) → Reply × Server
users_create env s none = (fails 400 "invalid request", s)
users_create env s (some (username, (password, role))) =
    if trim_space username == ""
    then (fails 400 "username required", s)
    else (if trim_space password == ""
        then (fails 400 "password required", s)
        else create_with env s (trim_space username) password (parse_role role))

abbrev pub updated : Result User → Reply
updated (ok u) = shows 200 (public u)
updated (err e) = user_store_error e

abbrev pub assign : Env → Server → String → Role → Reply × Server
assign env s id role =
    let (r, users) = set_role env.write_io s.users id role env.now_text in
    (updated r, with_users s users)

abbrev pub demote : Env → Server → String → Role → Result Bool → Reply × Server
demote env s id role (err e) = (fails 500 "failed to update user", s)
demote env s id role (ok true) = (fails 400 "cannot demote the last active admin", s)
demote env s id role (ok false) = assign env s id role

abbrev pub update_with : Env → Server → String → Option Role → Reply × Server
update_with env s id none = (fails 400 "invalid role; expected admin or user", s)
update_with env s id (some admin) = assign env s id admin
update_with env s id (some role) = demote env s id role (is_last_active_admin env s id)

-- The path's ID and the role.
unfoldable pub users_update : Env → Server → String → Option String → Reply × Server
unfolding is_last_active_admin
users_update env s id none = (fails 400 "invalid request", s)
users_update env s id (some role) = update_with env s id (parse_role role)

-- Both kinds of credential of the account are cut off.
abbrev pub cut_off : Env → String → Server → Server
cut_off env id s =
    revoke_user_devices env id (record s { sessions = revoke_user_sessions id "" s.sessions })

abbrev pub answered : Env → Server → Result User × Store → Reply × Server
answered env s (err e, users) = (user_store_error e, with_users s users)
answered env s (ok u, users) = (shows 200 (public u), cut_off env u.id (with_users s users))

-- The path's ID and the password.
unfoldable pub users_reset_password : Env → Server → String → Option String → Reply × Server
users_reset_password env s id none = (fails 400 "invalid request", s)
users_reset_password env s id (some password) =
    if trim_space password == ""
    then (fails 400 "password required", s)
    else answered env s
        (set_password env.write_io s.users id (env.hash_password password) true env.now_text)

abbrev pub deactivate_with : Env → Server → String → Result Bool → Reply × Server
deactivate_with env s id (err e) = (fails 500 "failed to deactivate user", s)
deactivate_with env s id (ok true) = (fails 400 "cannot deactivate the last active admin", s)
deactivate_with env s id (ok false) =
    answered env s (deactivate env.write_io s.users id env.now_text)

unfoldable pub users_deactivate : Env → Server → String → Reply × Server
unfolding is_last_active_admin
users_deactivate env s id = deactivate_with env s id (is_last_active_admin env s id)

unfoldable pub users_reactivate : Env → Server → String → Reply × Server
users_reactivate env s id =
    let (r, users) = reactivate env.write_io s.users id env.now_text in
    (updated r, with_users s users)

-- The challenges of the account go too.
abbrev pub forget_challenges : Result User → Server → Server
forget_challenges (ok u) s = record s { mfa_challenges = delete_by_user s.mfa_challenges u.id }
forget_challenges (err e) s = s

unfoldable pub users_clear_mfa : Env → Server → String → Reply × Server
users_clear_mfa env s id =
    let (r, users) = disable_totp env.write_io s.users id env.now_text in
    let (reply, s') = answered env s (r, users) in (reply, forget_challenges r s')
