-- ===== src/Accounts/LastAdmin.antt =====
-- The administration of accounts cannot lock every administrator out.
use llama_labels.Common.{
  String, ◌≡◌, refl, ◌∙◌, Bool, true, false, Option, none, some, List, [], ◌∷◌, arith, inl, inr,
  Bool-cases,
}
use llama_labels.Common.Text.{trim_space}
use llama_labels.Disk.{absent, corrupt, holds, Io}
use llama_labels.Users.{
  Role, admin, user, other, User, Store, UsersFile, Result, ok, err, mutate, list, read_locked,
}
use llama_labels.Users.Operations.{set_role, set_password, deactivate, reactivate, disable_totp}
use llama_labels.Accounts.Admins.{
  HasAdmin, any_beside, unblocked-beside, HasAdmin-mutate, HasAdmin-mutate_beside, HasAdmin-create,
}
use llama_labels.Accounts.Requests.{
  Request, lists_users, creates, updates, resets_password, deactivates, reactivates, clears_mfa,
  handle, handle_all,
}
use llama_labels.State as State
use llama_labels.Accounts.{
  Server, Env, user_store, revoke_user_devices, revoke_in, opened, user_store_in,
}
use llama_labels.Accounts.Handlers.{
  last_among, users_create, users_update, users_reset_password, users_deactivate, users_reactivate,
  users_clear_mfa, is_last_active_admin, parse_role, update_with, demote, deactivate_with, answered,
  create_with, forget_challenges,
}

abbrev opened-users :
    (s : Server) (id : String) (r : Option State.Error × State.Store)
    → (opened s id r).1.users ≡ s.users
opened-users s id (none, st) = refl
opened-users s id (some e, st) = refl

user_store_in-users :
    (env : Env) (s : Server) (id : String) (o : Option State.Store)
    → (user_store_in env s id o).1.users ≡ s.users
user_store_in-users env s id (some st) = refl
user_store_in-users env s id none = opened-users s id _

revoke_in-users :
    (env : Env) (id : String) (p : Option State.Store × Server)
    → (revoke_in env id p).users ≡ p.1.users
revoke_in-users env id (none, s) = refl
revoke_in-users env id (some st, s) = refl

revoke-users :
    (env : Env) (id : String) (s : Server) → (revoke_user_devices env id s).users ≡ s.users
unfolding revoke_user_devices user_store
revoke-users env id s = revoke_in-users env id _ ∙ user_store_in-users env s id _

answered-users :
    (env : Env) (s : Server) (r : Result User × Store) → (answered env s r).1.users ≡ r.1
answered-users env s (err e, users) = refl
answered-users env s (ok u, users) = revoke-users env u.id _

guarded :
    (io : Io) (t : Store) (id : String)
    → HasAdmin t
    → last_among id (list io t) ≡ ok false
    → (f : UsersFile) × ((t ≡ holds f) × (any_beside id f.users ≡ true))
unfolding list read_locked
guarded io absent id h passed = absurd h
guarded io corrupt id h passed = absurd h
guarded io (holds f) id h passed = elim (Bool-cases io.can_read) [
  | inl r ↦ (f, (refl, unblocked-beside id f.users h (ground (arith, r, passed))))
  | inr r ↦ absurd (ground (arith, r, passed))
]

-- A change to `id` that the guard let through.
HasAdmin-guarded :
    (io : Io) (env : Env) (s : Server) (id now : String) (fn : User → Result User)
    → HasAdmin s.users
    → last_among id (list env.check_io s.users) ≡ ok false
    → HasAdmin (mutate io s.users id now fn).1
HasAdmin-guarded io env s id now fn h passed =
    let (f, (held, beside)) = guarded env.check_io s.users id h passed in
    HasAdmin-mutate_beside io s.users f id now fn held beside

demote-HasAdmin :
    (env : Env) (s : Server) (id : String) (role : Role) (r : Result Bool)
    → last_among id (list env.check_io s.users) ≡ r
    → HasAdmin s.users
    → HasAdmin (demote env s id role r).1.users
unfolding set_role
demote-HasAdmin env s id role (err e) q h = h
demote-HasAdmin env s id role (ok true) q h = h
demote-HasAdmin env s id role (ok false) q h =
    HasAdmin-guarded env.write_io env s id env.now_text _ h q

deactivate_with-HasAdmin :
    (env : Env) (s : Server) (id : String) (r : Result Bool)
    → last_among id (list env.check_io s.users) ≡ r
    → HasAdmin s.users
    → HasAdmin (deactivate_with env s id r).1.users
unfolding deactivate
deactivate_with-HasAdmin env s id (err e) q h = h
deactivate_with-HasAdmin env s id (ok true) q h = h
deactivate_with-HasAdmin env s id (ok false) q h =
    rw (answered-users env s (deactivate env.write_io s.users id env.now_text))
      (HasAdmin-guarded env.write_io env s id env.now_text _ h q)

update_with-HasAdmin :
    (env : Env) (s : Server) (id : String) (role : Option Role)
    → HasAdmin s.users
    → HasAdmin (update_with env s id role).1.users
unfolding is_last_active_admin set_role
update_with-HasAdmin env s id none h = h
update_with-HasAdmin env s id (some admin) h =
    HasAdmin-mutate env.write_io s.users id env.now_text _ (λ u v e. ground arith) h
update_with-HasAdmin env s id (some user) h = demote-HasAdmin env s id user _ refl h
update_with-HasAdmin env s id (some (other r)) h = demote-HasAdmin env s id (other r) _ refl h

create_with-HasAdmin :
    (env : Env) (s : Server) (username password : String) (role : Option Role)
    → HasAdmin s.users
    → HasAdmin (create_with env s username password role).1.users
create_with-HasAdmin env s username password none h = h
create_with-HasAdmin env s username password (some role) h =
    HasAdmin-create env.write_io s.users username (env.hash_password password) env.uuid role
      env.now_text h

set_password-HasAdmin :
    (io : Io) (s : Store) (id : String) (hash : Option String) (require : Bool) (now : String)
    → HasAdmin s
    → HasAdmin (set_password io s id hash require now).1
unfolding set_password
set_password-HasAdmin io s id none require now h = h
set_password-HasAdmin io s id (some hash) require now h =
    HasAdmin-mutate io s id now _ (λ u v e. ground arith) h

clear-users : (r : Result User) (s : Server) → (forget_challenges r s).users ≡ s.users
clear-users (ok u) s = refl
clear-users (err e) s = refl

HasAdmin-handled :
    (env : Env) (s : Server) (request : Request)
    → HasAdmin s.users
    → HasAdmin (handle env s request).1.users
unfolding handle users_create users_update users_reset_password users_deactivate users_reactivate
    users_clear_mfa is_last_active_admin reactivate disable_totp
HasAdmin-handled env s lists_users h = h
HasAdmin-handled env s (creates none) h = h
HasAdmin-handled env s (creates (some (username, (password, role)))) h =
    ground (arith, create_with-HasAdmin env s (trim_space username) password (parse_role role) h)
HasAdmin-handled env s (updates id none) h = h
HasAdmin-handled env s (updates id (some role)) h =
    update_with-HasAdmin env s id (parse_role role) h
HasAdmin-handled env s (resets_password id none) h = h
HasAdmin-handled env s (resets_password id (some password)) h =
    let hash = env.hash_password password in
    let changed = set_password env.write_io s.users id hash true env.now_text in
    ground (
      arith,
      answered-users env s changed,
      set_password-HasAdmin env.write_io s.users id hash true env.now_text h,
    )
HasAdmin-handled env s (deactivates id) h = deactivate_with-HasAdmin env s id _ refl h
HasAdmin-handled env s (reactivates id) h =
    HasAdmin-mutate env.write_io s.users id env.now_text _ (λ u v e. ground arith) h
HasAdmin-handled env s (clears_mfa id) h =
    let changed = disable_totp env.write_io s.users id env.now_text in
    rw (clear-users changed.0 (answered env s changed).1, answered-users env s changed)
      (HasAdmin-mutate env.write_io s.users id env.now_text _ (λ u v e. ground arith) h)

-- While requests are handled one after the other, and whatever they are and the disk does, accounts of
-- which one is an active admin keep an active admin.
pub last-admin-stays :
    (s : Server) (requests : List (Env × Request))
    → HasAdmin s.users
    → HasAdmin (handle_all s requests).users
last-admin-stays s [] h = h
last-admin-stays s ((env, request) ∷ requests) h =
    last-admin-stays (handle env s request).1 requests (HasAdmin-handled env s request h)
