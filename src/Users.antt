-- ===== src/Users.antt =====
-- backend/internal/users/users.go: the accounts in users.json. Every operation reads the file, so the
-- store is the file. A formatted time, a fresh UUID and a scrypt hash are arguments (`none` for a
-- failure of the random source); `verify` stands for the comparison with a scrypt hash.
pub mod Public
pub mod Operations
pub mod Mutation
pub mod Steps
pub mod Replay
pub mod Recovery
use Prim.Native.String.{compare}
use text.Mathlib.Text.{is_lt}
use llama_labels.Common.{
  ℕ, String, Bool, true, false, not, ◌&&◌, ◌||◌, Option, none, some, List, [], ◌∷◌, ◌++◌, leb,
  nat_eq, if◌then◌else◌, ◌==◌,
}
use llama_labels.Disk.{
  File, holds, Io, DiskError, not_exist, write_failed, Loaded, loaded, missing, failed, read_file,
}

pub data Role : Type 0 where
  admin user : Role
  other : String → Role

pub record User : Type 0 where
  pub id : String
  pub username : String
  pub password_hash : String
  pub role : Role
  pub active : Bool
  pub must_change_password : Bool
  pub created_at : String
  pub updated_at : String
  pub deactivated_at : String
  pub totp_enabled : Bool
  pub totp_secret_enc : String
  pub totp_confirmed_at : String
  pub recovery_codes_hash : List String
  pub last_used_totp_step : ℕ
  pub push_mfa_enabled : Bool
  pub pgp_fingerprint : String
  pub pgp_key_id : String
  pub pgp_public_key : String
  pub pgp_private_key_enc : String
  pub pgp_key_source : String
  pub pgp_key_created_at : String

pub record UsersFile : Type 0 where
  pub version : ℕ
  pub users : List User

abbrev pub Store : Type 0
Store = File UsersFile

pub data Error : Type 0 where
  not_found username_taken no_entropy no_pending_secret totp_step_not_newer : Error
  recovery_code_no_match : Error
  disk : DiskError → Error

pub data Result {ℓ} (A : Type ℓ) : Type ℓ where
  ok : A → Result A
  err : Error → Result A

infixl 5 ◌>>=◌
abbrev pub ◌>>=◌ {ℓ κ} : {A : Type ℓ} {B : Type κ} → Result A → (A → Result B) → Result B
ok a >>= f = f a
err e >>= f = err e

abbrev of_loaded : Loaded UsersFile → Result UsersFile
of_loaded (loaded f) = ok f
of_loaded missing = err (disk not_exist)
of_loaded (failed e) = err (disk e)

unfoldable pub read_locked : Io → Store → Result UsersFile
read_locked io s = of_loaded (read_file io s)

abbrev with_version : UsersFile → UsersFile
with_version f = record f { version = if nat_eq f.version 0 then 1 else f.version }

-- The store after the write, and whether it succeeded.
unfoldable pub write_locked : Io → UsersFile → Store → Bool × Store
write_locked io f s = if io.can_write then (true, holds (with_version f)) else (false, s)

unfoldable pub find_user : (User → Bool) → List User → Option User
find_user p [] = none
find_user p (u ∷ us) = if p u then some u else find_user p us

abbrev pub has_id : String → User → Bool
has_id id u = u.id == id

-- The first user with the ID, replaced.
unfoldable pub set_user : String → User → List User → List User
set_user id v [] = []
set_user id v (u ∷ us) = if u.id == id then v ∷ us else u ∷ set_user id v us

unfoldable pub list : Io → Store → Result (List User)
list io s = do f ← read_locked io s; ok f.users

abbrev pub or_not_found : Option User → Result User
or_not_found none = err not_found
or_not_found (some u) = ok u

unfoldable pub get : Io → Store → String → Result User
unfolding read_locked find_user
get io s id = do f ← read_locked io s; or_not_found (find_user (has_id id) f.users)

unfoldable pub get_by_username : Io → Store → String → Result User
unfolding read_locked find_user
get_by_username io s username = do
  f ← read_locked io s
  or_not_found (find_user (λ u. u.username == username) f.users)

abbrev pub is_admin : Role → Bool
is_admin admin = true
is_admin _ = false

abbrev pub is_active_admin : User → Bool
is_active_admin u = is_admin u.role && u.active

-- The zero value of `User`.
abbrev pub zero_user : User
zero_user = record {
  id = "";
  username = "";
  password_hash = "";
  role = other "";
  active = false;
  must_change_password = false;
  created_at = "";
  updated_at = "";
  deactivated_at = "";
  totp_enabled = false;
  totp_secret_enc = "";
  totp_confirmed_at = "";
  recovery_codes_hash = [];
  last_used_totp_step = 0;
  push_mfa_enabled = false;
  pgp_fingerprint = "";
  pgp_key_id = "";
  pgp_public_key = "";
  pgp_private_key_enc = "";
  pgp_key_source = "";
  pgp_key_created_at = "";
}

unfoldable pub earliest_admin : User → List User → User
earliest_admin best [] = best
earliest_admin best (u ∷ us) =
    earliest_admin
      (if is_active_admin u && (best.id == "" || is_lt (compare u.created_at best.created_at))
        then u
        else best)
      us

unfoldable pub first_admin_from : List User → User
unfolding earliest_admin
first_admin_from all = earliest_admin zero_user all

unfoldable pub first_admin : Io → Store → Result User
unfolding list first_admin_from
first_admin io s = do
  all ← list io s
  let best = first_admin_from all
  if best.id == "" then err not_found else ok best

-- The result of an operation and the store after it.
abbrev pub wrote : Io → UsersFile → Store → User → Result User × Store
wrote io f s u =
    let (done, s') = write_locked io f s in (if done then ok u else err (disk write_failed), s')

abbrev pub new_user : String → String → String → Role → String → User
new_user id username hash role now = record zero_user {
  id = id;
  username = username;
  password_hash = hash;
  role = role;
  active = true;
  must_change_password = true;
  created_at = now;
  updated_at = now;
}

abbrev taken : Option User → Bool
taken none = false
taken (some u) = true

abbrev pub create_in :
    Io
    → Store
    → String
    → Option String
    → Option String
    → Role
    → String
    → Result UsersFile
    → Result User × Store
create_in io s username hash id role now (err e) = (err e, s)
create_in io s username none id role now (ok f) = (
  if taken (find_user (λ u. u.username == username) f.users)
      then err username_taken
      else err no_entropy,
  s,
)
create_in io s username (some hash) none role now (ok f) = (
  if taken (find_user (λ u. u.username == username) f.users)
      then err username_taken
      else err no_entropy,
  s,
)
create_in io s username (some hash) (some id) role now (ok f) =
    if taken (find_user (λ u. u.username == username) f.users)
    then (err username_taken, s)
    else wrote io (record f { users = f.users ++ new_user id username hash role now ∷ [] }) s
        (new_user id username hash role now)

unfoldable pub create :
    Io → Store → String → Option String → Option String → Role → String → Result User × Store
create io s username hash id role now = create_in io s username hash id role now (read_locked io s)

-- What `fn` makes of the matching user, or the error that aborts without writing.
abbrev mutated : Io → Store → String → String → UsersFile → Result User → Result User × Store
mutated io s id now f (err e) = (err e, s)
mutated io s id now f (ok u) =
    wrote io (record f { users = set_user id (record u { updated_at = now }) f.users }) s
      (record u { updated_at = now })

abbrev mutate_in :
    Io → Store → String → String → (User → Result User) → Result UsersFile → Result User × Store
mutate_in io s id now fn (err e) = (err e, s)
mutate_in io s id now fn (ok f) =
    mutated io s id now f (or_not_found (find_user (has_id id) f.users) >>= fn)

unfoldable pub mutate : Io → Store → String → String → (User → Result User) → Result User × Store
mutate io s id now fn = mutate_in io s id now fn (read_locked io s)
