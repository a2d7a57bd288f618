-- ===== src/Accounts.antt =====
-- backend/internal/api/server_users.go, with the parts of server.go and server_userscope.go that it
-- calls: the server's state as the account handlers change it, and how access is revoked.
pub mod Handlers
pub mod Requests
pub mod Admins
pub mod LastAdmin
use llama_labels.Common.{
  ℕ, String, Bool, true, false, not, ◌&&◌, Option, none, some, List, [], ◌∷◌, if◌then◌else◌, ◌==◌,
}
use llama_labels.Common.Dict.{Dict, lookup, insert, remove}
use llama_labels.Disk.{File, absent, Io}
use llama_labels.Users.{Store}
use llama_labels.State.{StateFile, Decision, NativeDevice, Error}
use llama_labels.State as State
use llama_labels.State.Persist as Persist
use llama_labels.State.Open.{new}
use llama_labels.State.Devices.{list_native_devices, remove_native_device}
use llama_labels.Challenges as Challenges

pub record Session : Type 0 where
  pub user_id : String
  pub expires_at : ℕ
  pub csrf_token : String

-- `user_dirs` holds the files of the users whose store is not open.
pub record Server : Type 0 where
  pub users : Store
  pub sessions : Dict Session
  pub mfa_challenges : Challenges.Store
  pub user_stores : Dict State.Store
  pub user_dirs : Dict (File StateFile × File (List Decision))
  pub device_index : Dict String

-- What a request meets: the time, as a number and as text, what the disk does in each access to it, a
-- fresh UUID and the hash of a password, if the random source gives one.
pub record Env : Type 0 where
  pub now : ℕ
  pub now_text : String
  pub check_io : Io
  pub write_io : Io
  pub open_io : Persist.Io
  pub decisions_io : Persist.Io
  pub remove_io : String → Persist.Io
  pub uuid : Option String
  pub hash_password : String → Option String

abbrev pub directory :
    Option (File StateFile × File (List Decision)) → File StateFile × File (List Decision)
directory none = (absent, absent)
directory (some d) = d

-- A failed `state.New` is not cached, but may have left files.
abbrev pub opened : Server → String → Option Error × State.Store → Option State.Store × Server
opened s user_id (none, st) = (some st, record s { user_stores = insert user_id st s.user_stores })
opened s user_id (some e, st) =
    (none, record s { user_dirs = insert user_id (st.file, st.decisions_file) s.user_dirs })

abbrev pub user_store_in : Env → Server → String → Option State.Store → Option State.Store × Server
user_store_in env s user_id (some st) = (some st, s)
user_store_in env s user_id none =
    let (file, decisions) = directory (lookup user_id s.user_dirs) in
    opened s user_id (new env.open_io env.decisions_io env.now file decisions)

unfoldable pub user_store : Env → Server → String → Option State.Store × Server
user_store env s user_id = user_store_in env s user_id (lookup user_id s.user_stores)

unfoldable pub revoke_user_sessions : String → String → Dict Session → Dict Session
revoke_user_sessions user_id keep_token [] = []
revoke_user_sessions user_id keep_token ((token, session) ∷ rest) =
    let kept = revoke_user_sessions user_id keep_token rest in
    if session.user_id == user_id && not (token == keep_token)
    then kept
    else (token, session) ∷ kept

-- A failed removal leaves the device in the index.
abbrev pub forget : String → Option Error → Dict String → Dict String
forget device_id none index = remove device_id index
forget device_id (some e) index = index

abbrev pub remove_devices :
    Env → List NativeDevice → State.Store × Dict String → State.Store × Dict String
remove_devices env [] (st, index) = (st, index)
remove_devices env (d ∷ devices) (st, index) =
    let (answer, st') = remove_native_device (env.remove_io d.device_id) env.now st d.device_id in
    remove_devices env devices (st', forget d.device_id answer.1 index)

abbrev pub revoke_in : Env → String → Option State.Store × Server → Server
revoke_in env user_id (none, s) = s
revoke_in env user_id (some st, s) =
    let (devices, st₁) = list_native_devices env.open_io st in
    let (st₂, index) = remove_devices env devices (st₁, s.device_index) in
    record s { user_stores = insert user_id st₂ s.user_stores; device_index = index }

unfoldable pub revoke_user_devices : Env → String → Server → Server
unfolding user_store
revoke_user_devices env user_id s = revoke_in env user_id (user_store env s user_id)
