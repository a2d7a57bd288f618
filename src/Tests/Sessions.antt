-- ===== src/Tests/Sessions.antt =====
-- Runs of the sessions and the instances of their theorems.
use llama_labels.Common.{
  ℕ, String, ◌≡◌, ◌≢◌, refl, true, false, none, some, List, [], ◌∷◌, arith, ◌==◌, eq_iff,
}
use llama_labels.Common.Text.{trim_space}
use llama_labels.Common.Dict.{Dict, IsMap, lookup, insert}
use llama_labels.Disk.{Io, holds}
use llama_labels.Users.{
  User, zero_user, admin, find_user, set_user, mutate, read_locked, write_locked,
}
use llama_labels.Users as Users
use llama_labels.Users.Operations.{set_password}
use llama_labels.Accounts.{Session}
use llama_labels.Sessions.{
  AuthContext, Env, Request, current_user, csrf_check_ok, with_auth, with_admin,
  handle_change_password,
}
use llama_labels.Sessions.Uses.{Use, asks, logs_out, starts, run}
use llama_labels.Sessions.Revoked.{password-change-revokes}
use llama_labels.Sessions.Idle.{EndsBy, idle-expires}
use llama_labels.Sessions.Admitted.{IsAdmitted, passes-IsAdmitted}

abbrev good_disk : Io
good_disk = record { can_read = true; can_write = true }

abbrev ann : User
ann = record zero_user {
  id = "a";
  username = "ann";
  role = admin;
  password_hash = "pw";
  active = true;
}

abbrev accounts : Users.Store
accounts = holds (record { version = 1; users = ann ∷ [] })

abbrev own : Session
own = record { user_id = "a"; expires_at = 50; csrf_token = "x" }

abbrev stolen : Session
stolen = record { user_id = "a"; expires_at = 60; csrf_token = "y" }

abbrev sessions : Dict Session
sessions = ("own", own) ∷ ("stolen", stolen) ∷ []

abbrev context : AuthContext
context = record { user_id = "a"; username = "ann"; role = admin; must_change_password = false }

abbrev env : Env
env = record {
  read_io = good_disk;
  write_io = good_disk;
  now_text = "now";
  verify = λ hash candidate. hash == candidate;
  hash_password = λ password. some password;
}

abbrev uses : List (ℕ × Use)
uses =
    (10, asks good_disk accounts (some "stolen"))
    ∷ (11, starts "next" "a" "z")
    ∷ (12, logs_out (some "own"))
    ∷ []

next_is_new : ◌≢◌ {A = String} "next" "stolen"
next_is_new = ground (arith, eq_iff "next" "stolen")

stolen_is_other : ◌≢◌ {A = String} "stolen" "own"
stolen_is_other = ground (arith, eq_iff "stolen" "own")

sessions_IsMap : IsMap sessions
sessions_IsMap = unfold lookup in (refl, (refl, tt))

password-change-revokes_example :
    (current_user good_disk 13 accounts (some "stolen") (
      run
        (handle_change_password env (some "own") context (some ("pw", "new")) accounts sessions).1.1
        uses)).0
    ≡ none
password-change-revokes_example =
    password-change-revokes env (some "own") context "pw" "new" "stolen" accounts sessions stolen
      uses good_disk 13 accounts sessions_IsMap (unfold lookup in refl) refl stolen_is_other
      (unfold handle_change_password trim_space Users.get read_locked find_user set_password mutate
          set_user write_locked in
        refl)
      (next_is_new, tt)

ends : EndsBy "stolen" 8 sessions
unfolding lookup
ends sess e = ground (arith, e)

idle-expires_example :
    (current_user good_disk 86400000000009 accounts
      (some "stolen")
      (run sessions ((8, asks good_disk accounts (some "stolen")) ∷ []))).0
    ≡ none
idle-expires_example =
    idle-expires "stolen" 8 sessions ((8, asks good_disk accounts (some "stolen")) ∷ []) good_disk
      86400000000009 accounts sessions_IsMap ends (((λ e. omega arith), tt)) (omega arith)

abbrev request : Request
request = record { cookie = some "own"; safe = false; csrf_header = "x"; path = "/api/users" }

passes-IsAdmitted_example : IsAdmitted good_disk 20 accounts request sessions
passes-IsAdmitted_example = passes-IsAdmitted good_disk 20 accounts request sessions context (
    unfold with_admin with_auth current_user csrf_check_ok lookup insert Users.get read_locked
      find_user in
    refl)
