-- ===== src/Tests/Login.antt =====
-- Runs of the login handlers and the instances of their theorems.
use llama_labels.Common.{
  ℕ, ◌+◌, ◌≤◌, String, ◌≡◌, ◌≢◌, refl, sym, ap, Bool, true, false, Option, none, some, List, [],
  ◌∷◌, nat_eq, Bool-cases, inl, inr, if◌then◌else◌, ◌==◌, arith,
}
use llama_labels.Common.Text.{trim_space}
use llama_labels.Common.Dict.{lookup, insert, remove}
use llama_labels.Disk.{Io, holds}
use llama_labels.Lockout.{allowed, record_success}
use llama_labels.Totp.{validate}
use llama_labels.Users.{
  User, UsersFile, zero_user, get_by_username, find_user, set_user, mutate, read_locked,
  write_locked,
}
use llama_labels.Users as Users
use llama_labels.Users.Operations.{set_last_used_totp_step}
use llama_labels.Users.Steps.{unchanged}
use llama_labels.Challenges.{Challenge, fresh, consume_totp_step, delete}
use llama_labels.Challenges as Challenges
use llama_labels.Login.{
  Server, Env, not_configured, signed_in, handle_login, start_session, lockout_key,
}
use llama_labels.Login.SecondFactor.{handle_mfa_totp}
use llama_labels.Login.Once.{IsCurrent, totp-code-once}
use llama_labels.Challenges.{
  Call, resolves, create, new_store, run, step, challenge_ttl, consume_push_approval, resolve_push,
}
use llama_labels.Challenges.Redeem.{any_approves}
use llama_labels.Users.Operations.{consume_recovery_code, spend}
use llama_labels.Login.SecondFactor.{handle_mfa_recovery_code, handle_push_finish}
use llama_labels.Login.Recovered.{recovery-login_once}
use llama_labels.Login.Approved.{CanApprove, finish-IsApproved}
use llama_labels.Login.Required.{IsPassword, login-IsPassword}

abbrev good_disk : Io
good_disk = record { can_read = true; can_write = true }

-- Step 3 has a code of its own.
abbrev code_at : String → ℕ → Option String
code_at secret n = some (if nat_eq n 3 then "123456" else "000000")

abbrev env : Env
env = record {
  now = 90000000000;
  now_text = "now";
  read_io = good_disk;
  write_io = good_disk;
  client_ip = "::1";
  captcha = not_configured;
  challenge_id = some "c9";
  token = some "t";
  csrf_token = some "x";
  verify = λ hash candidate. hash == candidate;
  open_totp_secret = λ sealed. some sealed;
  generate_code = code_at;
}

abbrev ann : User
ann = record zero_user {
  id = "a";
  username = "ann";
  password_hash = "pw";
  active = true;
  totp_enabled = true;
  totp_secret_enc = "s";
}

abbrev bob : User
bob = record zero_user { id = "b"; username = "bob"; password_hash = "pw"; active = true }

abbrev server : Server
server = record {
  users = holds (record { version = 1; users = ann ∷ bob ∷ [] });
  login_lockout = record { max_failures = 3; lockout_for = 900000000000; entries = [] };
  mfa_lockout = record { max_failures = 3; lockout_for = 900000000000; entries = [] };
  mfa_challenges = record { m = ("c1", fresh "c1" "a" 0) ∷ ("c2", fresh "c2" "a" 0) ∷ [] };
  mfa_push_cooldown = record { last_sent = [] };
  sessions = [];
  pushes = [];
}

abbrev after : Server
after = (handle_mfa_totp env server (some ("c1", "123456"))).1

first_accepted : (handle_mfa_totp env server (some ("c1", "123456"))).0 ≡ signed_in "a" false
unfolding handle_mfa_totp start_session Challenges.get lookup allowed trim_space Users.get
    read_locked find_user validate consume_totp_step insert remove set_last_used_totp_step mutate
    set_user write_locked record_success delete
first_accepted = refl

abbrev is_first : Option String → Bool
is_first none = false
is_first (some code) = code == "123456"

is_step_3 : (n : ℕ) → code_at "s" n ≡ some "123456" → n ≡ 3
is_step_3 n h = elim (Bool-cases (nat_eq n 3)) [
  | inl e ↦ ground (arith, e)
  | inr e ↦
      let other : some "000000" ≡ some "123456" = simp e at h in
      let off : false ≡ true = ap is_first other in ground (arith, off)
]

only_step_3 : (c c' : ℕ) → IsCurrent env "s" "123456" c → IsCurrent env "s" " 123456" c' → c' ≤ c
unfolding trim_space
only_step_3 c c' h h' = omega (arith, is_step_3 c h.0, is_step_3 c' h'.0)

-- The sealed secret of what a read gives.
abbrev secret_of : Users.Result User → Option String
secret_of (Users.ok u) = some u.totp_secret_enc
secret_of (Users.err e) = none

totp-code-once_example :
    (handle_mfa_totp env after (some ("c2", " 123456"))).0 ≢ signed_in "a" false
unfolding handle_mfa_totp start_session Challenges.get lookup allowed trim_space Users.get
    read_locked find_user validate consume_totp_step insert remove set_last_used_totp_step mutate
    set_user write_locked record_success delete
totp-code-once_example =
    totp-code-once (λ hash candidate. hash == candidate) env env server after "a" "s" "c1" "c2"
      "123456" " 123456" false false first_accepted unchanged (λ u e. ap (λ r. secret_of r) (sym e))
      (λ u e. ap (λ r. secret_of r) (sym e)) only_step_3

login-IsPassword_example :
    ((allowed server.login_lockout (lockout_key "bob" "::1") 90000000000).0 ≡ true)
    × IsPassword env "b" false "bob" "pw" server
login-IsPassword_example = login-IsPassword env "b" false server "bob" "pw" (
    unfold handle_login start_session allowed lookup get_by_username read_locked find_user
      record_success in
    refl)

-- An account with one recovery code, which approves logins by a device too.
abbrev cat : User
cat = record ann { recovery_codes_hash = "#r" ∷ []; push_mfa_enabled = true }

abbrev cat_server : Server
cat_server = record server { users = holds (record { version = 1; users = cat ∷ [] }) }

abbrev cat_after : Server
cat_after = (handle_mfa_recovery_code env cat_server (some ("c1", "#r"))).1

recovery-login_once_example :
    (handle_mfa_recovery_code env cat_after (some ("c2", " #r"))).0 ≢ signed_in "a" false
recovery-login_once_example =
    recovery-login_once env env cat_server cat_after "a" "c1" "c2" "#r" " #r" false false cat
      (unfold find_user in refl) ((λ e. refl), tt) refl (unfold trim_space in refl)
      (unfold handle_mfa_recovery_code start_session Challenges.get lookup allowed trim_space
          Users.get read_locked find_user insert remove consume_recovery_code mutate spend set_user
          write_locked record_success delete in
        refl)
      refl

abbrev approving : List (ℕ × Call)
approving = (2, resolves "c3" "phone" true) ∷ []

abbrev approved_server : Server
approved_server = record cat_server {
  mfa_challenges = run (create new_store "a" (some "c3") 0).1 approving;
}

finish-IsApproved_example :
    (◌≡◌ {A = String} "a" "a")
    × ((any_approves "c3" approving ≡ true)
        × ((90000000000 ≤ 0 + challenge_ttl) × CanApprove env "a" approved_server))
finish-IsApproved_example =
    finish-IsApproved env approved_server new_store approving "c3" "a" "a" " c3" 0 false tt tt refl
      (unfold trim_space in refl)
      (unfold handle_push_finish start_session trim_space create run step resolve_push
          consume_push_approval lookup insert remove Users.get read_locked find_user in
        refl)
