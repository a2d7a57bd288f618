-- ===== src/Tests/Accounts.antt =====
-- Runs of the account handlers.
use llama_labels.Common.{◌≡◌, refl, true, some, List, [], ◌∷◌}
use llama_labels.Common.Text.{trim_space}
use llama_labels.Disk.{holds, Io}
use llama_labels.Users.{admin, user, new_user, list, read_locked}
use llama_labels.State.Queue.Delivery.{good_disk}
use llama_labels.Accounts.{Server, Env}
use llama_labels.Accounts.Handlers.{fails, users_update, is_last_active_admin}
use llama_labels.Accounts.Requests.{Request, updates, deactivates, handle_all}
use llama_labels.Accounts.Admins.{HasAdmin}
use llama_labels.Accounts.LastAdmin.{last-admin-stays}

abbrev accounts_disk : Io
accounts_disk = record { can_read = true; can_write = true }

abbrev noon : Env
noon = record {
  now = 100;
  now_text = "2026-01-01T12:00:00Z";
  check_io = accounts_disk;
  write_io = accounts_disk;
  open_io = good_disk;
  decisions_io = good_disk;
  remove_io = λ id. good_disk;
  uuid = some "u3";
  hash_password = λ p. some p;
}

abbrev first_server : Server
first_server = record {
  users = holds (record {
    version = 1;
    users = new_user "u1" "ann" "h" admin "t" ∷ new_user "u2" "bob" "h" user "t" ∷ [];
  });
  sessions = ("s1", record { user_id = "u1"; expires_at = 200; csrf_token = "x" }) ∷ [];
  mfa_challenges = record { m = [] };
  user_stores = [];
  user_dirs = [];
  device_index = [];
}

only_admin_kept :
    (users_update noon first_server "u1" (some "user")).0
    ≡ fails 400 "cannot demote the last active admin"
unfolding users_update is_last_active_admin list read_locked trim_space
only_admin_kept = refl

abbrev coup : List (Env × Request)
coup =
    (noon, updates "u1" (some "user"))
    ∷ (noon, updates "u2" (some "admin"))
    ∷ (noon, deactivates "u1")
    ∷ (noon, deactivates "u2")
    ∷ []

last-admin-stays_example : HasAdmin (handle_all first_server coup).users
last-admin-stays_example = last-admin-stays first_server coup refl
