-- ===== src/Sessions/Uses.antt =====
-- Any sequence of uses of the sessions, by any requests.
use llama_labels.Common.{ℕ, ◌+◌, String, Option, List, [], ◌∷◌}
use llama_labels.Common.Dict.{Dict, insert}
use llama_labels.Disk.{Io}
use llama_labels.Users as Users
use llama_labels.Accounts.{Session, revoke_user_sessions}
use llama_labels.Login.{session_lifetime}
use llama_labels.Sessions.{current_user, handle_logout}

-- `asks` is a request that is authenticated, whatever the accounts are at that time; `starts` a new session.
pub data Use : Type 0 where
  asks : Io → Users.Store → Option String → Use
  logs_out : Option String → Use
  starts : String → String → String → Use
  revokes : String → String → Use

unfoldable pub step : Dict Session → ℕ × Use → Dict Session
step sessions (now, asks io users cookie) = (current_user io now users cookie sessions).1
step sessions (now, logs_out cookie) = handle_logout cookie sessions
step sessions (now, starts token user_id csrf_token) =
    insert token
      (record { user_id = user_id; expires_at = now + session_lifetime; csrf_token = csrf_token })
      sessions
step sessions (now, revokes user_id keep_token) = revoke_user_sessions user_id keep_token sessions

unfoldable pub run : Dict Session → List (ℕ × Use) → Dict Session
run sessions [] = sessions
run sessions (u ∷ us) = run (step sessions u) us
