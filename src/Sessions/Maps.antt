-- ===== src/Sessions/Maps.antt =====
-- No token of the sessions stands twice.
use llama_labels.Common.{ℕ, String, Option, none, some, [], ◌∷◌, arith, Bool-cases, inl, inr, ltb}
use llama_labels.Common.Dict.{Dict, IsMap, lookup, insert-IsMap, remove-IsMap}
use llama_labels.Disk.{Io}
use llama_labels.Users as Users
use llama_labels.Accounts.{Session, revoke_user_sessions}
use llama_labels.Sessions.{owner_checked, session_checked, current_user, handle_logout}
use llama_labels.Sessions.Uses.{Use, asks, logs_out, starts, revokes, step}
use llama_labels.Sessions.Revoked.{revoke-Lacks}

owner_checked-IsMap :
    (k : String) (s : Dict Session) (r : Users.Result Users.User)
    → IsMap s
    → IsMap (owner_checked k s r).1
owner_checked-IsMap k s (Users.err e) w = remove-IsMap k s w
owner_checked-IsMap k s (Users.ok u) w = elim (Bool-cases u.active) [
  | inl a ↦ simp a w
  | inr a ↦ simp a (remove-IsMap k s w)
]

session_checked-IsMap :
    (io : Io) (now : ℕ) (users : Users.Store) (k : String) (s : Dict Session) (o : Option Session)
    → IsMap s
    → IsMap (session_checked io now users k s o).1
session_checked-IsMap io now users k s none w = w
session_checked-IsMap io now users k s (some sess) w = elim (Bool-cases (ltb sess.expires_at now)) [
  | inl late ↦ simp late (remove-IsMap k s w)
  | inr early ↦ simp early (owner_checked-IsMap k _ _ (insert-IsMap k _ s w))
]

revoke-IsMap :
    (user_id keep : String) (s : Dict Session)
    → IsMap s
    → IsMap (revoke_user_sessions user_id keep s)
unfolding revoke_user_sessions lookup
revoke-IsMap user_id keep [] w = tt
revoke-IsMap user_id keep ((k, v) ∷ s) w =
    ground (arith, revoke-Lacks k user_id keep s, revoke-IsMap user_id keep s, w)

pub step-IsMap : (s : Dict Session) (u : ℕ × Use) → IsMap s → IsMap (step s u)
unfolding step current_user handle_logout
step-IsMap s (now, asks io users none) w = w
step-IsMap s (now, asks io users (some k)) w = session_checked-IsMap io now users k s (lookup k s) w
step-IsMap s (now, logs_out none) w = w
step-IsMap s (now, logs_out (some k)) w = remove-IsMap k s w
step-IsMap s (now, starts k user_id c) w = insert-IsMap k _ s w
step-IsMap s (now, revokes user_id keep) w = revoke-IsMap user_id keep s w
