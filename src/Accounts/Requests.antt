-- ===== src/Accounts/Requests.antt =====
-- Requests to the account handlers of server_users.go, handled one after the other.
use llama_labels.Common.{String, Option, List, [], ◌∷◌}
use llama_labels.Accounts.{Server, Env}
use llama_labels.Accounts.Handlers.{
  users_create, users_update, users_reset_password, users_deactivate, users_reactivate,
  users_clear_mfa, users_list, Reply,
}

pub data Request : Type 0 where
  lists_users : Request
  creates : Option (String × (String × String)) → Request
  updates resets_password : String → Option String → Request
  deactivates reactivates clears_mfa : String → Request

unfoldable pub handle : Env → Server → Request → Reply × Server
handle env s lists_users = users_list env s
handle env s (creates body) = users_create env s body
handle env s (updates id body) = users_update env s id body
handle env s (resets_password id body) = users_reset_password env s id body
handle env s (deactivates id) = users_deactivate env s id
handle env s (reactivates id) = users_reactivate env s id
handle env s (clears_mfa id) = users_clear_mfa env s id

abbrev pub handle_all : Server → List (Env × Request) → Server
handle_all s [] = s
handle_all s ((env, request) ∷ requests) = handle_all (handle env s request).1 requests
