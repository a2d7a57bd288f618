-- ===== src/Users/Operations.antt =====
-- backend/internal/users/users.go: the operations that change one account, each a `mutate`.
use llama_labels.Common.{
  ℕ, String, Bool, true, false, Option, none, some, List, [], ◌∷◌, leb, if◌then◌else◌, ◌==◌,
}
use mathlib.Core.Option
use llama_labels.Disk.{Io}
use llama_labels.Users.{
  Role, User, Store, no_entropy, no_pending_secret, totp_step_not_newer, recovery_code_no_match,
  Result, ok, err, mutate,
}

unfoldable pub set_role : Io → Store → String → Role → String → Result User × Store
set_role io s id role now = mutate io s id now (λ u. ok (record u { role = role }))

-- The hash is made before the file is read.
unfoldable pub set_password :
    Io → Store → String → Option String → Bool → String → Result User × Store
set_password io s id none require_change now = (err no_entropy, s)
set_password io s id (some hash) require_change now =
    mutate io s id now
      (λ u. ok (record u { password_hash = hash; must_change_password = require_change }))

unfoldable pub clear_must_change_password : Io → Store → String → String → Result User × Store
clear_must_change_password io s id now =
    mutate io s id now (λ u. ok (record u { must_change_password = false }))

unfoldable pub deactivate : Io → Store → String → String → Result User × Store
deactivate io s id now =
    mutate io s id now (λ u. ok (record u { active = false; deactivated_at = now }))

unfoldable pub reactivate : Io → Store → String → String → Result User × Store
reactivate io s id now =
    mutate io s id now (λ u. ok (record u { active = true; deactivated_at = "" }))

unfoldable pub set_pending_totp_secret : Io → Store → String → String → String → Result User × Store
set_pending_totp_secret io s id secret_enc now = mutate io s id now (λ u. ok (record u {
  totp_secret_enc = secret_enc;
  totp_enabled = false;
  totp_confirmed_at = "";
  recovery_codes_hash = [];
}))

abbrev enabled : String → List String → User → Result User
enabled confirmed_at hashes u =
    if u.totp_secret_enc == ""
    then err no_pending_secret
    else ok (record u {
      totp_enabled = true;
      totp_confirmed_at = confirmed_at;
      recovery_codes_hash = hashes;
    })

unfoldable pub enable_totp :
    Io → Store → String → String → List String → String → Result User × Store
enable_totp io s id confirmed_at hashes now = mutate io s id now (enabled confirmed_at hashes)

unfoldable pub disable_totp : Io → Store → String → String → Result User × Store
disable_totp io s id now = mutate io s id now (λ u. ok (record u {
  totp_enabled = false;
  totp_secret_enc = "";
  totp_confirmed_at = "";
  recovery_codes_hash = [];
  push_mfa_enabled = false;
}))

unfoldable pub set_push_mfa_enabled : Io → Store → String → Bool → String → Result User × Store
set_push_mfa_enabled io s id enabled now =
    mutate io s id now (λ u. ok (record u { push_mfa_enabled = enabled }))

abbrev pub advance_step : ℕ → User → Result User
advance_step totp_step u =
    if leb totp_step u.last_used_totp_step
    then err totp_step_not_newer
    else ok (record u { last_used_totp_step = totp_step })

unfoldable pub set_last_used_totp_step : Io → Store → String → ℕ → String → Result User × Store
set_last_used_totp_step io s id totp_step now = mutate io s id now (advance_step totp_step)

unfoldable pub set_pgp_identity :
    Io
    → Store
    → String
    → String
    → String
    → String
    → String
    → String
    → String
    → String
    → Result User × Store
set_pgp_identity io s id fingerprint key_id public_key private_key_enc source created_at now =
    mutate io s id now (λ u. ok (record u {
      pgp_fingerprint = fingerprint;
      pgp_key_id = key_id;
      pgp_public_key = public_key;
      pgp_private_key_enc = private_key_enc;
      pgp_key_source = source;
      pgp_key_created_at = created_at;
    }))

unfoldable pub clear_pgp_identity : Io → Store → String → String → Result User × Store
clear_pgp_identity io s id now = mutate io s id now (λ u. ok (record u {
  pgp_fingerprint = "";
  pgp_key_id = "";
  pgp_public_key = "";
  pgp_private_key_enc = "";
  pgp_key_source = "";
  pgp_key_created_at = "";
}))

unfoldable pub replace_recovery_codes :
    Io → Store → String → List String → String → Result User × Store
replace_recovery_codes io s id hashes now =
    mutate io s id now (λ u. ok (record u { recovery_codes_hash = hashes }))

abbrev pub spent : User → Option (List String) → Result User
spent u none = err recovery_code_no_match
spent u (some rest) = ok (record u { recovery_codes_hash = rest })

-- No match is no error, and nothing is written.
abbrev pub matched : Result User × Store → Result (Option User) × Store
matched (ok u, s) = (ok (some u), s)
matched (err recovery_code_no_match, s) = (ok none, s)
matched (err e, s) = (err e, s)

-- `verify` compares a scrypt hash with a candidate.
module _ (verify : String → String → Bool) where
  -- The hashes without the first that the candidate fits; `none` where none does.
  unfoldable pub spend : List String → String → Option (List String)
  spend [] candidate = none
  spend (h ∷ hs) candidate =
      if verify h candidate then some hs else Option.map (λ rest. h ∷ rest) (spend hs candidate)

  abbrev pub spending : String → User → Result User
  spending candidate u = spent u (spend u.recovery_codes_hash candidate)

  unfoldable pub consume_recovery_code :
      Io → Store → String → String → String → Result (Option User) × Store
  consume_recovery_code io s id candidate now = matched (mutate io s id now (spending candidate))
