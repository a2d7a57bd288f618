-- ===== src/Login/Once.antt =====
-- A TOTP code signs in once, whatever challenges it is tried on.
use llama_labels.Common.{ℕ, ◌+◌, ◌/◌, ◌≤◌, String, ◌≡◌, ◌≢◌, sym, ◌∙◌, Bool, some, arith}
use llama_labels.Common.Text.{trim_space}
use llama_labels.Common.Stamps.{second}
use llama_labels.Totp.{period, validate_sound}
use llama_labels.Users.{User}
use llama_labels.Users as Users
use llama_labels.Users.Steps.{Later}
use llama_labels.Users.Replay.{totp-replay}
use llama_labels.Login.{Server, Env, signed_in}
use llama_labels.Login.SecondFactor.{handle_mfa_totp}
use llama_labels.Login.Earned.{totp-IsEarned}

-- The account that a request finds has the secret.
abbrev pub HasSecret : Env → Users.Store → String → String → Type 0
HasSecret env users user_id secret =
    (u : User)
    → Users.get env.read_io users user_id ≡ Users.ok u
    → env.open_totp_secret u.totp_secret_enc ≡ some secret

-- The step of a code of `secret` that a request of `env` accepts: the present one, the last or the next.
abbrev pub IsCurrent : Env → String → String → ℕ → Type 0
IsCurrent env secret code c =
    (env.generate_code secret c ≡ some (trim_space code))
    × ((env.now / second / period ≤ c + 1) × (c ≤ env.now / second / period + 1))

some-injective : {x y : String} → some x ≡ some y → x ≡ y
some-injective h = ground (arith, h)

-- After a code has completed a login challenge of an account, no code of the same step or an earlier one
-- completes one of that account, on whatever challenge and after any later operations on the accounts. The
-- account is found with the same secret both times, and no step that is current at the second request, of
-- which the second code is, is later than a step that is current at the first, of which the first code is.
pub totp-code-once :
    (verify : String → String → Bool) (env env' : Env) (s t : Server)
    (user_id secret challenge_id challenge_id' code code' : String) (m m' : Bool)
    → (handle_mfa_totp env s (some (challenge_id, code))).0 ≡ signed_in user_id m
    → Later verify (handle_mfa_totp env s (some (challenge_id, code))).1.users t.users
    → HasSecret env s.users user_id secret
    → HasSecret env' t.users user_id secret
    → ((c c' : ℕ) → IsCurrent env secret code c → IsCurrent env' secret code' c' → c' ≤ c)
    → (handle_mfa_totp env' t (some (challenge_id', code'))).0 ≢ signed_in user_id m'
totp-code-once verify env env' s t user_id secret challenge_id challenge_id' code code' m m' first
      later has has' last second =
    let (u, (found, (sec, (opens, (step, (matched, (v, (accepted, (same, after))))))))) =
      totp-IsEarned env user_id m s challenge_id code first in
    let (u', (found', (sec', (opens', (step', (matched', (v', (accepted', (same', after'))))))))) =
      totp-IsEarned env' user_id m' t challenge_id' code' second in
    let is_secret : sec ≡ secret = some-injective (sym opens ∙ has u found) in
    let is_secret' : sec' ≡ secret = some-injective (sym opens' ∙ has' u' found') in
    let code_is =
      validate_sound env.generate_code secret code env.now step (rw is_secret at matched) in
    let code_is' =
      validate_sound env'.generate_code secret code' env'.now step' (rw is_secret' at matched') in
    let le : step' ≤ step = last step step' code_is code_is' in
    totp-replay verify env.write_io env'.write_io s.users t.users user_id env.now_text env'.now_text
      step step' v v' (rw same at accepted) (rw (after, same) at later) le (rw same' at accepted')
