-- ===== src/Challenges.antt =====
-- backend/internal/mfa/mfa.go: the in-memory store of login challenges. A time is a number of
-- nanoseconds and an operation reads the clock once, as `now`; the random ID of a new challenge is an
-- argument, `none` where rand.Read fails.
pub mod Trace
pub mod Redeem
pub mod Attempts
use llama_labels.Common.{
  ℕ, suc, ◌+◌, ◌*◌, String, Bool, true, false, not, Option, none, some, List, [], ◌∷◌, ltb, nat_eq,
  if◌then◌else◌, ◌==◌,
}
use llama_labels.Common.Dict.{Dict, lookup, insert, remove, retain}
use llama_labels.Lockout.{minute}

abbrev pub max_totp_attempts : ℕ
max_totp_attempts = 5

abbrev pub challenge_ttl : ℕ
challenge_ttl = 5 * minute

pub data Error : Type 0 where
  no_entropy challenge_not_found too_many_attempts challenge_already_used : Error
  challenge_already_resolved push_not_approved : Error

-- `unset` is the empty status, which counts as pending.
pub data PushStatus : Type 0 where
  unset pending approved denied : PushStatus

pub record Challenge : Type 0 where
  pub id : String
  pub user_id : String
  pub created_at : ℕ
  pub expires_at : ℕ
  pub totp_attempts : ℕ
  pub used_totp_step : ℕ
  pub push_status : PushStatus
  pub responded_by : String

pub record Store : Type 0 where
  pub m : Dict Challenge

abbrev pub new_store : Store
new_store = record { m = [] }

pub data Result (A : Type 0) : Type 0 where
  ok : A → Result A
  err : Error → Result A

abbrev pub fresh : String → String → ℕ → Challenge
fresh id user_id now = record {
  id = id;
  user_id = user_id;
  created_at = now;
  expires_at = now + challenge_ttl;
  totp_attempts = 0;
  used_totp_step = 0;
  push_status = unset;
  responded_by = "";
}

abbrev pub put : Store → String → Challenge → Store
put s id ch = record { m = insert id ch s.m }

abbrev pub drop_challenge : Store → String → Store
drop_challenge s id = record { m = remove id s.m }

unfoldable pub create : Store → String → Option String → ℕ → Result Challenge × Store
create s user_id none now = (err no_entropy, s)
create s user_id (some id) now = (ok (fresh id user_id now), put s id (fresh id user_id now))

-- What `ok && !time.Now().After(ch.ExpiresAt)` lets through.
abbrev pub unexpired : ℕ → Option Challenge → Option Challenge
unexpired now none = none
unexpired now (some ch) = if ltb ch.expires_at now then none else some ch

unfoldable pub get : Store → String → ℕ → Option Challenge × Store
get s id now = elim (lookup id s.m) [
  | none ↦ (none, s)
  | some ch ↦ if ltb ch.expires_at now then (none, drop_challenge s id) else (some ch, s)
]

-- The counter passes the limit: the challenge is deleted.
abbrev bump : Store → String → Challenge → Result (Unit {0}) × Store
bump s id ch =
    if ltb max_totp_attempts (ch.totp_attempts + 1)
    then (err too_many_attempts, drop_challenge s id)
    else (ok tt, put s id (record ch { totp_attempts = ch.totp_attempts + 1 }))

unfoldable pub record_totp_attempt : Store → String → ℕ → Result (Unit {0}) × Store
record_totp_attempt s id now = elim (unexpired now (lookup id s.m)) [
  | none ↦ (err challenge_not_found, drop_challenge s id)
  | some ch ↦ bump s id ch
]

unfoldable pub consume_totp_step : Store → String → ℕ → ℕ → Result (Unit {0}) × Store
consume_totp_step s id totp_step now = elim (unexpired now (lookup id s.m)) [
  | none ↦ (err challenge_not_found, drop_challenge s id)
  | some ch ↦
      if nat_eq ch.used_totp_step 0
      then (ok tt, put s id (record ch { used_totp_step = totp_step }))
      else (err challenge_already_used, s)
]

unfoldable pub delete : Store → String → Store
delete s id = drop_challenge s id

unfoldable pub delete_by_user : Store → String → Store
delete_by_user s user_id = record { m = retain (λ ch. not (ch.user_id == user_id)) s.m }

abbrev pub shown : PushStatus → PushStatus
shown unset = pending
shown st = st

-- `none` stands for `"", false`.
unfoldable pub push_status : Store → String → ℕ → Option PushStatus × Store
push_status s id now = elim (unexpired now (lookup id s.m)) [
  | none ↦ (none, drop_challenge s id)
  | some ch ↦ (some (shown ch.push_status), s)
]

abbrev pub is_resolved : PushStatus → Bool
is_resolved approved = true
is_resolved denied = true
is_resolved _ = false

abbrev pub verdict : Bool → PushStatus
verdict true = approved
verdict false = denied

-- The status that is returned, and the error beside it.
unfoldable pub resolve_push :
    Store → String → String → Bool → ℕ → (PushStatus × Option Error) × Store
resolve_push s id device_id approve now = elim (unexpired now (lookup id s.m)) [
  | none ↦ ((unset, some challenge_not_found), drop_challenge s id)
  | some ch ↦
      if is_resolved ch.push_status
      then ((ch.push_status, some challenge_already_resolved), s)
      else (
        (verdict approve, none),
        put s id (record ch { push_status = verdict approve; responded_by = device_id }),
      )
]

abbrev pub is_approved : PushStatus → Bool
is_approved approved = true
is_approved _ = false

unfoldable pub consume_push_approval : Store → String → ℕ → Result String × Store
consume_push_approval s id now = elim (unexpired now (lookup id s.m)) [
  | none ↦ (err challenge_not_found, drop_challenge s id)
  | some ch ↦
      if is_approved ch.push_status
      then (ok ch.user_id, drop_challenge s id)
      else (err push_not_approved, s)
]

-- A call of one of the store's methods.
pub data Call : Type 0 where
  creates : String → Option String → Call
  gets attempts deletes asks redeems : String → Call
  consumes_step : String → ℕ → Call
  deletes_user : String → Call
  resolves : String → String → Bool → Call

-- The store after a call at a time.
unfoldable pub step : Store → ℕ × Call → Store
unfolding create get record_totp_attempt consume_totp_step delete delete_by_user push_status
    resolve_push consume_push_approval
step s (now, creates user_id id) = (create s user_id id now).1
step s (now, gets id) = (get s id now).1
step s (now, attempts id) = (record_totp_attempt s id now).1
step s (now, deletes id) = delete s id
step s (now, asks id) = (push_status s id now).1
step s (now, redeems id) = (consume_push_approval s id now).1
step s (now, consumes_step id n) = (consume_totp_step s id n now).1
step s (now, deletes_user user_id) = delete_by_user s user_id
step s (now, resolves id device_id approve) = (resolve_push s id device_id approve now).1

unfoldable pub run : Store → List (ℕ × Call) → Store
run s [] = s
run s (c ∷ cs) = run (step s c) cs
