-- ===== src/State.antt =====
-- backend/internal/state/store.go: the state of one user, kept in memory and in state.json and
-- decisions.json. An operation reads the clock once, as `now`, in nanoseconds.
pub mod Persist
pub mod Processed
pub mod Open
pub mod Queue
pub mod Devices
pub mod Subscriptions
pub mod Notices
pub mod Pairing
pub mod Calls
pub mod Invariant
pub mod Established
pub mod Kept
pub mod Torn
pub use llama_labels.Common.Stamps.{Stamp, at, text, second, stamp, parse_stamp, is_blank, is_empty}
use llama_labels.Common.{
  ℕ, ◌+◌, ◌*◌, ◌/◌, ◌-◌, String, Bool, true, false, Option, none, some, List, [], ◌∷◌, ltb, leb,
  if◌then◌else◌, ◌==◌, keep, length, not,
}
use llama_labels.Common.Text.{trim_space, is_pull}
use llama_labels.Common.Dict.{Dict, retain}
use llama_labels.Disk.{
  File, absent, corrupt, holds, DiskError, write_failed, Loaded, loaded, missing, failed, parsed,
  read_failed,
}
use llama_labels.Lockout.{minute}

pub record PairingAttempt : Type 0 where
  pub code : String
  pub attempt_at : Stamp
  pub success : Bool

pub record Decision : Type 0 where
  pub message_id : String
  pub sender : String
  pub sent_to : String
  pub subject : String
  pub label : String
  pub status : String
  pub detail : String
  pub at_utc : Stamp

pub record NotificationSubscription : Type 0 where
  pub endpoint : String
  pub auth : String
  pub p256dh : String
  pub user_agent : String
  pub updated_at : String

pub record NativeDevice : Type 0 where
  pub device_id : String
  pub platform : String
  pub push_token : String
  pub device_name : String
  pub app_version : String
  pub user_agent : String
  pub registered_at : Stamp
  pub updated_at : Stamp
  pub user_id : String
  pub mfa_approver : Bool
  pub transport : String
  pub secret_hash : String

pub record PullNotification : Type 0 where
  pub seq : ℕ
  pub title : String
  pub body : String
  pub payload : Dict String
  pub created_at : Stamp

pub record StateFile : Type 0 where
  pub last_checkpoint : String
  pub processed : Dict Stamp
  pub notifications : List NotificationSubscription
  pub native_devices : List NativeDevice
  pub subscriber_id : String
  pub native_delivery_mode : String
  pub pull_notifications : List PullNotification
  pub pull_seq : ℕ
  pub ai_credits_exhausted : Bool
  pub ai_credits_exhausted_at : Stamp
  pub ollama_update_notified_version : String
  pub desktop_pairing_codes : Dict Stamp
  pub desktop_pairing_attempts : List PairingAttempt

-- The fields of the Go `Store` that are data.
pub record Memory : Type 0 where
  pub checkpoint : String
  pub processed_set : Dict ℕ
  pub decisions : List Decision
  pub notifications : List NotificationSubscription
  pub notifications_dirty : Bool
  pub native_devices : List NativeDevice
  pub native_devices_dirty : Bool
  pub subscriber_id : String
  pub native_delivery_mode : String
  pub pull_notifications : List PullNotification
  pub pull_seq : ℕ
  pub pull_dirty : Bool
  pub ai_credits_exhausted : Bool
  pub ai_credits_exhausted_at : Stamp
  pub ollama_update_notified_version : String
  pub desktop_pairing_codes : Dict Stamp
  pub pairing_codes_dirty : Bool
  pub desktop_pairing_attempts : List PairingAttempt
  pub pairing_attempts_dirty : Bool

-- The memory together with the two files.
pub record Store : Type 0 where
  pub memory : Memory
  pub file : File StateFile
  pub decisions_file : File (List Decision)

pub data Error : Type 0 where
  disk : DiskError → Error
  no_entropy : Error

pub data Result {ℓ} (A : Type ℓ) : Type ℓ where
  ok : A → Result A
  err : Error → Result A

infixl 5 ◌>>=◌
abbrev pub ◌>>=◌ {ℓ κ} : {A : Type ℓ} {B : Type κ} → Result A → (A → Result B) → Result B
ok a >>= f = f a
err e >>= f = err e
