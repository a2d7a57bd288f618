-- ===== src/State/Persist.antt =====
-- How state/store.go reads and writes state.json.
use llama_labels.Common.{
  ℕ, ◌+◌, ◌*◌, String, Bool, false, Option, none, some, [], ◌∷◌, ltb, if◌then◌else◌, keep, length,
}
use llama_labels.Common.Text.{trim_space, is_pull}
use llama_labels.Common.Dict.{Dict, retain}
use llama_labels.Disk.{
  File, corrupt, holds, write_failed, Loaded, loaded, missing, failed, parsed, read_failed,
}
use llama_labels.Lockout.{minute}
use llama_labels.State.{
  Stamp, at, text, second, stamp, StateFile, Memory, Store, Error, disk, Result, ok, err, ◌>>=◌,
}

-- os.WriteFile is not atomic: it fails before it opens the file, or it leaves a part of the text.
pub data Write : Type 0 where
  done refused torn : Write

pub record Io : Type 0 where
  pub can_read : Bool
  pub write : Write

abbrev pub read_state : Io → File StateFile → Loaded StateFile
read_state io file = if io.can_read then parsed file else failed read_failed

unfoldable pub normalize_delivery_mode : String → String
normalize_delivery_mode mode = if is_pull (trim_space mode) then "pull" else "push"

-- The stamps that parse, as times.
abbrev pub parsed_times : Dict Stamp → Dict ℕ
parsed_times [] = []
parsed_times ((id, at t) ∷ rest) = (id, t * second) ∷ parsed_times rest
parsed_times ((id, text s) ∷ rest) = parsed_times rest

abbrev pub stamped_times : Dict ℕ → Dict Stamp
stamped_times [] = []
stamped_times ((id, t) ∷ rest) = (id, stamp t) ∷ stamped_times rest

-- The stamp parses and is after `now - age`, with the age moved to the other side.
abbrev pub is_within : ℕ → ℕ → Stamp → Bool
is_within age now (at t) = ltb now (t * second + age)
is_within age now (text s) = false

abbrev pub day : ℕ
day = 24 * 60 * minute

unfoldable pub apply_state_file : ℕ → StateFile → Memory → Memory
apply_state_file now sf m =
    let codes = retain (is_within 0 now) sf.desktop_pairing_codes in
    let attempts = keep (λ a. is_within day now a.attempt_at) sf.desktop_pairing_attempts in
    record m {
      checkpoint = sf.last_checkpoint;
      ai_credits_exhausted = sf.ai_credits_exhausted;
      ai_credits_exhausted_at = sf.ai_credits_exhausted_at;
      ollama_update_notified_version = sf.ollama_update_notified_version;
      subscriber_id = trim_space sf.subscriber_id;
      notifications = sf.notifications;
      notifications_dirty = false;
      native_devices = sf.native_devices;
      native_devices_dirty = false;
      native_delivery_mode = normalize_delivery_mode sf.native_delivery_mode;
      pull_notifications = sf.pull_notifications;
      pull_seq = sf.pull_seq;
      pull_dirty = false;
      processed_set = parsed_times sf.processed;
      desktop_pairing_codes = codes;
      pairing_codes_dirty = ltb (length codes) (length sf.desktop_pairing_codes);
      desktop_pairing_attempts = attempts;
      pairing_attempts_dirty = ltb (length attempts) (length sf.desktop_pairing_attempts);
    }

-- A re-read with `apply`; a missing file leaves the memory as it is.
abbrev pub refreshed : (StateFile → Memory → Memory) → Store → Loaded StateFile → Result Store
refreshed apply s missing = ok s
refreshed apply s (failed e) = err (disk e)
refreshed apply s (loaded sf) = ok (record s { memory = apply sf s.memory })

unfoldable pub refresh_state : Io → ℕ → Store → Result Store
unfolding apply_state_file
refresh_state io now s = refreshed (apply_state_file now) s (read_state io s.file)

abbrev pub load_notifications : StateFile → Memory → Memory
load_notifications sf m = record m { notifications = sf.notifications; notifications_dirty = false }

abbrev pub load_native_devices : StateFile → Memory → Memory
load_native_devices sf m = record m {
  native_devices = sf.native_devices;
  native_devices_dirty = false;
}

abbrev pub load_pull : StateFile → Memory → Memory
load_pull sf m = record m {
  native_delivery_mode = normalize_delivery_mode sf.native_delivery_mode;
  pull_notifications = sf.pull_notifications;
  pull_seq = sf.pull_seq;
  pull_dirty = false;
}

abbrev pub refresh_with : (StateFile → Memory → Memory) → Io → Store → Result Store
refresh_with apply io s = refreshed apply s (read_state io s.file)

abbrev pub unless_dirty : Bool → Result Store → Store → Result Store
unless_dirty dirty again s = if dirty then ok s else again

unfoldable pub to_file : Memory → StateFile
to_file m = record {
  last_checkpoint = m.checkpoint;
  processed = stamped_times m.processed_set;
  notifications = m.notifications;
  native_devices = m.native_devices;
  subscriber_id = m.subscriber_id;
  native_delivery_mode = m.native_delivery_mode;
  pull_notifications = m.pull_notifications;
  pull_seq = m.pull_seq;
  ai_credits_exhausted = m.ai_credits_exhausted;
  ai_credits_exhausted_at = m.ai_credits_exhausted_at;
  ollama_update_notified_version = m.ollama_update_notified_version;
  desktop_pairing_codes = m.desktop_pairing_codes;
  desktop_pairing_attempts = m.desktop_pairing_attempts;
}

abbrev pub write_state : Write → Store → Option Error × Store
write_state done s = (
  none,
  record s {
    memory = record s.memory {
      notifications_dirty = false;
      native_devices_dirty = false;
      pull_dirty = false;
    };
    file = holds (to_file s.memory);
  },
)
write_state refused s = (some (disk write_failed), s)
write_state torn s = (some (disk write_failed), record s { file = corrupt })

abbrev pub written : Io → Store → Result Store → Option Error × Store
written io s (err e) = (some e, s)
written io s (ok s') = write_state io.write s'

-- The re-read of each part that is not dirty. All are of one file: where one fails, none before it has
-- changed the memory.
abbrev pub reread : Io → Store → Result Store
reread io s = do
  s₁ ← unless_dirty s.memory.notifications_dirty (refresh_with load_notifications io s) s
  s₂ ← unless_dirty s₁.memory.native_devices_dirty (refresh_with load_native_devices io s₁) s₁
  unless_dirty s₂.memory.pull_dirty (refresh_with load_pull io s₂) s₂

unfoldable pub persist : Io → Store → Option Error × Store
unfolding to_file
persist io s = written io s (reread io s)

-- What an operation does once the state is read: return, or persist first. The value of a failed
-- persist may be another.
pub data Act (A : Type 0) : Type 0 where
  leave : A → Option Error → Memory → Act A
  save : A → A → Memory → Act A

abbrev pub chosen : {A : Type 0} → A → A → Option Error → A × Option Error
chosen good bad none = (good, none)
chosen good bad (some e) = (bad, some e)

abbrev pub acted : {A : Type 0} → Io → Store → Act A → (A × Option Error) × Store
acted io s (leave a e m) = ((a, e), record s { memory = m })
acted io s (save good bad m) =
    let (e, s') = persist io (record s { memory = m }) in (chosen good bad e, s')

abbrev pub acting :
    {A : Type 0} → Io → Store → A → (Memory → Act A) → Result Store → (A × Option Error) × Store
acting io s zero act (err e) = ((zero, some e), s)
acting io s zero act (ok s') = acted io s' (act s'.memory)

-- The shape that the operations share: refresh from disk, then `act`; `zero` goes with a failed refresh.
unfoldable pub update :
    {A : Type 0} → Io → ℕ → Store → A → (Memory → Act A) → (A × Option Error) × Store
unfolding refresh_state persist
update io now s zero act = acting io s zero act (refresh_state io now s)

-- A refresh whose error is ignored.
abbrev pub peeked : Store → Result Store → Store
peeked s (ok s') = s'
peeked s (err e) = s

abbrev pub peek : (StateFile → Memory → Memory) → Io → Store → Store
peek apply io s = peeked s (refresh_with apply io s)
