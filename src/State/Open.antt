-- ===== src/State/Open.antt =====
-- state/store.go: `New`, which loads both files or creates them.
use llama_labels.Common.{ℕ, false, Option, none, some, List, [], if◌then◌else◌}
use llama_labels.Disk.{File, Loaded, loaded, missing, failed, parsed, read_failed}
use llama_labels.State.{text, Decision, StateFile, Memory, Store, Error, disk}
use llama_labels.State.Persist.{Io, apply_state_file, read_state, persist}
use llama_labels.State.Processed.{write_decisions}

abbrev pub empty_memory : Memory
empty_memory = record {
  checkpoint = "";
  processed_set = [];
  decisions = [];
  notifications = [];
  notifications_dirty = false;
  native_devices = [];
  native_devices_dirty = false;
  subscriber_id = "";
  native_delivery_mode = "";
  pull_notifications = [];
  pull_seq = 0;
  pull_dirty = false;
  ai_credits_exhausted = false;
  ai_credits_exhausted_at = text "";
  ollama_update_notified_version = "";
  desktop_pairing_codes = [];
  pairing_codes_dirty = false;
  desktop_pairing_attempts = [];
  pairing_attempts_dirty = false;
}

abbrev pub loading : Io → ℕ → Store → Loaded StateFile → Option Error × Store
loading io now s missing = persist io s
loading io now s (failed e) = (some (disk e), s)
loading io now s (loaded sf) = (none, record s { memory = apply_state_file now sf s.memory })

unfoldable pub load : Io → ℕ → Store → Option Error × Store
load io now s = loading io now s (read_state io s.file)

abbrev pub loading_decisions : Io → Store → Loaded (List Decision) → Option Error × Store
loading_decisions io s missing = write_decisions io s
loading_decisions io s (failed e) = (some (disk e), s)
loading_decisions io s (loaded ds) =
    (none, record s { memory = record s.memory { decisions = ds } })

unfoldable pub load_decisions : Io → Store → Option Error × Store
load_decisions io s =
    loading_decisions io s (if io.can_read then parsed s.decisions_file else failed read_failed)

abbrev pub then_decisions : Io → Option Error × Store → Option Error × Store
then_decisions io (none, s) = load_decisions io s
then_decisions io (some e, s) = (some e, s)

-- The store over two files; the disk serves each file as it does the first or the second `Io`.
unfoldable pub new : Io → Io → ℕ → File StateFile → File (List Decision) → Option Error × Store
unfolding load load_decisions
new io io' now file decisions_file =
    then_decisions io'
      (load io now (record { memory = empty_memory; file = file; decisions_file = decisions_file }))
