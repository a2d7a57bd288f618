-- ===== src/Tests/State.antt =====
-- Runs of one user's state.
use llama_labels.Common.{
  ℕ, ◌≤◌, ◌≡◌, ◌≢◌, eq_iff, refl, String, true, false, none, List, [], ◌∷◌, arith, length,
}
use llama_labels.Common.Dict.{lookup, remove, retain}
use llama_labels.Common.Lists.{find_first}
use llama_labels.Common.Text.{trim_space}
use llama_labels.Disk.{corrupt, holds}
use llama_labels.State.{Store, StateFile, NativeDevice, PullNotification, text, at}
use llama_labels.State.Persist.{Io, torn, update, refresh_state, persist, apply_state_file, to_file}
use llama_labels.State.Open.{empty_memory, new}
use llama_labels.State.Processed.{mark_processed}
use llama_labels.State.Torn.{torn-final}
use llama_labels.State.Calls.{Call, run, registers, sets_code, enqueues, marks}
use llama_labels.State.Pairing.{consume_desktop_pairing_code}
use llama_labels.State.Pairing.Once.{pairing-code-once}
use llama_labels.State.Notices.{set_ai_credits_exhausted}
use llama_labels.State.Notices.Once.{exhausted-notified_once}
use llama_labels.State.Devices.Approvers.{IsFlagged, IsFlaggedOnFile, approver-kept}
use llama_labels.State.Queue.{pull_notifications_after, max_pull_notifications}
use llama_labels.State.Queue.Numbered.{IsNumbered, pulled-IsNumbered}
use llama_labels.State.Queue.Delivery.{good_disk, enqueue_all, deliveries, queued-delivered}
use llama_labels.State.Invariant.{IsSound}

abbrev failing_disk : Io
failing_disk = record { can_read = true; write = torn }

abbrev phone : NativeDevice
phone = record {
  device_id = "d1";
  platform = "ios";
  push_token = "tok";
  device_name = "";
  app_version = "";
  user_agent = "";
  registered_at = at 5;
  updated_at = at 5;
  user_id = "u1";
  mfa_approver = false;
  transport = "";
  secret_hash = "h";
}

abbrev one_phone : StateFile
one_phone = record {
  last_checkpoint = "";
  processed = [];
  notifications = [];
  native_devices = phone ∷ [];
  subscriber_id = "";
  native_delivery_mode = "push";
  pull_notifications = [];
  pull_seq = 4;
  ai_credits_exhausted = false;
  ai_credits_exhausted_at = text "";
  ollama_update_notified_version = "";
  desktop_pairing_codes = ("123456", at 300) ∷ [];
  desktop_pairing_attempts = [];
}

abbrev started : Store
started = record {
  memory = record empty_memory { native_devices = phone ∷ [] };
  file = holds one_phone;
  decisions_file = holds [];
}

abbrev same_text : String → String
same_text s = s

abbrev hello : PullNotification
hello = record { seq = 0; title = "hello"; body = ""; payload = []; created_at = text "" }

abbrev busy : List (Io × (ℕ × Call))
busy =
    (good_disk, (7, registers none (record phone { device_id = ""; mfa_approver = true })))
    ∷ (good_disk, (8, sets_code "999" 0))
    ∷ (failing_disk, (9, enqueues hello))
    ∷ (good_disk, (10, marks "m1"))
    ∷ []

other_code : trim_space "999" ≢ trim_space "123456"
unfolding trim_space
other_code e = ground (arith, eq_iff "999" "123456", e)

pairing-code-once_example :
    (consume_desktop_pairing_code good_disk 12
      (run same_text (consume_desktop_pairing_code good_disk 5 started "123456").1 busy)
      " 123456").0.0
    ≡ false
pairing-code-once_example =
    pairing-code-once same_text good_disk good_disk 5 12 started "123456" " 123456" busy
      (unfold consume_desktop_pairing_code update refresh_state persist apply_state_file to_file
          lookup remove retain trim_space in
        refl)
      (unfold trim_space in refl) (tt, (other_code, (tt, (tt, tt))))

exhausted-notified_once_example :
    (set_ai_credits_exhausted good_disk 20
      (run same_text (set_ai_credits_exhausted good_disk 5 started (text "")).1 busy)
      (at 20)).0.0
    ≡ false
exhausted-notified_once_example =
    exhausted-notified_once same_text good_disk good_disk 5 20 started (text "") (at 20) busy
      (unfold set_ai_credits_exhausted update refresh_state persist in refl)
      (tt, (tt, (tt, (tt, tt))))

approver-kept_example :
    IsSound (IsFlagged "d1" false) (IsFlaggedOnFile "d1" false) (run same_text started busy)
approver-kept_example =
    approver-kept same_text "d1" false started busy (unfold find_first in (refl, refl))
      (tt, (tt, (tt, (tt, tt))))

pulled-IsNumbered_example :
    IsNumbered 4
      (pull_notifications_after good_disk (run same_text started busy) 4).0.1
      (pull_notifications_after good_disk (run same_text started busy) 4).0.0
    × (length (pull_notifications_after good_disk (run same_text started busy) 4).0.0
        ≤ max_pull_notifications)
pulled-IsNumbered_example =
    pulled-IsNumbered same_text good_disk started busy 4 ((tt, omega arith), (tt, omega arith))

abbrev two_messages : List (ℕ × PullNotification)
two_messages = (6, hello) ∷ (7, hello) ∷ []

queued-delivered_example :
    (pull_notifications_after good_disk (enqueue_all started two_messages) 4).0
    ≡ (deliveries 4 two_messages, 6)
queued-delivered_example = queued-delivered started one_phone two_messages refl tt (omega arith)

abbrev torn_store : Store
torn_store = record started { file = corrupt }

torn-final_example :
    ((run same_text torn_store busy).file ≡ corrupt)
    × (((mark_processed good_disk 30 (run same_text torn_store busy) "m2").0.1 ≢ none)
        × ((new good_disk good_disk 30 (run same_text torn_store busy).file (holds [])).0 ≢ none))
torn-final_example = torn-final same_text torn_store busy good_disk good_disk 30 "m2" refl
