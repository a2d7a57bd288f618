-- ===== src/State/Calls.antt =====
-- Any use of one user's state: the methods of state/store.go, one after the other.
use llama_labels.Common.{ℕ, String, Bool, Option, List, [], ◌∷◌}
use llama_labels.State.{
  Store, Stamp, Decision, NativeDevice, NotificationSubscription, PullNotification,
}
use llama_labels.State.Persist.{Io}
use llama_labels.State.Processed.{mark_processed, set_checkpoint, add_decision, cleanup}
use llama_labels.State.Queue.{
  native_delivery_mode, set_native_delivery_mode, enqueue_pull_notification,
  pull_notifications_after,
}
use llama_labels.State.Subscriptions.{
  list_notification_subscriptions, upsert_notification_subscription,
  remove_notification_subscription, get_or_create_subscriber_id,
}
use llama_labels.State.Devices.{
  list_native_devices, upsert_native_device, remove_native_device, get_native_device,
  set_native_device_mfa_approver,
}
use llama_labels.State.Notices.{
  set_ai_credits_exhausted, clear_ai_credits_exhausted, set_ollama_update_notified,
}
use llama_labels.State.Pairing.{
  set_desktop_pairing_code, validate_desktop_pairing_code, consume_desktop_pairing_code,
  check_desktop_pairing_rate_limit, record_desktop_pairing_attempt,
}

-- A method that may change the store, with its arguments.
pub data Call : Type 0 where
  marks sets_checkpoint sets_mode removes_endpoint removes_device gets_device : String → Call
  notices_version validates_code consumes_code : String → Call
  decides : Decision → Call
  cleans : Io → ℕ → Call
  asks_mode lists_subscriptions lists_devices clears_ai checks_rate : Call
  enqueues : PullNotification → Call
  pulls : ℕ → Call
  subscribes : NotificationSubscription → Call
  identifies : Option String → Call
  registers : Option String → NativeDevice → Call
  sets_approver : String → Bool → Call
  exhausts_ai : Stamp → Call
  sets_code : String → ℕ → Call
  records_attempt : String → Bool → Call

module _ (to_lower : String → String) where
  unfoldable pub step : Io → ℕ → Store → Call → Store
  step io now s (marks id) = (mark_processed io now s id).1
  step io now s (sets_checkpoint value) = (set_checkpoint io now s value).1
  step io now s (sets_mode mode) = (set_native_delivery_mode io now s mode).1
  step io now s (removes_endpoint e) = (remove_notification_subscription io now s e).1
  step io now s (removes_device id) = (remove_native_device io now s id).1
  step io now s (gets_device id) = (get_native_device io s id).1
  step io now s (notices_version v) = (set_ollama_update_notified io now s v).1
  step io now s (validates_code code) = (validate_desktop_pairing_code now s code).1
  step io now s (consumes_code code) = (consume_desktop_pairing_code io now s code).1
  step io now s (decides d) = (add_decision io now s d).1
  step io now s (cleans io' keep_days) = (cleanup io io' now s keep_days).1
  step io now s asks_mode = (native_delivery_mode io s).1
  step io now s lists_subscriptions = (list_notification_subscriptions io s).1
  step io now s lists_devices = (list_native_devices io s).1
  step io now s clears_ai = (clear_ai_credits_exhausted io now s).1
  step io now s checks_rate = (check_desktop_pairing_rate_limit io now s).1
  step io now s (enqueues n) = (enqueue_pull_notification io now s n).1
  step io now s (pulls cursor) = (pull_notifications_after io s cursor).1
  step io now s (subscribes sub) = (upsert_notification_subscription io now s sub).1
  step io now s (identifies uuid) = (get_or_create_subscriber_id io now s uuid).1
  step io now s (registers uuid device) = (upsert_native_device to_lower io now s uuid device).1
  step io now s (sets_approver id approver) =
      (set_native_device_mfa_approver io now s id approver).1
  step io now s (exhausts_ai at_utc) = (set_ai_credits_exhausted io now s at_utc).1
  step io now s (sets_code code ttl) = (set_desktop_pairing_code io now s code ttl).1
  step io now s (records_attempt code success) =
      (record_desktop_pairing_attempt io now s code success).1

  -- The calls, each with its time and what the disk does in it.
  abbrev pub run : Store → List (Io × (ℕ × Call)) → Store
  run s [] = s
  run s ((io, (now, call)) ∷ calls) = run (step io now s call) calls
