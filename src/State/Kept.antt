-- ===== src/State/Kept.antt =====
-- The change that each method makes to the memory once the state is read, and the properties that are
-- kept through any calls because those changes keep them.
use llama_labels.Common.{
  ℕ, true, find_first, ◌*◌, ◌+◌, String, Option, none, some, List, [], ◌∷◌, ◌++◌, leb,
  if◌then◌else◌, All,
}
use llama_labels.Common.Dict.{lookup, insert}
use llama_labels.Common.Text.{trim_space}
use llama_labels.Lockout.{minute}
use llama_labels.State.{Memory, StateFile, Store, Error, Decision, is_empty, stamp, Result, ok, err}
use llama_labels.State.Persist.{
  Io, Write, done, refused, torn, Act, leave, save, load_notifications, load_native_devices,
  load_pull, normalize_delivery_mode, update,
}
use llama_labels.State.Processed.{
  mark_processed, set_checkpoint, add_decision, cleanup, cleaned, cleaning, put_decisions,
  and_persist,
}
use llama_labels.State.Queue.{
  native_delivery_mode, set_native_delivery_mode, enqueue_pull_notification,
  pull_notifications_after, enqueued,
}
use llama_labels.State.Subscriptions.{
  list_notification_subscriptions, upsert_notification_subscription,
  remove_notification_subscription, get_or_create_subscriber_id, upserted_in, removing_in,
  has_endpoint, subscribing,
}
use llama_labels.State.Devices.{
  list_native_devices, upsert_native_device, remove_native_device, get_native_device,
  set_native_device_mfa_approver, registering, removing, approving, known,
}
use llama_labels.State.Notices.{
  set_ai_credits_exhausted, clear_ai_credits_exhausted, set_ollama_update_notified, exhausting,
  clearing, notifying,
}
use llama_labels.State.Pairing.{
  set_desktop_pairing_code, validate_desktop_pairing_code, consume_desktop_pairing_code,
  check_desktop_pairing_rate_limit, record_desktop_pairing_attempt, last_hundred, consuming,
  validated,
}
use llama_labels.State.Calls.{
  Call, marks, sets_checkpoint, sets_mode, removes_endpoint, removes_device, gets_device,
  notices_version, validates_code, consumes_code, decides, cleans, asks_mode, lists_subscriptions,
  lists_devices, clears_ai, checks_rate, enqueues, pulls, subscribes, identifies, registers,
  sets_approver, exhausts_ai, sets_code, records_attempt, step, run,
}
use llama_labels.State.Invariant.{
  IsClosed, IsSound, IsSoundResult, Keeps, peek-IsSound, persist-IsSound, refresh-IsSound,
  update-IsSound,
}

abbrev pub after_act : {A : Type 0} → Act A → Memory
after_act (leave a e m) = m
after_act (save good bad m) = m

abbrev pub deciding : ℕ → Decision → Memory → Memory
deciding now d m = record m {
  decisions =
      m.decisions ++ (record d { at_utc = if is_empty d.at_utc then stamp now else d.at_utc }) ∷ [];
}

abbrev pub with_mode : String → Memory → Memory
with_mode mode m = record m {
  native_delivery_mode = normalize_delivery_mode mode;
  pull_dirty = true;
}

module _ (to_lower : String → String) where
  abbrev pub touched : ℕ → Call → Memory → Memory
  touched now (marks id) m = record m { processed_set = insert id now m.processed_set }
  touched now (sets_checkpoint value) m = record m { checkpoint = value }
  touched now (sets_mode mode) m = with_mode mode m
  touched now (removes_endpoint e) m =
      after_act (removing_in e m (find_first (has_endpoint e) m.notifications))
  touched now (removes_device id) m =
      after_act (removing (trim_space id) m (known (trim_space id) m.native_devices))
  touched now (gets_device id) m = m
  touched now (notices_version v) m = after_act (notifying (trim_space v) m)
  touched now (validates_code code) m =
      (validated now (trim_space code) m (lookup (trim_space code) m.desktop_pairing_codes)).1
  touched now (consumes_code code) m =
      after_act
        (consuming now (trim_space code) m (lookup (trim_space code) m.desktop_pairing_codes))
  touched now (decides d) m = deciding now d m
  touched now (cleans io' keep_days) m = cleaned now keep_days m
  touched now asks_mode m = m
  touched now lists_subscriptions m = m
  touched now lists_devices m = m
  touched now clears_ai m = after_act (clearing m)
  touched now checks_rate m = m
  touched now (enqueues n) m = enqueued now n m
  touched now (pulls cursor) m = m
  touched now (subscribes sub) m = record m {
    notifications =
        upserted_in sub m.notifications (find_first (has_endpoint sub.endpoint) m.notifications);
    notifications_dirty = true;
  }
  touched now (identifies uuid) m = after_act (subscribing uuid m)
  touched now (registers uuid device) m = after_act (registering to_lower now uuid device m)
  touched now (sets_approver id approver) m =
      after_act (approving now (trim_space id) approver m (known (trim_space id) m.native_devices))
  touched now (exhausts_ai at_utc) m = after_act (exhausting now at_utc m)
  touched now (sets_code code ttl) m = record m {
    desktop_pairing_codes =
        insert (trim_space code) (stamp (now + (if leb ttl 0 then 5 * minute else ttl)))
          m.desktop_pairing_codes;
    pairing_codes_dirty = true;
  }
  touched now (records_attempt code success) m = record m {
    desktop_pairing_attempts = last_hundred (
        m.desktop_pairing_attempts
        ++ (record { code = trim_space code; attempt_at = stamp now; success = success }) ∷ []);
    pairing_attempts_dirty = true;
  }

  module _ (PM : Memory → Type 0) (PF : StateFile → Type 0) where
    Keeps-after : {A : Type 0} (a : Act A) → PM (after_act a) → Keeps PM PF a
    Keeps-after (leave a e m) h = h
    Keeps-after (save good bad m) h = h

    decisions-IsSound :
        (w : Write) (s : Store) → IsSound PM PF s → IsSound PM PF (put_decisions w s).1
    decisions-IsSound done s h = h
    decisions-IsSound refused s h = h
    decisions-IsSound torn s h = h

    and_persist-IsSound :
        (io : Io) (r : Option Error × Store)
        → IsClosed PM PF
        → IsSound PM PF r.1
        → IsSound PM PF (and_persist io r).1
    and_persist-IsSound io (none, s) c h = persist-IsSound PM PF io s c h
    and_persist-IsSound io (some e, s) c h = h

    cleaning-IsSound :
        (io io' : Io) (now keep_days : ℕ) (s : Store) (r : Result Store)
        → IsClosed PM PF
        → ((m : Memory) → PM m → PM (cleaned now keep_days m))
        → IsSound PM PF s
        → IsSoundResult PM PF r
        → IsSound PM PF (cleaning io io' now keep_days s r).1
    cleaning-IsSound io io' now keep_days s (err e) c keeps h r = h
    cleaning-IsSound io io' now keep_days s (ok s') c keeps h r =
        and_persist-IsSound io' _ c (decisions-IsSound io.write _ (keeps s'.memory r.0, r.1))

    changed-IsSound :
        {A : Type 0} (io : Io) (now : ℕ) (s : Store) (zero : A) (act : Memory → Act A)
        → IsClosed PM PF
        → ((m : Memory) → PM m → PM (after_act (act m)))
        → IsSound PM PF s
        → IsSound PM PF (update io now s zero act).1
    changed-IsSound io now s zero act c keeps h =
        update-IsSound PM PF io now s zero act c (λ m p. Keeps-after (act m) (keeps m p)) h

    pub step-IsSound :
        (io : Io) (now : ℕ) (s : Store) (call : Call)
        → IsClosed PM PF
        → ((m : Memory) → PM m → PM (touched now call m))
        → IsSound PM PF s
        → IsSound PM PF (step to_lower io now s call)
    unfolding step mark_processed set_checkpoint add_decision cleanup native_delivery_mode
        set_native_delivery_mode enqueue_pull_notification pull_notifications_after
        list_notification_subscriptions upsert_notification_subscription
        remove_notification_subscription get_or_create_subscriber_id list_native_devices
        upsert_native_device remove_native_device get_native_device set_native_device_mfa_approver
        set_ai_credits_exhausted clear_ai_credits_exhausted set_ollama_update_notified
        set_desktop_pairing_code validate_desktop_pairing_code consume_desktop_pairing_code
        check_desktop_pairing_rate_limit record_desktop_pairing_attempt
    step-IsSound io now s (validates_code code) c keeps h = (keeps s.memory h.0, h.1)
    step-IsSound io now s (decides d) c keeps h =
        decisions-IsSound io.write _ (keeps s.memory h.0, h.1)
    step-IsSound io now s (cleans io' keep_days) c keeps h =
        cleaning-IsSound io io' now keep_days s _ c keeps h (refresh-IsSound PM PF io now s c h)
    step-IsSound io now s asks_mode c keeps h = peek-IsSound PM PF load_pull io s c.loads_pull h
    step-IsSound io now s (pulls cursor) c keeps h =
        peek-IsSound PM PF load_pull io s c.loads_pull h
    step-IsSound io now s lists_subscriptions c keeps h =
        peek-IsSound PM PF load_notifications io s c.loads_notifications h
    step-IsSound io now s lists_devices c keeps h =
        peek-IsSound PM PF load_native_devices io s c.loads_devices h
    step-IsSound io now s (gets_device id) c keeps h =
        peek-IsSound PM PF load_native_devices io s c.loads_devices h
    step-IsSound io now s call c keeps h = changed-IsSound io now s _ _ c keeps h

  -- A property of the memory and one of the file that every change keeps, but for calls that are ruled
  -- out, are kept through any calls.
  module _ (PM : Memory → Type 0) (PF : StateFile → Type 0) (Allowed : Call → Type 0) where
    pub run-IsSound :
        (s : Store) (calls : List (Io × (ℕ × Call)))
        → IsClosed PM PF
        → ((now : ℕ) (call : Call) (m : Memory) → Allowed call → PM m → PM (touched now call m))
        → All (λ entry. Allowed entry.1.1) calls
        → IsSound PM PF s
        → IsSound PM PF (run to_lower s calls)
    run-IsSound s [] c keeps all h = h
    run-IsSound s ((io, (now, call)) ∷ calls) c keeps all h =
        run-IsSound (step to_lower io now s call) calls c keeps all.1
          (step-IsSound PM PF io now s call c (λ m. keeps now call m all.0) h)
