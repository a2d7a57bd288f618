-- ===== src/State/Torn.antt =====
-- What a state.json that was torn by a failed os.WriteFile means for the store.
use llama_labels.Common.{
  ℕ, String, ◌≡◌, ◌≢◌, refl, none, some, List, [], ◌∷◌, arith, inl, inr, Bool-cases,
}
use llama_labels.Disk.{File, corrupt, read_failed, bad_json}
use llama_labels.State.{Decision, StateFile, Memory, Store, Error, disk, err}
use llama_labels.State.Persist.{
  apply_state_file, load_pull, load_notifications, load_native_devices, Io, Write, done, refused,
  torn, Act, update, refresh_state, peek, read_state, refreshed,
}
use llama_labels.State.Processed.{
  mark_processed, set_checkpoint, add_decision, cleanup, put_decisions,
}
use llama_labels.State.Open.{new, load}
use llama_labels.State.Queue.{
  native_delivery_mode, set_native_delivery_mode, enqueue_pull_notification,
  pull_notifications_after,
}
use llama_labels.State.Subscriptions.{
  list_notification_subscriptions, upsert_notification_subscription,
  remove_notification_subscription, get_or_create_subscriber_id,
}
use llama_labels.State.Devices.{
  list_native_devices, upsert_native_device, remove_native_device, get_native_device,
  set_native_device_mfa_approver,
}
use llama_labels.State.Notices.{
  set_ai_credits_exhausted, clear_ai_credits_exhausted, set_ollama_update_notified,
}
use llama_labels.State.Pairing.{
  set_desktop_pairing_code, validate_desktop_pairing_code, consume_desktop_pairing_code,
  check_desktop_pairing_rate_limit, record_desktop_pairing_attempt,
}
use llama_labels.State.Calls.{
  Call, validates_code, decides, cleans, asks_mode, pulls, lists_subscriptions, lists_devices,
  gets_device, step, run,
}

-- A load of a file that is not JSON is an error.
corrupt-refused :
    (io : Io) (apply : StateFile → Memory → Memory) (s : Store)
    → s.file ≡ corrupt
    → (e : Error) × (refreshed apply s (read_state io s.file) ≡ err e)
corrupt-refused io apply s h = elim (Bool-cases io.can_read) [
  | inl r ↦ (disk bad_json, rw (h, r) refl)
  | inr r ↦ (disk read_failed, rw (h, r) refl)
]

update-corrupt :
    {A : Type 0} (io : Io) (now : ℕ) (s : Store) (zero : A) (act : Memory → Act A)
    → s.file ≡ corrupt
    → (e : Error) × (update io now s zero act ≡ ((zero, some e), s))
unfolding update refresh_state
update-corrupt io now s zero act h =
    let (e, q) = corrupt-refused io (apply_state_file now) s h in (e, rw q refl)

update-fails :
    {A : Type 0} (io : Io) (now : ℕ) (s : Store) (zero : A) (act : Memory → Act A)
    → s.file ≡ corrupt
    → (update io now s zero act).0.1 ≢ none
update-fails io now s zero act h q =
    let (e, p) = update-corrupt io now s zero act h in
    let fails : some e ≡ none = rw p at q in ground (arith, fails)

peek-corrupt :
    (apply : StateFile → Memory → Memory) (io : Io) (s : Store)
    → s.file ≡ corrupt
    → peek apply io s ≡ s
peek-corrupt apply io s h = let (e, q) = corrupt-refused io apply s h in rw q refl

cleanup-corrupt :
    (io io' : Io) (now : ℕ) (s : Store) (keep_days : ℕ)
    → s.file ≡ corrupt
    → (cleanup io io' now s keep_days).1.file ≡ corrupt
unfolding cleanup refresh_state
cleanup-corrupt io io' now s keep_days h =
    let (e, q) = corrupt-refused io (apply_state_file now) s h in rw q h

decisions-file : (w : Write) (s : Store) → (put_decisions w s).1.file ≡ s.file
decisions-file done s = refl
decisions-file refused s = refl
decisions-file torn s = refl

module _ (to_lower : String → String) where
  update-file :
      {A : Type 0} (io : Io) (now : ℕ) (s : Store) (zero : A) (act : Memory → Act A)
      → s.file ≡ corrupt
      → (update io now s zero act).1.file ≡ corrupt
  update-file io now s zero act h = let (e, q) = update-corrupt io now s zero act h in rw q h

  step-corrupt :
      (io : Io) (now : ℕ) (s : Store) (call : Call)
      → s.file ≡ corrupt
      → (step to_lower io now s call).file ≡ corrupt
  unfolding step mark_processed set_checkpoint add_decision cleanup native_delivery_mode
      set_native_delivery_mode enqueue_pull_notification pull_notifications_after
      list_notification_subscriptions upsert_notification_subscription
      remove_notification_subscription get_or_create_subscriber_id list_native_devices
      upsert_native_device remove_native_device get_native_device set_native_device_mfa_approver
      set_ai_credits_exhausted clear_ai_credits_exhausted set_ollama_update_notified
      set_desktop_pairing_code validate_desktop_pairing_code consume_desktop_pairing_code
      check_desktop_pairing_rate_limit record_desktop_pairing_attempt
  step-corrupt io now s (validates_code code) h = h
  step-corrupt io now s (decides d) h = rw (decisions-file io.write) h
  step-corrupt io now s (cleans io' keep_days) h = cleanup-corrupt io io' now s keep_days h
  step-corrupt io now s asks_mode h = rw (peek-corrupt load_pull io s h) h
  step-corrupt io now s (pulls cursor) h = rw (peek-corrupt load_pull io s h) h
  step-corrupt io now s lists_subscriptions h = rw (peek-corrupt load_notifications io s h) h
  step-corrupt io now s lists_devices h = rw (peek-corrupt load_native_devices io s h) h
  step-corrupt io now s (gets_device id) h = rw (peek-corrupt load_native_devices io s h) h
  step-corrupt io now s call h = update-file io now s _ _ h

  run-corrupt :
      (s : Store) (calls : List (Io × (ℕ × Call)))
      → s.file ≡ corrupt
      → (run to_lower s calls).file ≡ corrupt
  run-corrupt s [] h = h
  run-corrupt s ((io, (now, call)) ∷ calls) h =
      run-corrupt (step to_lower io now s call) calls (step-corrupt io now s call h)

  mark-corrupt :
      (io : Io) (now : ℕ) (s : Store) (id : String)
      → s.file ≡ corrupt
      → (mark_processed io now s id).0.1 ≢ none
  unfolding mark_processed
  mark-corrupt io now s id h q = update-fails io now s _ _ h q

  new-corrupt :
      (io io' : Io) (now : ℕ) (decisions : File (List Decision))
      → (new io io' now corrupt decisions).0 ≢ none
  unfolding new load
  new-corrupt io io' now decisions q = elim (Bool-cases io.can_read) [
    | inl r ↦ ground (arith, r)
    | inr r ↦ ground (arith, r)
  ]

  -- A failed write that leaves a part of the text is final: from then on, through any calls and whatever
  -- the disk does, state.json stays unreadable, no message can be marked as processed, and the store
  -- cannot be opened again.
  pub torn-final :
      (s : Store) (calls : List (Io × (ℕ × Call))) (io io' : Io) (now : ℕ) (id : String)
      → s.file ≡ corrupt
      → ((run to_lower s calls).file ≡ corrupt)
        × (((mark_processed io now (run to_lower s calls) id).0.1 ≢ none)
            × ((new io io' now (run to_lower s calls).file s.decisions_file).0 ≢ none))
  torn-final s calls io io' now id h =
      let stays = run-corrupt s calls h in
      (
        stays,
        (
          mark-corrupt io now (run to_lower s calls) id stays,
          rw stays (new-corrupt io io' now s.decisions_file),
        ),
      )
