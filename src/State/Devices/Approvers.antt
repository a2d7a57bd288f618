-- ===== src/State/Devices/Approvers.antt =====
-- Whether a device may approve logins is decided by the endpoint for it, and by no other call.
use llama_labels.Common.{
  ℕ, String, ◌≡◌, ◌≢◌, sym, ◌∙◌, refl, Bool, true, Option, none, some, List, [], ◌∷◌, ◌++◌, arith,
  All, eq_iff, inl, inr, Option-cases,
}
use llama_labels.Common.Lists.{find_first, replace_first, drop_first}
use llama_labels.Common.Text.{trim_space}
use llama_labels.State.{Memory, StateFile, Store, NativeDevice}
use llama_labels.State.Persist.{Io, apply_state_file, to_file}
use llama_labels.State.Devices.{
  has_device_id, same_phone, upserted, upserted_by_phone, registered, registering, removing,
  approving, known,
}
use llama_labels.State.Calls.{Call, run, removes_device, registers, sets_approver}
use llama_labels.State.Invariant.{IsClosed, IsSound}
use llama_labels.State.Kept.{touched, after_act, run-IsSound}

-- The flag of the device that a search finds.
abbrev pub HasFlag : Bool → Option NativeDevice → Type 0
HasFlag b none = ⊥
HasFlag b (some d) = d.mfa_approver ≡ b

-- A found device passes the search.
found-passes :
    (p : NativeDevice → Bool) (ds : List NativeDevice) (e : NativeDevice)
    → find_first p ds ≡ some e
    → p e ≡ true
unfolding find_first
found-passes p [] e h = ground arith
found-passes p (d ∷ ds) e h = ground (arith, found-passes p ds e)

known-found :
    (other : String) (ds : List NativeDevice) (d : NativeDevice)
    → known other ds ≡ some d
    → (find_first (has_device_id other) ds ≡ some d) × (d.device_id ≡ other)
known-found other ds d e =
    let found : find_first (has_device_id other) ds ≡ some d = ground arith in
    (found, ground (arith, found-passes (has_device_id other) ds d found, eq_iff d.device_id other))

module _ (id : String) (b : Bool) where
  append-HasFlag :
      (d : NativeDevice) (ds : List NativeDevice)
      → HasFlag b (find_first (has_device_id id) ds)
      → HasFlag b (find_first (has_device_id id) (ds ++ d ∷ []))
  unfolding find_first
  append-HasFlag d [] h = absurd h
  append-HasFlag d (e ∷ ds) h = ground (arith, append-HasFlag d ds)

  -- The first match of a search is replaced by a device with its ID, and with its flag if it is `id`.
  replace_first-HasFlag :
      (p : NativeDevice → Bool) (v e : NativeDevice) (ds : List NativeDevice)
      → find_first p ds ≡ some e
      → v.device_id ≡ e.device_id
      → (e.device_id ≡ id → v.mfa_approver ≡ e.mfa_approver)
      → HasFlag b (find_first (has_device_id id) ds)
      → HasFlag b (find_first (has_device_id id) (replace_first p v ds))
  unfolding find_first replace_first
  replace_first-HasFlag p v e [] found same flag h = absurd h
  replace_first-HasFlag p v e (d ∷ ds) found same flag h = ground (
    arith,
    eq_iff d.device_id id,
    eq_iff v.device_id id,
    eq_iff e.device_id id,
    replace_first-HasFlag p v e ds,
  )

  drop_first-HasFlag :
      (other : String) (ds : List NativeDevice)
      → other ≢ id
      → HasFlag b (find_first (has_device_id id) ds)
      → HasFlag b (find_first (has_device_id id) (drop_first (has_device_id other) ds))
  unfolding find_first drop_first
  drop_first-HasFlag other [] ne h = absurd h
  drop_first-HasFlag other (d ∷ ds) ne h =
      ground (arith, eq_iff d.device_id id, eq_iff d.device_id other, drop_first-HasFlag other ds)

  phone-HasFlag :
      (d : NativeDevice) (ds : List NativeDevice)
      → HasFlag b (find_first (has_device_id id) ds)
      → HasFlag b
          (find_first (has_device_id id) (upserted_by_phone d ds (find_first (same_phone d) ds)))
  phone-HasFlag d ds h = elim (Option-cases (find_first (same_phone d) ds)) [
    | inl e ↦ rw e (append-HasFlag d ds h)
    | inr (x, e) ↦ rw e (replace_first-HasFlag (same_phone d) _ x ds e refl (λ same. refl) h)
  ]

  upserted-HasFlag :
      (d : NativeDevice) (ds : List NativeDevice)
      → HasFlag b (find_first (has_device_id id) ds)
      → HasFlag b (find_first (has_device_id id) (upserted d ds))
  unfolding upserted
  upserted-HasFlag d ds h = elim (Option-cases (find_first (has_device_id d.device_id) ds)) [
    | inl e ↦ rw e (ground (arith, append-HasFlag d ds h, phone-HasFlag d ds h))
    | inr (x, e) ↦ rw e (
        replace_first-HasFlag (has_device_id d.device_id) _ x ds e
          (ground (
            arith,
            found-passes (has_device_id d.device_id) ds x e,
            eq_iff x.device_id d.device_id,
          ))
          (λ same. refl) h)
  ]

  abbrev pub IsFlagged : Memory → Type 0
  IsFlagged m = HasFlag b (find_first (has_device_id id) m.native_devices)

  abbrev pub IsFlaggedOnFile : StateFile → Type 0
  IsFlaggedOnFile sf = HasFlag b (find_first (has_device_id id) sf.native_devices)

  IsFlagged-IsClosed : IsClosed IsFlagged IsFlaggedOnFile
  unfolding apply_state_file to_file
  IsFlagged-IsClosed = record {
    loads = λ now sf m f g. f;
    loads_notifications = λ sf m f g. g;
    loads_devices = λ sf m f g. f;
    loads_pull = λ sf m f g. g;
    saves = λ m g. g;
    cleans = λ m g. g;
  }

  -- The call neither sets the flag of the device nor removes the device.
  abbrev pub LeavesFlag : Call → Type 0
  LeavesFlag (sets_approver other approver) = trim_space other ≢ id
  LeavesFlag (removes_device other) = trim_space other ≢ id
  LeavesFlag call = Unit

  registering-IsFlagged :
      (to_lower : String → String) (now : ℕ) (uuid : Option String) (d : NativeDevice) (m : Memory)
      → IsFlagged m
      → IsFlagged (after_act (registering to_lower now uuid d m))
  registering-IsFlagged to_lower now none d m h = ground (
    arith,
    upserted-HasFlag (registered to_lower now (trim_space d.device_id) d) m.native_devices h,
  )
  registering-IsFlagged to_lower now (some fresh) d m h =
      upserted-HasFlag (registered to_lower now _ d) m.native_devices h

  removing-IsFlagged :
      (other : String) (m : Memory) (o : Option NativeDevice)
      → other ≢ id
      → IsFlagged m
      → IsFlagged (after_act (removing other m o))
  removing-IsFlagged other m none ne h = h
  removing-IsFlagged other m (some d) ne h = drop_first-HasFlag other m.native_devices ne h

  approving-IsFlagged :
      (now : ℕ) (other : String) (approver : Bool) (m : Memory)
      → other ≢ id
      → IsFlagged m
      → IsFlagged (after_act (approving now other approver m (known other m.native_devices)))
  approving-IsFlagged now other approver m ne h =
      elim (Option-cases (known other m.native_devices)) [
        | inl e ↦ rw e h
        | inr (d, e) ↦
            let (found, same) = known-found other m.native_devices d e in
            rw e (
              replace_first-HasFlag (has_device_id other) _ d m.native_devices found refl
                (λ q. absurd (ne (sym same ∙ q))) h)
      ]

  touched-IsFlagged :
      (to_lower : String → String) (now : ℕ) (call : Call) (m : Memory)
      → LeavesFlag call
      → IsFlagged m
      → IsFlagged (touched to_lower now call m)
  touched-IsFlagged to_lower now (sets_approver other approver) m ne h =
      approving-IsFlagged now (trim_space other) approver m ne h
  touched-IsFlagged to_lower now (removes_device other) m ne h =
      removing-IsFlagged (trim_space other) m _ ne h
  touched-IsFlagged to_lower now (registers uuid d) m ne h =
      registering-IsFlagged to_lower now uuid d m h
  touched-IsFlagged to_lower now call m ne h = ground arith

-- A device keeps its right to approve logins, or the lack of it, through any calls that neither remove
-- it nor set the flag for its ID: no registration, of whatever device and token, changes it. The flag
-- is the one in memory, and in state.json where that holds a state.
pub approver-kept :
    (to_lower : String → String) (id : String) (b : Bool) (s : Store)
    (calls : List (Io × (ℕ × Call)))
    → IsSound (IsFlagged id b) (IsFlaggedOnFile id b) s
    → All (λ entry. LeavesFlag id b entry.1.1) calls
    → IsSound (IsFlagged id b) (IsFlaggedOnFile id b) (run to_lower s calls)
approver-kept to_lower id b s calls h left =
    run-IsSound to_lower (IsFlagged id b) (IsFlaggedOnFile id b) (LeavesFlag id b) s calls
      (IsFlagged-IsClosed id b) (touched-IsFlagged id b to_lower) left h
