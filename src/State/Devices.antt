-- ===== src/State/Devices.antt =====
-- state/store.go: the paired native apps. `to_lower` is strings.ToLower.
pub mod Approvers
use llama_labels.Common.{
  ℕ, String, Bool, true, false, ◌&&◌, Option, none, some, List, [], ◌∷◌, ◌++◌, if◌then◌else◌, ◌==◌,
  find_first, replace_first, drop_first,
}
use llama_labels.Common.Text.{trim_space}
use llama_labels.State.{stamp, is_blank, is_empty, NativeDevice, Memory, Store, Error, no_entropy}
use llama_labels.State.Persist.{Io, Act, leave, save, update, load_native_devices, peek}

abbrev pub has_device_id : String → NativeDevice → Bool
has_device_id id d = d.device_id == id

abbrev pub same_phone : NativeDevice → NativeDevice → Bool
same_phone device existing =
    existing.push_token == device.push_token && existing.platform == device.platform

unfoldable pub list_native_devices : Io → Store → List NativeDevice × Store
list_native_devices io s = let s' = peek load_native_devices io s in (s'.memory.native_devices, s')

-- A device that is known by its push token and platform, or a new one.
abbrev pub upserted_by_phone :
    NativeDevice → List NativeDevice → Option NativeDevice → List NativeDevice
upserted_by_phone device devices none = devices ++ device ∷ []
upserted_by_phone device devices (some existing) =
    replace_first (same_phone device)
      (record device {
        device_id = existing.device_id;
        registered_at = existing.registered_at;
        mfa_approver = existing.mfa_approver;
      })
      devices

abbrev pub upserted_by_id :
    NativeDevice → List NativeDevice → Option NativeDevice → List NativeDevice
upserted_by_id device devices (some existing) =
    replace_first (has_device_id device.device_id)
      (record device {
        registered_at =
            if is_empty device.registered_at then existing.registered_at else device.registered_at;
        mfa_approver = existing.mfa_approver;
      })
      devices
upserted_by_id device devices none =
    if device.push_token == ""
    then devices ++ device ∷ []
    else upserted_by_phone device devices (find_first (same_phone device) devices)

unfoldable pub upserted : NativeDevice → List NativeDevice → List NativeDevice
upserted device devices =
    upserted_by_id device devices (find_first (has_device_id device.device_id) devices)

module _ (to_lower : String → String) where
  -- The device as it is stored, under the given ID.
  abbrev pub registered : ℕ → String → NativeDevice → NativeDevice
  registered now id device = record device {
    device_id = id;
    platform = to_lower (trim_space device.platform);
    push_token = trim_space device.push_token;
    registered_at = if is_blank device.registered_at then stamp now else device.registered_at;
    updated_at = stamp now;
  }

  abbrev pub with_devices : Memory → List NativeDevice → Memory
  with_devices m devices = record m { native_devices = devices; native_devices_dirty = true }

  abbrev pub registering : ℕ → Option String → NativeDevice → Memory → Act (Unit {0})
  registering now none device m =
      if trim_space device.device_id == ""
      then leave tt (some no_entropy) m
      else save tt tt (
          with_devices m
            (upserted (registered now (trim_space device.device_id) device) m.native_devices))
  registering now (some uuid) device m =
      let id = if trim_space device.device_id == "" then uuid else trim_space device.device_id in
      save tt tt (with_devices m (upserted (registered now id device) m.native_devices))

  unfoldable pub upsert_native_device :
      Io → ℕ → Store → Option String → NativeDevice → (Unit {0} × Option Error) × Store
  unfolding upserted
  upsert_native_device io now s uuid device = update io now s tt (registering now uuid device)

abbrev pub removing : String → Memory → Option NativeDevice → Act Bool
removing id m none = leave false none m
removing id m (some device) = save true false (record m {
  native_devices = drop_first (has_device_id id) m.native_devices;
  native_devices_dirty = true;
})

-- The stored device with the ID, where the ID is not empty.
abbrev pub known : String → List NativeDevice → Option NativeDevice
known id devices = if id == "" then none else find_first (has_device_id id) devices

unfoldable pub remove_native_device : Io → ℕ → Store → String → (Bool × Option Error) × Store
remove_native_device io now s device_id =
    update io now s false
      (λ m. removing (trim_space device_id) m (known (trim_space device_id) m.native_devices))

unfoldable pub get_native_device : Io → Store → String → Option NativeDevice × Store
get_native_device io s device_id =
    let s' = peek load_native_devices io s in
    (known (trim_space device_id) s'.memory.native_devices, s')

abbrev pub approving : ℕ → String → Bool → Memory → Option NativeDevice → Act Bool
approving now id approver m none = leave false none m
approving now id approver m (some device) = save true true (record m {
  native_devices =
      replace_first (has_device_id id)
        (record device { mfa_approver = approver; updated_at = stamp now }) m.native_devices;
  native_devices_dirty = true;
})

unfoldable pub set_native_device_mfa_approver :
    Io → ℕ → Store → String → Bool → (Bool × Option Error) × Store
set_native_device_mfa_approver io now s device_id approver = update io now s false (λ m.
    approving now (trim_space device_id) approver m (known (trim_space device_id) m.native_devices))
