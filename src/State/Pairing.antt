-- ===== src/State/Pairing.antt =====
-- state/store.go: the codes and the attempts of desktop pairing.
pub mod Once
use llama_labels.Common.{
  ℕ, ◌+◌, ◌*◌, ◌-◌, String, Bool, true, false, not, ◌&&◌, Option, none, some, List, [], ◌∷◌, ◌++◌,
  ltb, leb, if◌then◌else◌, keep, length, drop,
}
use llama_labels.Common.Text.{trim_space}
use llama_labels.Common.Dict.{lookup, insert, remove}
use llama_labels.Lockout.{minute}
use llama_labels.State.{Stamp, at, text, second, stamp, PairingAttempt, Memory, Store, Error}
use llama_labels.State.Persist.{Io, Act, leave, save, update, is_within}

abbrev pub hour : ℕ
hour = 60 * minute

abbrev pub max_failed_attempts : ℕ
max_failed_attempts = 5

-- A `ttl` of 0 stands for any that is not positive.
unfoldable pub set_desktop_pairing_code :
    Io → ℕ → Store → String → ℕ → (Unit {0} × Option Error) × Store
set_desktop_pairing_code io now s code ttl = update io now s tt (λ m. save tt tt (record m {
  desktop_pairing_codes =
      insert (trim_space code) (stamp (now + (if leb ttl 0 then 5 * minute else ttl)))
        m.desktop_pairing_codes;
  pairing_codes_dirty = true;
}))

abbrev pub without_code : String → Memory → Memory
without_code code m = record m { desktop_pairing_codes = remove code m.desktop_pairing_codes }

-- The code is checked in memory alone; only an expired one is deleted.
abbrev pub validated : ℕ → String → Memory → Option Stamp → Bool × Memory
validated now code m none = (false, m)
validated now code m (some (text s)) = (false, m)
validated now code m (some (at t)) =
    if ltb (t * second) now then (false, without_code code m) else (true, m)

unfoldable pub validate_desktop_pairing_code : ℕ → Store → String → Bool × Store
validate_desktop_pairing_code now s code =
    let (valid, m) =
      validated now (trim_space code) s.memory
        (lookup (trim_space code) s.memory.desktop_pairing_codes) in
    (valid, record s { memory = m })

abbrev pub consuming : ℕ → String → Memory → Option Stamp → Act Bool
consuming now code m none = leave false none m
consuming now code m (some (text s)) = leave false none (without_code code m)
consuming now code m (some (at t)) =
    if ltb (t * second) now
    then leave false none (without_code code m)
    else save true true (record (without_code code m) { pairing_codes_dirty = true })

unfoldable pub consume_desktop_pairing_code :
    Io → ℕ → Store → String → (Bool × Option Error) × Store
consume_desktop_pairing_code io now s code =
    update io now s false
      (λ m. consuming now (trim_space code) m (lookup (trim_space code) m.desktop_pairing_codes))

abbrev pub failed_count : ℕ → List PairingAttempt → ℕ
failed_count now attempts =
    length (keep (λ a. not a.success && is_within hour now a.attempt_at) attempts)

-- Whether an attempt is allowed, and how many failures are left.
unfoldable pub check_desktop_pairing_rate_limit :
    Io → ℕ → Store → ((Bool × ℕ) × Option Error) × Store
check_desktop_pairing_rate_limit io now s =
    update io now s (false, 0)
      (λ m.
        let failures = failed_count now m.desktop_pairing_attempts in
        leave (ltb failures max_failed_attempts, max_failed_attempts - failures) none m)

abbrev pub last_hundred : List PairingAttempt → List PairingAttempt
last_hundred attempts =
    if ltb 100 (length attempts) then drop (length attempts - 100) attempts else attempts

unfoldable pub record_desktop_pairing_attempt :
    Io → ℕ → Store → String → Bool → (Unit {0} × Option Error) × Store
record_desktop_pairing_attempt io now s code success = update io now s tt (λ m.
    save tt tt (record m {
      desktop_pairing_attempts = last_hundred (
          m.desktop_pairing_attempts
          ++ (record { code = trim_space code; attempt_at = stamp now; success = success }) ∷ []);
      pairing_attempts_dirty = true;
    }))
