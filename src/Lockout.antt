-- ===== src/Lockout.antt =====
-- backend/internal/api/login_lockout.go: the keyed strike counter that guards password login, CardDAV
-- Basic Auth, second factors and device secrets. A `time.Time` is a number of nanoseconds, 0 for the
-- zero time; an operation reads the clock once, as `now`.
pub mod Strikes
pub mod Isolation
pub mod Sweep
use llama_labels.Common.{
  ℕ, ◌+◌, ◌-◌, ◌*◌, String, Bool, true, false, not, ◌&&◌, ◌||◌, Option, none, some, [], ltb, leb,
  nat_eq, if◌then◌else◌, length,
}
use llama_labels.Common.Dict.{Dict, lookup, insert, remove, retain}

abbrev pub minute : ℕ
minute = 60 * 1000000000

abbrev pub login_max_failures : ℕ
login_max_failures = 3

abbrev pub login_lockout_for : ℕ
login_lockout_for = 15 * minute

abbrev pub login_lockout_sweep_threshold : ℕ
login_lockout_sweep_threshold = 10000

pub record Entry : Type 0 where
  pub failures : ℕ
  pub locked_until : ℕ

pub record FailureLockout : Type 0 where
  pub max_failures : ℕ
  pub lockout_for : ℕ
  pub entries : Dict Entry

unfoldable pub new_failure_lockout : ℕ → ℕ → FailureLockout
new_failure_lockout max_failures lockout_for = record {
  max_failures = max_failures;
  lockout_for = lockout_for;
  entries = [];
}

unfoldable pub new_login_lockout : FailureLockout
unfolding new_failure_lockout
new_login_lockout = new_failure_lockout login_max_failures login_lockout_for

-- The answer and how much longer the lockout has to run.
abbrev pub answer : Option Entry → ℕ → Bool × ℕ
answer none now = (true, 0)
answer (some e) now = if ltb now e.locked_until then (false, e.locked_until - now) else (true, 0)

unfoldable pub allowed : FailureLockout → String → ℕ → Bool × ℕ
allowed l username now = answer (lookup username l.entries) now

-- The sweep deletes an entry that was never locked or whose lockout has run out.
abbrev pub survives : ℕ → Entry → Bool
survives now e = not (nat_eq e.locked_until 0 || not (ltb now e.locked_until))

unfoldable pub sweep : Dict Entry → ℕ → Dict Entry
sweep entries now =
    if leb login_lockout_sweep_threshold (length entries)
    then retain (survives now) entries
    else entries

-- The entry that the new failure counts on: a fresh one, or the old one, reset if its lockout is over.
abbrev pub current : Option Entry → ℕ → Entry
current none now = record { failures = 0; locked_until = 0 }
current (some e) now =
    if not (nat_eq e.locked_until 0) && not (ltb now e.locked_until)
    then record { failures = 0; locked_until = 0 }
    else e

abbrev pub strike : FailureLockout → Entry → ℕ → Entry
strike l e now = record {
  failures = e.failures + 1;
  locked_until =
      if leb l.max_failures (e.failures + 1) then now + l.lockout_for else e.locked_until;
}

unfoldable pub record_failure : FailureLockout → String → ℕ → FailureLockout
record_failure l username now =
    let swept = sweep l.entries now in
    record l {
      entries = insert username (strike l (current (lookup username swept) now) now) swept;
    }

unfoldable pub record_success : FailureLockout → String → FailureLockout
record_success l username = record l { entries = remove username l.entries }
