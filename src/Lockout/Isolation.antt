-- ===== src/Lockout/Isolation.antt =====
-- One key's failures and successes do not touch another key's lockout.
use llama_labels.Common.{
  ℕ, ◌≤◌, String, ◌≡◌, ◌≢◌, refl, true, Option, none, some, arith, if◌then◌else◌, ◌==◌, eq_iff,
}
use llama_labels.Common.Dict.{
  Dict, IsMap, lookup, lookup-insert, lookup-remove, lookup-retain, passing, insert-IsMap,
  retain-IsMap,
}
use llama_labels.Lockout.{
  Entry, FailureLockout, answer, allowed, survives, sweep, record_failure, record_success,
}

-- What a sweep deletes answers like a missing entry from the time of the sweep on.
answer-passing :
    (o : Option Entry) (now t : ℕ) → now ≤ t → answer (passing (survives now) o) t ≡ answer o t
answer-passing none now t h = refl
answer-passing (some e) now t h = ground arith

answer-sweep :
    (m : Dict Entry) (v : String) (now t : ℕ)
    → IsMap m
    → now ≤ t
    → answer (lookup v (sweep m now)) t ≡ answer (lookup v m) t
unfolding sweep
answer-sweep m v now t w h =
    ground (arith, lookup-retain (survives now) v m, answer-passing (lookup v m) now t)

pub sweep-IsMap : (m : Dict Entry) (now : ℕ) → IsMap m → IsMap (sweep m now)
unfolding sweep
sweep-IsMap m now w = ground (arith, retain-IsMap (survives now) m)

pub record_failure-IsMap :
    (l : FailureLockout) (u : String) (now : ℕ)
    → IsMap l.entries
    → IsMap (record_failure l u now).entries
unfolding record_failure
record_failure-IsMap l u now w =
    insert-IsMap u _ (sweep l.entries now) (sweep-IsMap l.entries now w)

-- A failure of `u` at time `now`, with the sweep that it may start, changes no answer about another
-- key at `now` or later.
pub allowed-record_failure_ne :
    (l : FailureLockout) (u v : String) (now t : ℕ)
    → IsMap l.entries
    → u ≢ v
    → now ≤ t
    → allowed (record_failure l u now) v t ≡ allowed l v t
unfolding allowed record_failure
allowed-record_failure_ne l u v now t w ne h =
    rw lookup-insert (ground (arith, eq_iff u v, answer-sweep l.entries v now t))

-- A success clears its own key and changes no answer about another.
pub allowed-record_success :
    (l : FailureLockout) (u v : String) (t : ℕ)
    → allowed (record_success l u) v t ≡ (if u == v then (true, 0) else allowed l v t)
unfolding allowed record_success
allowed-record_success l u v t = rw lookup-remove (ground arith)
