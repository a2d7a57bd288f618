-- ===== src/Lockout/Strikes.antt =====
-- Strikes of one key accumulate to a lockout of the stated length.
use llama_labels.Common.{
  ℕ, suc, ◌+◌, ◌-◌, ◌<◌, String, ◌≡◌, refl, true, false, none, some, List, [], ◌∷◌, arith, ltb,
  nat_eq, ◌&&◌, if◌then◌else◌, length, eq_refl,
}
use llama_labels.Common.Dict.{
  Dict, lookup, insert, lookup-insert, length-insert-le, length-insert_present,
}
use llama_labels.Lockout.{
  Entry, FailureLockout, login_lockout_sweep_threshold, allowed, sweep, current, strike,
  record_failure,
}

-- One failure at each of the given times.
abbrev pub record_failures : FailureLockout → String → List ℕ → FailureLockout
record_failures l u [] = l
record_failures l u (t ∷ ts) = record_failures (record_failure l u t) u ts

sweep_below :
    (m : Dict Entry) (now : ℕ) → length m < login_lockout_sweep_threshold → sweep m now ≡ m
unfolding sweep
sweep_below m now h = ground arith

-- `l'` is `l` but for entries; `u` has `n` strikes and no lockout, and no sweep is near.
pub record Counting (l l' : FailureLockout) (u : String) (n : ℕ) : Type 0 where
  pub max_same : l'.max_failures ≡ l.max_failures
  pub for_same : l'.lockout_for ≡ l.lockout_for
  pub counted : lookup u l'.entries ≡ some (record { failures = n; locked_until = 0 })
  pub small : length l'.entries < login_lockout_sweep_threshold

lookup-insert_self : (u : String) (e : Entry) (m : Dict Entry) → lookup u (insert u e m) ≡ some e
lookup-insert_self u e m = simp (lookup-insert, eq_refl)

-- Away from the sweep, a failure replaces the entry of its own key.
record_failure_small :
    (l : FailureLockout) (u : String) (t : ℕ)
    → length l.entries < login_lockout_sweep_threshold
    → record_failure l u t
      ≡ record l { entries = insert u (strike l (current (lookup u l.entries) t) t) l.entries }
unfolding record_failure
record_failure_small l u t h = rw (sweep_below l.entries t h)

module _ (l : FailureLockout) (u : String) where
  first_strike :
      (t : ℕ)
      → lookup u l.entries ≡ none
      → length l.entries + 1 < login_lockout_sweep_threshold
      → 1 < l.max_failures
      → Counting l (record_failure l u t) u 1
  first_strike t absent small many = rw (record_failure_small l u t (omega arith)) (record {
    max_same = refl;
    for_same = refl;
    counted = rw (lookup-insert_self, absent) (ground arith);
    small =
        omega (arith, length-insert-le u (strike l (current (lookup u l.entries) t) t) l.entries);
  })

  next_strike :
      (l' : FailureLockout) (n t : ℕ)
      → Counting l l' u n
      → n + 1 < l.max_failures
      → Counting l (record_failure l' u t) u (n + 1)
  next_strike l' n t c h = rw (record_failure_small l' u t c.small) (record {
    max_same = c.max_same;
    for_same = c.for_same;
    counted = rw (lookup-insert_self, c.counted) (ground arith);
    small = omega (
      arith,
      length-insert_present u (strike l' (current (lookup u l'.entries) t) t) _ l'.entries
          c.counted,
    );
  })

  more_strikes :
      (l' : FailureLockout) (n : ℕ) (ts : List ℕ)
      → Counting l l' u n
      → n + length ts < l.max_failures
      → Counting l (record_failures l' u ts) u (n + length ts)
  more_strikes l' n [] c h = let e : n ≡ n + 0 = omega arith in rw (← e) c
  more_strikes l' n (t ∷ ts) c h =
      let e : n + 1 + length ts ≡ n + suc (length ts) = omega arith in
      rw e at (
        more_strikes (record_failure l' u t) (n + 1) ts (next_strike l' n t c (omega arith))
          (omega arith))

  -- From a key without an entry, in a map that no sweep is due for: after `length ts + 1` failures,
  -- at most the limit, every attempt is allowed while the limit is not reached; when it is, by the
  -- failure at time `last`, every attempt before `last + lockout_for` is refused with the time that
  -- is left, and none from then on.
  pub strikes-allowed :
      (ts : List ℕ) (last t : ℕ)
      → lookup u l.entries ≡ none
      → length l.entries + 1 < login_lockout_sweep_threshold
      → length ts < l.max_failures
      → allowed (record_failure (record_failures l u ts) u last) u t ≡ (
          if nat_eq (length ts + 1) l.max_failures && ltb t (last + l.lockout_for)
          then (false, last + l.lockout_for - t)
          else (true, 0))
  unfolding allowed
  strikes-allowed [] last t absent small h =
      rw (record_failure_small l u last (omega arith), lookup-insert_self, absent) (ground arith)
  strikes-allowed (s ∷ ts) last t absent small h =
      let e : 1 + length ts ≡ suc (length ts) = omega arith in
      let c : Counting l (record_failures l u (s ∷ ts)) u (suc (length ts)) = rw e at (
        more_strikes (record_failure l u s) 1 ts (first_strike s absent small (omega arith))
          (omega arith)) in
      rw
        (
          record_failure_small (record_failures l u (s ∷ ts)) u last c.small,
          lookup-insert_self,
          c.counted,
        )
        (ground (arith, c.max_same, c.for_same))
