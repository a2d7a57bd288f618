-- ===== src/Lockout/Sweep.antt =====
-- What the sweep does to strikes while many keys are locked out.
use llama_labels.Common.{
  ℕ, ◌<◌, ◌≤◌, String, ◌≡◌, refl, ap, Bool, true, Option, none, some, List, [], ◌∷◌, arith, ltb,
  length, All, eq_refl,
}
use llama_labels.Common.Dict.{
  Dict, IsMap, lookup, insert, retain, lookup-insert, lookup-retain, passing, length-retain-le,
}
use llama_labels.Lockout.{
  Entry, FailureLockout, login_lockout_sweep_threshold, answer, allowed, survives, sweep,
  record_failure,
}
use llama_labels.Lockout.Strikes.{record_failures}
use llama_labels.Lockout.Isolation.{record_failure-IsMap}

abbrev pub beyond : ℕ → Entry → Bool
beyond horizon e = ltb horizon e.locked_until

abbrev pub IsUnlocked : Option Entry → Type 0
IsUnlocked none = Unit
IsUnlocked (some e) = e.locked_until ≡ 0

retain-survives :
    (now horizon : ℕ) (m : Dict Entry)
    → now ≤ horizon
    → retain (beyond horizon) (retain (survives now) m) ≡ retain (beyond horizon) m
unfolding retain
retain-survives now horizon [] h = refl
retain-survives now horizon ((k, e) ∷ m) h = ground (arith, retain-survives now horizon m h)

length-retain-insert :
    (p : Entry → Bool) (u : String) (e : Entry) (m : Dict Entry)
    → lookup u m ≡ none
    → length (retain p m) ≤ length (retain p (insert u e m))
unfolding retain insert lookup
length-retain-insert p u e [] h = ground arith
length-retain-insert p u e ((k, f) ∷ m) h = ground (arith, length-retain-insert p u e m)

passing-survives : (now : ℕ) (o : Option Entry) → IsUnlocked o → passing (survives now) o ≡ none
passing-survives now none h = refl
passing-survives now (some e) h = ground arith

answer-unlocked : (o : Option Entry) (t : ℕ) → IsUnlocked o → answer o t ≡ (true, 0)
answer-unlocked none t h = refl
answer-unlocked (some e) t h = ground arith

-- The map holds so many locked entries that every failure sweeps.
pub record Flooded (l : FailureLockout) (u : String) (horizon : ℕ) : Type 0 where
  pub is_map : IsMap l.entries
  pub unlocked : IsUnlocked (lookup u l.entries)
  pub many : 1 < l.max_failures
  pub flood : login_lockout_sweep_threshold ≤ length (retain (beyond horizon) l.entries)

module _ (l : FailureLockout) (u : String) (horizon : ℕ) (f : Flooded l u horizon) where
  sweep_flooded : (now : ℕ) → sweep l.entries now ≡ retain (survives now) l.entries
  unfolding sweep
  sweep_flooded now = ground (arith, length-retain-le (beyond horizon) l.entries)

  lookup-sweep : (now : ℕ) → lookup u (retain (survives now) l.entries) ≡ none
  lookup-sweep now =
      rw (lookup-retain (survives now) u l.entries f.is_map) (passing-survives now _ f.unlocked)

  flooded_strike :
      (now : ℕ)
      → lookup u (record_failure l u now).entries ≡ some (record { failures = 1; locked_until = 0 })
  unfolding record_failure
  flooded_strike now =
      rw (sweep_flooded now, lookup-sweep now, lookup-insert, eq_refl) (ground arith)

  Flooded-record_failure : (now : ℕ) → now ≤ horizon → Flooded (record_failure l u now) u horizon
  Flooded-record_failure now h = record {
    is_map = record_failure-IsMap l u now f.is_map;
    unlocked = rw (flooded_strike now) refl;
    many = unfold record_failure in f.many;
    flood =
        unfold record_failure in
        rw (sweep_flooded now) (
          omega (
            arith,
            f.flood,
            length-retain-insert (beyond horizon) u _ _ (lookup-sweep now),
            ap length (retain-survives now horizon l.entries h),
          ));
  }

-- While at least as many entries as the sweep's threshold stay locked out beyond `horizon`, a key that
-- is not locked out is never locked out, however often it fails up to then: each failure sweeps away
-- the strikes before it.
pub flood-disables-lockout :
    (l : FailureLockout) (u : String) (horizon : ℕ) (ts : List ℕ) (t : ℕ)
    → Flooded l u horizon
    → All (λ s. s ≤ horizon) ts
    → allowed (record_failures l u ts) u t ≡ (true, 0)
unfolding allowed
flood-disables-lockout l u horizon [] t f h = answer-unlocked (lookup u l.entries) t f.unlocked
flood-disables-lockout l u horizon (s ∷ ts) t f h =
    flood-disables-lockout (record_failure l u s) u horizon ts t
      (Flooded-record_failure l u horizon f s h.0) h.1
