-- ===== src/Tests/Lockout.antt =====
-- Runs of login_lockout.go's model.
use Prim.Native.String as Str
use llama_labels.Common.{
  ℕ, zero, suc, ◌*◌, ◌-◌, ◌<◌, ◌≤◌, String, ◌≡◌, ◌≢◌, refl, ap, true, false, none, [], ◌∷◌, arith,
  length, eq_iff,
}
use llama_labels.Common.Dict.{Dict, IsMap, lookup, insert, retain}
use llama_labels.Lockout.{
  Entry, FailureLockout, login_lockout_sweep_threshold, new_login_lockout, allowed, sweep,
  record_failure, minute,
}
use llama_labels.Lockout.Strikes.{record_failures, strikes-allowed}
use llama_labels.Lockout.Sweep.{Flooded, beyond, flood-disables-lockout}

two_strikes :
    allowed (record_failures new_login_lockout "bob|1.2.3.4" (1 ∷ 2 ∷ [])) "bob|1.2.3.4" 3
    ≡ (true, 0)
unfolding new_login_lockout allowed record_failure sweep lookup insert
two_strikes = refl

strikes-allowed_example :
    allowed (record_failure (record_failures new_login_lockout "bob" (1 ∷ 2 ∷ [])) "bob" 3) "bob" 4
    ≡ (false, 15 * minute - 1)
unfolding new_login_lockout lookup
strikes-allowed_example =
    strikes-allowed new_login_lockout "bob" (1 ∷ 2 ∷ []) 3 4 refl (omega arith) (omega arith)

-- Distinct keys: `n + 1` times the same letter.
name : ℕ → String
name zero = "x"
name (suc n) = Str.◌∷◌ "x" (name n)

size : String → ℕ
size Str.[] = 0
size (Str.◌∷◌ c s) = suc (size s)

size-name : (n : ℕ) → size (name n) ≡ suc n
unfolding name size
size-name zero = refl
size-name (suc n) = ap suc (size-name n)

crowd : ℕ → Dict Entry
crowd zero = []
crowd (suc n) = (name n, record { failures = 3; locked_until = 1000 }) ∷ crowd n

lookup-crowd : (k : String) (n : ℕ) → n < size k → lookup k (crowd n) ≡ none
unfolding lookup crowd
lookup-crowd k zero h = refl
lookup-crowd k (suc n) h = ground (arith, lookup-crowd k n, eq_iff (name n) k, size-name n, ap size)

crowd-IsMap : (n : ℕ) → IsMap (crowd n)
unfolding crowd
crowd-IsMap zero = tt
crowd-IsMap (suc n) = (lookup-crowd (name n) n (omega (arith, size-name n)), crowd-IsMap n)

retain-crowd : (n : ℕ) → length (retain (beyond 500) (crowd n)) ≡ n
unfolding crowd retain
retain-crowd zero = refl
retain-crowd (suc n) = ap suc (retain-crowd n)

name-ne-empty : (n : ℕ) → name n ≢ ""
unfolding size
name-ne-empty n e = omega (arith, ap size e, size-name n)

lookup-crowd_nobody : (n : ℕ) → lookup "" (crowd n) ≡ none
unfolding lookup crowd size
lookup-crowd_nobody zero = refl
lookup-crowd_nobody (suc n) =
    ground (arith, lookup-crowd_nobody n, eq_iff (name n) "", name-ne-empty n)

crowded : ℕ → FailureLockout
crowded n = record { max_failures = 3; lockout_for = 40; entries = crowd n }

crowded-Flooded : (n : ℕ) → login_lockout_sweep_threshold ≤ n → Flooded (crowded n) "" 500
unfolding crowded
crowded-Flooded n h = record {
  is_map = crowd-IsMap n;
  unlocked = rw (lookup-crowd_nobody n) tt;
  many = omega arith;
  flood = omega (arith, retain-crowd n);
}

flood-disables-lockout_example :
    allowed (record_failures (crowded 10000) "" (1 ∷ 2 ∷ 3 ∷ 4 ∷ [])) "" 5 ≡ (true, 0)
flood-disables-lockout_example =
    flood-disables-lockout (crowded 10000) "" 500 (1 ∷ 2 ∷ 3 ∷ 4 ∷ []) 5
      (crowded-Flooded 10000 (omega arith)) (omega arith)
