-- ===== src/Retry.antt =====
-- backend/internal/retry/retry.go, Loop. `fn`, the timer and the context act on a world `W`: `sleep` waits
-- for a backoff and answers whether the timer fired, rather than the context being done.
use llama_labels.Common.{
  ℕ, zero, suc, ◌+◌, ◌≤◌, ◌<◌, ◌≡◌, Bool, true, false, not, Option, none, some, arith, nat_eq,
  if◌then◌else◌, Bool-cases, inl, inr, ◌∙◌, ap,
}

pub data LoopError (E : Type 0) : Type 0 where
  not_positive : LoopError E
  from_fn : E → LoopError E
  cancelled : E → LoopError E

-- What `fn` returns: a result, an error, and whether to retry.
pub record Try (T E : Type 0) : Type 0 where
  pub result : T
  pub error : Option E
  pub retry : Bool

abbrev pub Outcome : Type 0 → Type 0 → Type 0
Outcome T E = T × Option (LoopError E)

abbrev error_of : {E : Type 0} → Option E → Option (LoopError E)
error_of none = none
error_of (some e) = some (from_fn e)

abbrev pub outcome : {T E : Type 0} → Try T E → Outcome T E
outcome t = (t.result, error_of t.error)

module _ {W T E : Type 0} (zero_value : T) (ctx_err : W → E) (backoff : ℕ → ℕ)
    (sleep : ℕ → W → Bool × W) (fn : ℕ → W → Try T E × W) where
  -- `left` attempts are left after this one.
  unfoldable pub attempt_from : ℕ → ℕ → W → Outcome T E × W
  attempt_from zero attempt w = let (t, w') = fn attempt w in (outcome t, w')
  attempt_from (suc left) attempt w =
      let (t, w') = fn attempt w in
      let (fired, w'') = sleep (backoff attempt) w' in
      let next = attempt_from left (suc attempt) w'' in
      if not t.retry
      then (outcome t, w')
      else if fired
      then next
      else ((zero_value, some (cancelled (ctx_err w''))), w'')

  unfoldable pub loop : ℕ → W → Outcome T E × W
  unfolding attempt_from
  loop zero w = ((zero_value, some not_positive), w)
  loop (suc attempts) w = attempt_from attempts 0 w

  attempt-calls_le :
      (count : W → ℕ) (left attempt : ℕ) (w : W)
      → ((i : ℕ) (v : W) → count (fn i v).1 ≤ count v + 1)
      → ((n : ℕ) (v : W) → count (sleep n v).1 ≤ count v)
      → count (attempt_from left attempt w).1 ≤ count w + 1 + left
  unfolding attempt_from
  attempt-calls_le count zero attempt w calls sleeps = omega (arith, calls attempt w)
  attempt-calls_le count (suc left) attempt w calls sleeps =
      let w' = (fn attempt w).1 in
      let w'' = (sleep (backoff attempt) w').1 in
      ground (
        arith,
        calls attempt w,
        sleeps (backoff attempt) w',
        attempt-calls_le count left (suc attempt) w'' calls sleeps,
      )

  -- Whatever `fn`, the timer and the context do, Loop calls `fn` at most `attempts` times: a count in the
  -- world that a call raises by at most one, and a sleep not at all, is raised by at most `attempts`.
  pub loop-calls_le :
      (count : W → ℕ) (attempts : ℕ) (w : W)
      → ((i : ℕ) (v : W) → count (fn i v).1 ≤ count v + 1)
      → ((n : ℕ) (v : W) → count (sleep n v).1 ≤ count v)
      → count (loop attempts w).1 ≤ count w + attempts
  unfolding loop
  loop-calls_le count zero w calls sleeps = omega arith
  loop-calls_le count (suc attempts) w calls sleeps =
      omega (arith, attempt-calls_le count attempts 0 w calls sleeps)

  attempt-outcome :
      (tries : ℕ → Try T E) (left attempt k : ℕ) (w : W)
      → ((i : ℕ) (v : W) → (fn i v).0 ≡ tries i)
      → ((n : ℕ) (v : W) → (sleep n v).0 ≡ true)
      → ((j : ℕ) → j < k → (tries j).retry ≡ true)
      → attempt ≤ k
      → k ≤ attempt + left
      → (k < attempt + left → (tries k).retry ≡ false)
      → (attempt_from left attempt w).0 ≡ outcome (tries k)
  unfolding attempt_from
  attempt-outcome tries zero attempt k w called fires again lo hi final =
      let last : attempt ≡ k = omega (arith, lo, hi) in
      ap outcome (called attempt w ∙ ap tries last)
  attempt-outcome tries (suc left) attempt k w called fires again lo hi final =
      elim (Bool-cases (nat_eq attempt k)) [
        | inl e ↦
            let here : attempt ≡ k = ground (arith, e) in
            let stop : (fn attempt w).0.retry ≡ false =
              ap (λ t. t.retry) (called attempt w ∙ ap tries here) ∙ final (omega (arith, here)) in
            simp stop (ap outcome (called attempt w ∙ ap tries here))
        | inr e ↦
            let lt : attempt < k = ground (arith, e, lo) in
            let go : (fn attempt w).0.retry ≡ true =
              ap (λ t. t.retry) (called attempt w) ∙ again attempt lt in
            simp (go, fires (backoff attempt) (fn attempt w).1)
              (attempt-outcome tries left (suc attempt) k
                (sleep (backoff attempt) (fn attempt w).1).1 called fires again (omega (arith, lt))
                (omega (arith, hi)) (λ early. final (omega (arith, early))))
      ]

  -- While the context is not done, Loop returns what the attempt `k` returns: the first that is not to be
  -- retried, or the last one.
  pub loop-outcome :
      (tries : ℕ → Try T E) (attempts k : ℕ) (w : W)
      → ((i : ℕ) (v : W) → (fn i v).0 ≡ tries i)
      → ((n : ℕ) (v : W) → (sleep n v).0 ≡ true)
      → k < attempts
      → ((j : ℕ) → j < k → (tries j).retry ≡ true)
      → (k + 1 < attempts → (tries k).retry ≡ false)
      → (loop attempts w).0 ≡ outcome (tries k)
  unfolding loop
  loop-outcome tries zero k w called fires lt again final = absurd (omega (arith, lt))
  loop-outcome tries (suc attempts) k w called fires lt again final =
      attempt-outcome tries attempts 0 k w called fires again (omega arith) (omega (arith, lt))
        (λ early. final (omega (arith, early)))
