-- ===== src/Tests/Retry.antt =====
-- The instances of the theorems about the retry loop.
use llama_labels.Common.{ℕ, ◌+◌, ◌*◌, ◌≤◌, ◌≡◌, refl, String, Bool, true, none, arith, ltb}
use llama_labels.Retry.{Try, loop, outcome, loop-calls_le, loop-outcome}

-- Attempts 0 and 1 fail, attempt 2 succeeds. The world counts the calls.
abbrev tries : ℕ → Try String String
tries i = record { result = "done"; error = none; retry = ltb i 2 }

abbrev counting : ℕ → ℕ → Try String String × ℕ
counting i calls = (tries i, calls + 1)

abbrev fires : ℕ → ℕ → Bool × ℕ
fires n calls = (true, calls)

loop-calls_le_example : (loop "" (λ w. "done waiting") (λ i. i * 100) fires counting 5 0).1 ≤ 0 + 5
loop-calls_le_example =
    loop-calls_le "" (λ w. "done waiting") (λ i. i * 100) fires counting (λ w. w) 5 0
      (λ i v. omega arith) (λ n v. omega arith)

loop-outcome_example :
    (loop "" (λ w. "done waiting") (λ i. i * 100) fires counting 5 0).0 ≡ outcome (tries 2)
loop-outcome_example =
    loop-outcome "" (λ w. "done waiting") (λ i. i * 100) fires counting tries 5 2 0 (λ i v. refl)
      (λ n v. refl) (omega arith) (λ j lt. ground (arith, lt)) (λ early. refl)
