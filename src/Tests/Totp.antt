-- ===== src/Tests/Totp.antt =====
-- The instances of the theorems about TOTP codes.
use llama_labels.Common.{ℕ, ◌≢◌, refl, String, Option, none, some, arith}
use llama_labels.Common.Text.{trim_space}
use llama_labels.Totp.{validate, validate_complete}

-- Every step has the same code.
abbrev constant_code : String → ℕ → Option String
constant_code secret counter = some "123456"

validate_complete_example : validate constant_code "s" " 123456" 90000000000 ≢ none
validate_complete_example =
    validate_complete constant_code "s" " 123456" (λ n. "123456") 90000000000 4 (λ n. refl)
      (unfold trim_space in refl) (omega arith) (omega arith) (unfold trim_space in refl)
