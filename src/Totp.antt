-- ===== src/Totp.antt =====
-- backend/internal/totp/totp.go, Validate. `generate_code` is generateCode, HMAC-SHA1 of a counter under a
-- secret, or `none` where the secret is not base32.
use Prim.Native.String.{len}
use llama_labels.Common.{
  ℕ, ◌+◌, ◌-◌, ◌/◌, ◌≤◌, String, ◌≡◌, ◌≢◌, true, Option, none, some, List, [], ◌∷◌, arith, nat_eq,
  any, sym, ap, ◌∙◌, if◌then◌else◌, ◌==◌, eq_iff, Bool-cases, Option-cases, inl, inr,
}
use llama_labels.Common.Text.{trim_space}
use llama_labels.Common.Stamps.{second}

abbrev pub period : ℕ
period = 30

abbrev pub digits : ℕ
digits = 6

-- The step before, the step and the step after; the first has no step before it.
abbrev pub counters : ℕ → List ℕ
counters step =
    if nat_eq step 0 then step ∷ (step + 1) ∷ [] else (step - 1) ∷ step ∷ (step + 1) ∷ []

module _ (generate_code : String → ℕ → Option String) where
  -- One counter: no code ends the search, the wrong one goes on to the next.
  abbrev tried : String → ℕ → Option ℕ → Option String → Option ℕ
  tried code counter later none = none
  tried code counter later (some expected) = if expected == code then some counter else later

  abbrev pub try_counters : String → String → List ℕ → Option ℕ
  try_counters secret code [] = none
  try_counters secret code (counter ∷ rest) =
      let later = try_counters secret code rest in
      tried code counter later (generate_code secret counter)

  -- The matched step, or `none` for a code that is not valid.
  unfoldable pub validate : String → String → ℕ → Option ℕ
  validate base32_secret code t =
      let code' = trim_space code in
      if nat_eq (len code') digits
      then try_counters base32_secret code' (counters (t / second / period))
      else none

  try_sound :
      (secret code : String) (cs : List ℕ) (c : ℕ)
      → try_counters secret code cs ≡ some c
      → (generate_code secret c ≡ some code) × (any (nat_eq c) cs ≡ true)
  try_sound secret code [] c h = ground (arith, h)
  try_sound secret code (x ∷ cs) c h = elim (Option-cases (generate_code secret x)) [
    | inl q ↦ let off : none ≡ some c = simp q at h in ground (arith, off)
    | inr (expected, q) ↦ elim (Bool-cases (expected == code)) [
      | inl e ↦
          let same : some x ≡ some c = simp (q, e) at h in
          let x_is_c : x ≡ c = ground (arith, same) in
          let is_code : expected ≡ code = (eq_iff expected code).0 e in
          (rw (sym x_is_c, q) (ap some is_code), ground (arith, x_is_c))
      | inr e ↦ let (g, i) = try_sound secret code cs c (simp (q, e) at h) in (g, ground (arith, i))
    ]
  ]

  counters-near :
      (step c : ℕ) → any (nat_eq c) (counters step) ≡ true → (step ≤ c + 1) × (c ≤ step + 1)
  counters-near step c h = ground (arith, h)

  near-counters : (step c : ℕ) → step ≤ c + 1 → c ≤ step + 1 → any (nat_eq c) (counters step) ≡ true
  near-counters step c lo hi = ground (arith, lo, hi)

  -- A code that is accepted is, trimmed, the one of the matched step, which is at most one step from now.
  pub validate_sound :
      (secret code : String) (t c : ℕ)
      → validate secret code t ≡ some c
      → (generate_code secret c ≡ some (trim_space code))
        × ((t / second / period ≤ c + 1) × (c ≤ t / second / period + 1))
  unfolding validate
  validate_sound secret code t c h = elim (Bool-cases (nat_eq (len (trim_space code)) digits)) [
    | inl e ↦
        let (g, i) =
          try_sound secret (trim_space code) (counters (t / second / period)) c (simp e at h) in
        (g, counters-near (t / second / period) c i)
    | inr e ↦ let off : none ≡ some c = simp e at h in ground (arith, off)
  ]

  try_complete :
      (secret code : String) (codes : ℕ → String) (cs : List ℕ) (c : ℕ)
      → ((n : ℕ) → generate_code secret n ≡ some (codes n))
      → any (nat_eq c) cs ≡ true
      → codes c ≡ code
      → try_counters secret code cs ≢ none
  try_complete secret code codes [] c all i e = λ off. ground (arith, i)
  try_complete secret code codes (x ∷ cs) c all i e = elim (Bool-cases (codes x == code)) [
    | inl q ↦ simp (all x, q) (λ off. ground (arith, off))
    | inr q ↦
        let later : any (nat_eq c) cs ≡ true = elim (Bool-cases (nat_eq c x)) [
          | inl s ↦
              let c_is_x : c ≡ x = ground (arith, s) in
              let is_code : codes x ≡ code = sym (ap codes c_is_x) ∙ e in
              ground (arith, q, eq_iff (codes x) code, is_code)
          | inr s ↦ ground (arith, s, i)
        ] in
        simp (all x, q) (try_complete secret code codes cs c all later e)
  ]

  -- With a secret that gives a code for every step: a code of six bytes that, trimmed, is the one of a step
  -- at most one from now is accepted.
  pub validate_complete :
      (secret code : String) (codes : ℕ → String) (t c : ℕ)
      → ((n : ℕ) → generate_code secret n ≡ some (codes n))
      → len (trim_space code) ≡ digits
      → t / second / period ≤ c + 1
      → c ≤ t / second / period + 1
      → codes c ≡ trim_space code
      → validate secret code t ≢ none
  unfolding validate
  validate_complete secret code codes t c all six lo hi e =
      let e6 : nat_eq (len (trim_space code)) digits ≡ true = ground (arith, six) in
      rw e6 (
        try_complete secret (trim_space code) codes (counters (t / second / period)) c all
          (near-counters (t / second / period) c lo hi) e)
