-- ===== src/Cooldown/SendAs.antt =====
-- backend/internal/api/sendas_cooldown.go: how often a verification probe goes to one address.
use llama_labels.Common.{
  ℕ, ◌+◌, ◌-◌, ◌*◌, ◌≤◌, String, ◌≡◌, refl, Bool, true, false, not, Option, none, some, List, [],
  ◌∷◌, arith, ltb, if◌then◌else◌, ◌==◌, ◌∙◌, All,
}
use llama_labels.Common.Dict.{
  Dict, IsMap, lookup, insert, retain, lookup-insert, lookup-retain, passing, insert-IsMap,
  retain-IsMap,
}
use llama_labels.Lockout.{minute}

abbrev pub send_as_verification_cooldown_for : ℕ
send_as_verification_cooldown_for = 5 * minute

abbrev pub send_as_cooldown_sweep_max_age : ℕ
send_as_cooldown_sweep_max_age = 60 * minute

pub record SendAsVerificationCooldown : Type 0 where
  pub last_sent : Dict ℕ

abbrev pub answer : Option ℕ → ℕ → Bool × ℕ
answer none now = (true, 0)
answer (some last) now =
    if ltb now (last + send_as_verification_cooldown_for)
    then (false, last + send_as_verification_cooldown_for - now)
    else (true, 0)

unfoldable pub allowed : SendAsVerificationCooldown → String → ℕ → Bool × ℕ
allowed c key now = answer (lookup key c.last_sent) now

unfoldable pub record_sent : SendAsVerificationCooldown → String → ℕ → SendAsVerificationCooldown
record_sent c key now = record { last_sent = insert key now c.last_sent }

-- `last.Before(now - max_age)`, with the age moved to the other side.
unfoldable pub sweep : SendAsVerificationCooldown → ℕ → ℕ → SendAsVerificationCooldown
sweep c max_age now = record {
  last_sent = retain (λ last. not (ltb (last + max_age) now)) c.last_sent;
}

-- The sweeper's ticks at the given times, with the age that it is started with.
abbrev pub sweeps : SendAsVerificationCooldown → List ℕ → SendAsVerificationCooldown
sweeps c [] = c
sweeps c (now ∷ ticks) = sweeps (sweep c send_as_cooldown_sweep_max_age now) ticks

answer-swept :
    (o : Option ℕ) (now t : ℕ)
    → now ≤ t
    → answer (passing (λ last. not (ltb (last + send_as_cooldown_sweep_max_age) now)) o) t
      ≡ answer o t
answer-swept none now t h = refl
answer-swept (some last) now t h = ground arith

allowed-sweeps :
    (c : SendAsVerificationCooldown) (key : String) (ticks : List ℕ) (t : ℕ)
    → IsMap c.last_sent
    → All (λ now. now ≤ t) ticks
    → allowed (sweeps c ticks) key t ≡ allowed c key t
unfolding allowed sweep
allowed-sweeps c key [] t w h = refl
allowed-sweeps c key (now ∷ ticks) t w h =
    allowed-sweeps (sweep c send_as_cooldown_sweep_max_age now) key ticks t
      (retain-IsMap _ c.last_sent w) h.1
    ∙ rw (lookup-retain _ key c.last_sent w) (answer-swept (lookup key c.last_sent) now t h.0)

-- A probe recorded for `key` at time `sent` holds back the next one for that key exactly until the
-- cooldown has run out, and leaves the answer for every other key; the sweeps up to then, at the
-- sweeper's age, change neither.
pub probe-spacing :
    (c : SendAsVerificationCooldown) (key other : String) (sent : ℕ) (ticks : List ℕ) (t : ℕ)
    → IsMap c.last_sent
    → All (λ now. now ≤ t) ticks
    → allowed (sweeps (record_sent c key sent) ticks) other t ≡ (
        if key == other
        then (if ltb t (sent + send_as_verification_cooldown_for)
            then (false, sent + send_as_verification_cooldown_for - t)
            else (true, 0))
        else allowed c other t)
probe-spacing c key other sent ticks t w h =
    allowed-sweeps (record_sent c key sent) other ticks t
      (unfold record_sent in insert-IsMap key sent c.last_sent w) h
    ∙ unfold allowed record_sent in rw lookup-insert (ground arith)
