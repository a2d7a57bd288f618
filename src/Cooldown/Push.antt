-- ===== src/Cooldown/Push.antt =====
-- backend/internal/api/mfa_push_cooldown.go: at most one push notification per account and cooldown.
use llama_labels.Common.{
  ℕ, ◌+◌, ◌-◌, ◌*◌, ◌<◌, String, ◌≡◌, Bool, true, false, Option, none, some, List, [], ◌∷◌, arith,
  ltb, if◌then◌else◌, eq_iff, eq_refl, All, Option-cases, inl, inr,
}
use llama_labels.Common.Dict.{Dict, lookup, insert, lookup-insert}
use llama_labels.Lockout.{minute}

abbrev pub mfa_push_cooldown_for : ℕ
mfa_push_cooldown_for = 5 * minute

pub record MfaPushCooldown : Type 0 where
  pub last_sent : Dict ℕ

abbrev pub new_mfa_push_cooldown : MfaPushCooldown
new_mfa_push_cooldown = record { last_sent = [] }

-- The check, and the record of a send that is let through.
abbrev decide_send : MfaPushCooldown → String → ℕ → Option ℕ → (Bool × ℕ) × MfaPushCooldown
decide_send c user_id now none = ((true, 0), record { last_sent = insert user_id now c.last_sent })
decide_send c user_id now (some last) =
    if ltb now (last + mfa_push_cooldown_for)
    then ((false, last + mfa_push_cooldown_for - now), c)
    else ((true, 0), record { last_sent = insert user_id now c.last_sent })

unfoldable pub try_consume : MfaPushCooldown → String → ℕ → (Bool × ℕ) × MfaPushCooldown
try_consume c user_id now = decide_send c user_id now (lookup user_id c.last_sent)

-- Logins of any accounts, one after the other.
abbrev pub run : MfaPushCooldown → List (String × ℕ) → MfaPushCooldown
run c [] = c
run c ((user_id, now) ∷ calls) = run (try_consume c user_id now).1 calls

sent-recorded :
    (c : MfaPushCooldown) (u : String) (now : ℕ)
    → (try_consume c u now).0.0 ≡ true
    → lookup u (try_consume c u now).1.last_sent ≡ some now
unfolding try_consume
sent-recorded c u now h = elim (Option-cases (lookup u c.last_sent)) [
  | inl e ↦ rw e (simp (lookup-insert, eq_refl))
  | inr (last, e) ↦ ground (arith, e, lookup-insert u u now c.last_sent, eq_refl u)
]

call-keeps-sent :
    (c : MfaPushCooldown) (u v : String) (sent now : ℕ)
    → lookup u c.last_sent ≡ some sent
    → now < sent + mfa_push_cooldown_for
    → lookup u (try_consume c v now).1.last_sent ≡ some sent
unfolding try_consume
call-keeps-sent c u v sent now e h = ground (arith, lookup-insert v u now c.last_sent, eq_iff v u)

run-keeps-sent :
    (c : MfaPushCooldown) (u : String) (sent : ℕ) (calls : List (String × ℕ))
    → lookup u c.last_sent ≡ some sent
    → All (λ call. call.1 < sent + mfa_push_cooldown_for) calls
    → lookup u (run c calls).last_sent ≡ some sent
run-keeps-sent c u sent [] e h = e
run-keeps-sent c u sent ((v, now) ∷ calls) e h =
    run-keeps-sent (try_consume c v now).1 u sent calls (call-keeps-sent c u v sent now e h.0) h.1

-- After a push that was let through at time `sent`, and whatever logins of this or other accounts
-- follow within the cooldown, the next attempt is refused exactly until the cooldown has run out,
-- with the time that is left.
pub push-spacing :
    (c : MfaPushCooldown) (u : String) (sent : ℕ) (calls : List (String × ℕ)) (t : ℕ)
    → (try_consume c u sent).0.0 ≡ true
    → All (λ call. call.1 < sent + mfa_push_cooldown_for) calls
    → (try_consume (run (try_consume c u sent).1 calls) u t).0 ≡ (
        if ltb t (sent + mfa_push_cooldown_for)
        then (false, sent + mfa_push_cooldown_for - t)
        else (true, 0))
unfolding try_consume
push-spacing c u sent calls t ok h =
    ground
      (arith, run-keeps-sent (try_consume c u sent).1 u sent calls (sent-recorded c u sent ok) h)
