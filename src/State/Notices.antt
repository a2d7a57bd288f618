-- ===== src/State/Notices.antt =====
-- state/store.go: conditions that the user is told of once.
pub mod Once
use llama_labels.Common.{ℕ, String, Bool, true, false, ◌||◌, Option, none, if◌then◌else◌, ◌==◌}
use llama_labels.Common.Text.{trim_space}
use llama_labels.State.{Stamp, text, stamp, is_blank, Memory, Store, Error}
use llama_labels.State.Persist.{Io, Act, leave, save, update}

abbrev pub exhausting : ℕ → Stamp → Memory → Act Bool
exhausting now at_utc m =
    if m.ai_credits_exhausted
    then leave false none m
    else save true true (record m {
      ai_credits_exhausted = true;
      ai_credits_exhausted_at = if is_blank at_utc then stamp now else at_utc;
    })

unfoldable pub set_ai_credits_exhausted : Io → ℕ → Store → Stamp → (Bool × Option Error) × Store
set_ai_credits_exhausted io now s at_utc = update io now s false (exhausting now at_utc)

abbrev pub clearing : Memory → Act Bool
clearing m =
    if m.ai_credits_exhausted
    then save true true
        (record m { ai_credits_exhausted = false; ai_credits_exhausted_at = text "" })
    else leave false none m

unfoldable pub clear_ai_credits_exhausted : Io → ℕ → Store → (Bool × Option Error) × Store
clear_ai_credits_exhausted io now s = update io now s false clearing

abbrev pub ai_credits_exhausted : Store → Bool × Stamp
ai_credits_exhausted s = (s.memory.ai_credits_exhausted, s.memory.ai_credits_exhausted_at)

abbrev pub notifying : String → Memory → Act Bool
notifying latest m =
    if latest == "" || latest == m.ollama_update_notified_version
    then leave false none m
    else save true true (record m { ollama_update_notified_version = latest })

unfoldable pub set_ollama_update_notified : Io → ℕ → Store → String → (Bool × Option Error) × Store
set_ollama_update_notified io now s latest_version =
    update io now s false (notifying (trim_space latest_version))
