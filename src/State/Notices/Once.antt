-- ===== src/State/Notices/Once.antt =====
-- The user is told once that the AI credits ran out.
use llama_labels.Common.{
  ℕ, String, ◌≡◌, refl, true, false, none, List, arith, All, inl, inr, Bool-cases,
}
use llama_labels.State.{Stamp, Memory, StateFile, Store, Result, ok, err}
use llama_labels.State.Persist.{Io, apply_state_file, to_file, acting, update, refresh_state}
use llama_labels.State.Notices.{set_ai_credits_exhausted, exhausting}
use llama_labels.State.Calls.{Call, run, clears_ai}
use llama_labels.State.Invariant.{IsClosed, IsSound, IsSoundResult, refresh-IsSound}
use llama_labels.State.Established.{IsFree, Establishes, update-Establishes}
use llama_labels.State.Kept.{touched, run-IsSound}

abbrev pub Leaves : Call → Type 0
Leaves clears_ai = ⊥
Leaves call = Unit

abbrev pub IsRaised : Memory → Type 0
IsRaised m = m.ai_credits_exhausted ≡ true

abbrev pub IsRaisedOnFile : StateFile → Type 0
IsRaisedOnFile sf = sf.ai_credits_exhausted ≡ true

IsRaised-IsClosed : IsClosed IsRaised IsRaisedOnFile
unfolding apply_state_file to_file
IsRaised-IsClosed = record {
  loads = λ now sf m f g. f;
  loads_notifications = λ sf m f g. g;
  loads_devices = λ sf m f g. g;
  loads_pull = λ sf m f g. g;
  saves = λ m g. g;
  cleans = λ m g. g;
}

IsRaised-IsFree : IsFree IsRaised IsRaisedOnFile
unfolding to_file
IsRaised-IsFree = record {
  frees_notifications = λ sf m g. g;
  frees_devices = λ sf m g. g;
  frees_pull = λ sf m g. g;
  frees_saves = λ m g. g;
  frees_cleans = λ m g. g;
}

touched-IsRaised :
    (to_lower : String → String) (now : ℕ) (call : Call) (m : Memory)
    → Leaves call
    → IsRaised m
    → IsRaised (touched to_lower now call m)
touched-IsRaised to_lower now call m ne h = ground arith

exhausting-Establishes :
    (now : ℕ) (at_utc : Stamp) (m : Memory)
    → Establishes IsRaised IsRaisedOnFile true (exhausting now at_utc m)
exhausting-Establishes now at_utc m = elim (Bool-cases m.ai_credits_exhausted) [
  | inl raised ↦ rw raised (λ q e. ground (arith, q))
  | inr raised ↦ rw raised refl
]

silent_when_raised :
    (io : Io) (now : ℕ) (s : Store) (at_utc : Stamp)
    → IsSound IsRaised IsRaisedOnFile s
    → (set_ai_credits_exhausted io now s at_utc).0.0 ≡ false
unfolding set_ai_credits_exhausted update
silent_when_raised io now s at_utc h =
    go (refresh_state io now s) (refresh-IsSound _ _ io now s IsRaised-IsClosed h)
  where
    go :
        (r : Result Store)
        → IsSoundResult IsRaised IsRaisedOnFile r
        → (acting io s false (exhausting now at_utc) r).0.0 ≡ false
    go (err e) h = refl
    go (ok s') h = rw (h.0) refl

told-IsSound :
    (io : Io) (now : ℕ) (s : Store) (at_utc : Stamp)
    → (set_ai_credits_exhausted io now s at_utc).0 ≡ (true, none)
    → IsSound IsRaised IsRaisedOnFile (set_ai_credits_exhausted io now s at_utc).1
unfolding set_ai_credits_exhausted
told-IsSound io now s at_utc told =
    update-Establishes _ _ io now s false true _ IsRaised-IsFree (exhausting-Establishes now at_utc)
      told

-- After `set_ai_credits_exhausted` has answered, with the flag on disk, that the user is to be told, it
-- does not answer so again until the flag is cleared: not after any other calls, whatever the disk does
-- in between.
pub exhausted-notified_once :
    (to_lower : String → String) (io io' : Io) (now now' : ℕ) (s : Store) (at_utc at_utc' : Stamp)
    (calls : List (Io × (ℕ × Call)))
    → (set_ai_credits_exhausted io now s at_utc).0 ≡ (true, none)
    → All (λ entry. Leaves entry.1.1) calls
    → (set_ai_credits_exhausted io' now'
        (run to_lower (set_ai_credits_exhausted io now s at_utc).1 calls)
        at_utc').0.0
      ≡ false
exhausted-notified_once to_lower io io' now now' s at_utc at_utc' calls told left =
    silent_when_raised io' now' _ at_utc' (
      run-IsSound to_lower IsRaised IsRaisedOnFile Leaves _ calls IsRaised-IsClosed
        (touched-IsRaised to_lower) left (told-IsSound io now s at_utc told))
