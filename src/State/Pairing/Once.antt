-- ===== src/State/Pairing/Once.antt =====
-- A desktop pairing code is good for one pairing.
use llama_labels.Common.{
  ℕ, ◌*◌, String, ◌≡◌, ◌≢◌, refl, ltb, true, false, Option, none, some, List, arith, All, eq_iff,
  eq_refl, inl, inr, Bool-cases,
}
use llama_labels.Common.Dict.{lookup, lookup-insert, lookup-remove, lookup-retain_absent}
use llama_labels.Common.Text.{trim_space}
use llama_labels.State.{Stamp, second, at, text, Memory, StateFile, Store, Result, ok, err}
use llama_labels.State.Persist.{
  Io, is_within, apply_state_file, to_file, acting, update, refresh_state,
}
use llama_labels.State.Pairing.{consume_desktop_pairing_code, consuming, validated, without_code}
use llama_labels.State.Calls.{Call, sets_code, run, validates_code, consumes_code}
use llama_labels.State.Invariant.{IsClosed, IsSound, IsSoundResult, refresh-IsSound}
use llama_labels.State.Established.{IsFree, Establishes, update-Establishes}
use llama_labels.State.Kept.{touched, after_act, run-IsSound}

-- The call does not issue the code.
abbrev pub Spares : String → Call → Type 0
Spares code (sets_code c ttl) = trim_space c ≢ code
Spares code call = Unit

module _ (code : String) where
  abbrev pub IsGone : Memory → Type 0
  IsGone m = lookup code m.desktop_pairing_codes ≡ none

  abbrev pub IsGoneOnFile : StateFile → Type 0
  IsGoneOnFile sf = lookup code sf.desktop_pairing_codes ≡ none

  IsGone-IsClosed : IsClosed IsGone IsGoneOnFile
  unfolding apply_state_file to_file
  IsGone-IsClosed = record {
    loads = λ now sf m f g. lookup-retain_absent (is_within 0 now) code sf.desktop_pairing_codes f;
    loads_notifications = λ sf m f g. g;
    loads_devices = λ sf m f g. g;
    loads_pull = λ sf m f g. g;
    saves = λ m g. g;
    cleans = λ m g. g;
  }

  removed-IsGone : (c : String) (m : Memory) → IsGone m → IsGone (without_code c m)
  removed-IsGone c m h = rw lookup-remove (ground (arith, h))

  consuming-IsGone :
      (now : ℕ) (c : String) (m : Memory) (o : Option Stamp)
      → IsGone m
      → IsGone (after_act (consuming now c m o))
  consuming-IsGone now c m none h = h
  consuming-IsGone now c m (some (text s)) h = removed-IsGone c m h
  consuming-IsGone now c m (some (at t)) h = ground (arith, removed-IsGone c m h)

  validated-IsGone :
      (now : ℕ) (c : String) (m : Memory) (o : Option Stamp)
      → IsGone m
      → IsGone (validated now c m o).1
  validated-IsGone now c m none h = h
  validated-IsGone now c m (some (text s)) h = h
  validated-IsGone now c m (some (at t)) h = ground (arith, removed-IsGone c m h)

  touched-IsGone :
      (to_lower : String → String) (now : ℕ) (call : Call) (m : Memory)
      → Spares code call
      → IsGone m
      → IsGone (touched to_lower now call m)
  touched-IsGone to_lower now (sets_code c ttl) m ne h =
      rw lookup-insert (ground (arith, eq_iff (trim_space c) code, h))
  touched-IsGone to_lower now (validates_code c) m ne h = validated-IsGone now (trim_space c) m _ h
  touched-IsGone to_lower now (consumes_code c) m ne h = consuming-IsGone now (trim_space c) m _ h
  touched-IsGone to_lower now call m ne h = ground arith

  IsGone-IsFree : IsFree IsGone IsGoneOnFile
  unfolding to_file
  IsGone-IsFree = record {
    frees_notifications = λ sf m g. g;
    frees_devices = λ sf m g. g;
    frees_pull = λ sf m g. g;
    frees_saves = λ m g. g;
    frees_cleans = λ m g. g;
  }

consuming-Establishes :
    (now : ℕ) (c : String) (m : Memory) (o : Option Stamp)
    → Establishes (IsGone c) (IsGoneOnFile c) true (consuming now c m o)
consuming-Establishes now c m none = λ q e. ground (arith, q)
consuming-Establishes now c m (some (text s)) = λ q e. ground (arith, q)
consuming-Establishes now c m (some (at t)) = elim (Bool-cases (ltb (t * second) now)) [
  | inl late ↦ rw late (λ q e. ground (arith, q))
  | inr late ↦ rw late (rw lookup-remove (ground (arith, eq_refl c)))
]

refused_gone :
    (io : Io) (now : ℕ) (s : Store) (code : String)
    → IsSound (IsGone (trim_space code)) (IsGoneOnFile (trim_space code)) s
    → (consume_desktop_pairing_code io now s code).0.0 ≡ false
unfolding consume_desktop_pairing_code update
refused_gone io now s code h =
    go (refresh_state io now s) (refresh-IsSound _ _ io now s (IsGone-IsClosed (trim_space code)) h)
  where
    go :
        (r : Result Store)
        → IsSoundResult (IsGone (trim_space code)) (IsGoneOnFile (trim_space code)) r
        → (acting io s false
            (λ m.
              consuming now (trim_space code) m (lookup (trim_space code) m.desktop_pairing_codes))
            r).0.0
          ≡ false
    go (err e) h = refl
    go (ok s') h = rw (h.0) refl

-- A pairing code that was consumed, with the consumption written to disk, is not consumed again by any
-- spelling that trims to the same text: not after any calls that do not issue it anew, whatever the
-- disk does in between.
pub pairing-code-once :
    (to_lower : String → String) (io io' : Io) (now now' : ℕ) (s : Store) (code again : String)
    (calls : List (Io × (ℕ × Call)))
    → (consume_desktop_pairing_code io now s code).0 ≡ (true, none)
    → trim_space again ≡ trim_space code
    → All (λ entry. Spares (trim_space code) entry.1.1) calls
    → (consume_desktop_pairing_code io' now'
        (run to_lower (consume_desktop_pairing_code io now s code).1 calls)
        again).0.0
      ≡ false
pairing-code-once to_lower io io' now now' s code again calls done same spared =
    refused_gone io' now' _ again (
      rw same (
        run-IsSound to_lower (IsGone (trim_space code)) (IsGoneOnFile (trim_space code))
          (Spares (trim_space code)) _ calls (IsGone-IsClosed (trim_space code))
          (touched-IsGone (trim_space code) to_lower) spared
          (unfold consume_desktop_pairing_code in
            update-Establishes _ _ io now s false true _ (IsGone-IsFree (trim_space code))
              (λ m. consuming-Establishes now (trim_space code) m _) done)))
