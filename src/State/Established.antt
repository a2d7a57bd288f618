-- ===== src/State/Established.antt =====
-- What a write of state.json without an error leaves behind, whatever the file held before.
use llama_labels.Common.{ℕ, ap, ◌∙◌, sym, ◌≡◌, Option, none, some, arith, refl}
use llama_labels.Disk.{File, absent, corrupt, holds}
use llama_labels.State.{StateFile, Memory, Store, Error, Result, ok, err}
use llama_labels.State.Persist.{
  Io, Write, done, refused, torn, Act, leave, save, update, load_notifications, load_native_devices,
  load_pull, acted, acting, chosen, to_file, refresh_state, persist, written, write_state, reread,
}
use llama_labels.State.Invariant.{IsSound, IsSoundResult, OnFile, clean, reread-IsSound}

-- `PM` passes from the memory to the file, and the partial loads do not touch what it says.
module _ (PM : Memory → Type 0) (PF : StateFile → Type 0) where
  pub record IsFree : Type 0 where
    pub frees_notifications : (sf : StateFile) (m : Memory) → PM m → PM (load_notifications sf m)
    pub frees_devices : (sf : StateFile) (m : Memory) → PM m → PM (load_native_devices sf m)
    pub frees_pull : (sf : StateFile) (m : Memory) → PM m → PM (load_pull sf m)
    pub frees_saves : (m : Memory) → PM m → PF (to_file m)
    pub frees_cleans : (m : Memory) → PM m → PM (clean m)

  abbrev Unclaimed : StateFile → Type 0
  Unclaimed sf = Unit

  file-Unclaimed : (file : File StateFile) → OnFile PM Unclaimed file
  file-Unclaimed absent = tt
  file-Unclaimed corrupt = tt
  file-Unclaimed (holds sf) = tt

  written-Establishes :
      (io : Io) (s : Store) (r : Result Store)
      → IsFree
      → IsSoundResult PM Unclaimed r
      → (written io s r).0 ≡ none
      → IsSound PM PF (written io s r).1
  written-Establishes io s (err x) free h e = ground arith
  written-Establishes io s (ok s') free h e = go io.write e
    where
      go : (w : Write) → (write_state w s').0 ≡ none → IsSound PM PF (write_state w s').1
      go done e = (free.frees_cleans s'.memory h.0, free.frees_saves s'.memory h.0)
      go refused e = ground arith
      go torn e = ground arith

  persist-Establishes :
      (io : Io) (s : Store)
      → IsFree
      → PM s.memory
      → (persist io s).0 ≡ none
      → IsSound PM PF (persist io s).1
  unfolding persist
  persist-Establishes io s free h e =
      written-Establishes io s (reread io s) free
        (reread-IsSound PM Unclaimed io s (λ sf m u. free.frees_notifications sf m)
          (λ sf m u. free.frees_devices sf m) (λ sf m u. free.frees_pull sf m)
          (h, file-Unclaimed s.file))
        e

  -- An action that ends with `r` and no error has persisted a memory with `PM`, where every other end
  -- of it is ruled out.
  abbrev pub Establishes : {A : Type 0} → A → Act A → Type 0
  Establishes r (leave a e m) = (a ≡ r → e ≡ none → ⊥)
  Establishes r (save good bad m) = PM m

  chosen-error : {A : Type 0} (good bad : A) (e : Option Error) → (chosen good bad e).1 ≡ e
  chosen-error good bad none = refl
  chosen-error good bad (some e) = refl

  acted-Establishes :
      {A : Type 0} (io : Io) (s : Store) (a : Act A) (r : A)
      → IsFree
      → Establishes r a
      → (acted io s a).0 ≡ (r, none)
      → IsSound PM PF (acted io s a).1
  acted-Establishes io s (leave a e m) r free h q = absurd (h (ap (λ p. p.0) q) (ap (λ p. p.1) q))
  acted-Establishes io s (save good bad m) r free h q =
      persist-Establishes io (record s { memory = m }) free h
        (sym (chosen-error good bad (persist io (record s { memory = m })).0) ∙ ap (λ p. p.1) q)

  pub update-Establishes :
      {A : Type 0} (io : Io) (now : ℕ) (s : Store) (zero r : A) (act : Memory → Act A)
      → IsFree
      → ((m : Memory) → Establishes r (act m))
      → (update io now s zero act).0 ≡ (r, none)
      → IsSound PM PF (update io now s zero act).1
  unfolding update
  update-Establishes io now s zero r act free h q = go (refresh_state io now s) q
    where
      go :
          (x : Result Store)
          → (acting io s zero act x).0 ≡ (r, none)
          → IsSound PM PF (acting io s zero act x).1
      go (err e) q = ground arith
      go (ok s') q = acted-Establishes io s' (act s'.memory) r free (h s'.memory) q
