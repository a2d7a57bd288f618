-- ===== src/State/Invariant.antt =====
-- What holds of the memory and of state.json through every operation: a property of each is kept if
-- the loads, the partial loads and the write carry it over, and the operation's own change keeps it.
use llama_labels.Common.{ℕ, Bool, true, false, if◌then◌else◌}
use llama_labels.Disk.{
  File, absent, corrupt, holds, Loaded, loaded, missing, failed, parsed, read_failed,
}
use llama_labels.State.{StateFile, Memory, Store, Result, ok, err, ◌>>=◌}
use llama_labels.State.Persist.{
  Io, Write, done, refused, torn, Act, leave, save, update, refresh_with, load_notifications,
  load_native_devices, load_pull, peek, peeked, acted, acting, apply_state_file, to_file,
  refresh_state, persist, refreshed, read_state, written, write_state, unless_dirty, reread,
}

abbrev pub clean : Memory → Memory
clean m = record m { notifications_dirty = false; native_devices_dirty = false; pull_dirty = false }

module _ (PM : Memory → Type 0) (PF : StateFile → Type 0) where
  pub record IsClosed : Type 0 where
    pub loads :
        (now : ℕ) (sf : StateFile) (m : Memory) → PF sf → PM m → PM (apply_state_file now sf m)
    pub loads_notifications :
        (sf : StateFile) (m : Memory) → PF sf → PM m → PM (load_notifications sf m)
    pub loads_devices : (sf : StateFile) (m : Memory) → PF sf → PM m → PM (load_native_devices sf m)
    pub loads_pull : (sf : StateFile) (m : Memory) → PF sf → PM m → PM (load_pull sf m)
    pub saves : (m : Memory) → PM m → PF (to_file m)
    pub cleans : (m : Memory) → PM m → PM (clean m)

  abbrev pub OnFile : File StateFile → Type 0
  OnFile absent = Unit
  OnFile corrupt = Unit
  OnFile (holds sf) = PF sf

  abbrev pub IsSound : Store → Type 0
  IsSound s = PM s.memory × OnFile s.file

  abbrev pub IsSoundResult : Result Store → Type 0
  IsSoundResult (ok s) = IsSound s
  IsSoundResult (err e) = Unit

  abbrev pub Keeps : {A : Type 0} → Act A → Type 0
  Keeps (leave a e m) = PM m
  Keeps (save good bad m) = PM m

  OnLoaded : Loaded StateFile → Type 0
  OnLoaded missing = Unit
  OnLoaded (failed e) = Unit
  OnLoaded (loaded sf) = PF sf

  parsed-OnLoaded :
      (b : Bool) (file : File StateFile)
      → OnFile file
      → OnLoaded (if b then parsed file else failed read_failed)
  unfolding OnLoaded
  parsed-OnLoaded false file h = tt
  parsed-OnLoaded true absent h = tt
  parsed-OnLoaded true corrupt h = tt
  parsed-OnLoaded true (holds sf) h = h

  loaded-IsSound :
      (apply : StateFile → Memory → Memory) (s : Store) (l : Loaded StateFile)
      → ((sf : StateFile) (m : Memory) → PF sf → PM m → PM (apply sf m))
      → IsSound s
      → OnLoaded l
      → IsSoundResult (refreshed apply s l)
  unfolding OnLoaded
  loaded-IsSound apply s missing loads h on = h
  loaded-IsSound apply s (failed e) loads h on = tt
  loaded-IsSound apply s (loaded sf) loads h on = (loads sf s.memory on h.0, h.1)

  refreshed-IsSound :
      (apply : StateFile → Memory → Memory) (io : Io) (s : Store)
      → ((sf : StateFile) (m : Memory) → PF sf → PM m → PM (apply sf m))
      → IsSound s
      → IsSoundResult (refresh_with apply io s)
  refreshed-IsSound apply io s loads h =
      loaded-IsSound apply s (read_state io s.file) loads h (parsed-OnLoaded io.can_read s.file h.1)

  bind-IsSound :
      (r : Result Store) (f : Store → Result Store)
      → IsSoundResult r
      → ((s : Store) → IsSound s → IsSoundResult (f s))
      → IsSoundResult (r >>= f)
  bind-IsSound (ok s) f h k = k s h
  bind-IsSound (err e) f h k = tt

  unless_dirty-IsSound :
      (dirty : Bool) (again : Result Store) (s : Store)
      → IsSoundResult again
      → IsSound s
      → IsSoundResult (unless_dirty dirty again s)
  unless_dirty-IsSound true again s r h = h
  unless_dirty-IsSound false again s r h = r

  pub peek-IsSound :
      (apply : StateFile → Memory → Memory) (io : Io) (s : Store)
      → ((sf : StateFile) (m : Memory) → PF sf → PM m → PM (apply sf m))
      → IsSound s
      → IsSound (peek apply io s)
  peek-IsSound apply io s loads h =
      go (refresh_with apply io s) (refreshed-IsSound apply io s loads h)
    where
      go : (r : Result Store) → IsSoundResult r → IsSound (peeked s r)
      go (ok s') h' = h'
      go (err e) h' = h

  write-IsSound : (w : Write) (s : Store) → IsClosed → IsSound s → IsSound (write_state w s).1
  write-IsSound done s c h = (c.cleans s.memory h.0, c.saves s.memory h.0)
  write-IsSound refused s c h = h
  write-IsSound torn s c h = (h.0, tt)

  written-IsSound :
      (io : Io) (s : Store) (r : Result Store)
      → IsClosed
      → IsSound s
      → IsSoundResult r
      → IsSound (written io s r).1
  written-IsSound io s (ok s') c h r = write-IsSound io.write s' c r
  written-IsSound io s (err e) c h r = h

  pub reread-IsSound :
      (io : Io) (s : Store)
      → ((sf : StateFile) (m : Memory) → PF sf → PM m → PM (load_notifications sf m))
      → ((sf : StateFile) (m : Memory) → PF sf → PM m → PM (load_native_devices sf m))
      → ((sf : StateFile) (m : Memory) → PF sf → PM m → PM (load_pull sf m))
      → IsSound s
      → IsSoundResult (reread io s)
  reread-IsSound io s notifications devices pull h =
      bind-IsSound _ _
        (unless_dirty-IsSound s.memory.notifications_dirty _ s
          (refreshed-IsSound load_notifications io s notifications h) h)
        (λ s₁ h₁.
          bind-IsSound _ _
            (unless_dirty-IsSound s₁.memory.native_devices_dirty _ s₁
              (refreshed-IsSound load_native_devices io s₁ devices h₁) h₁)
            (λ s₂ h₂.
              unless_dirty-IsSound s₂.memory.pull_dirty _ s₂
                (refreshed-IsSound load_pull io s₂ pull h₂) h₂))

  pub persist-IsSound : (io : Io) (s : Store) → IsClosed → IsSound s → IsSound (persist io s).1
  unfolding persist
  persist-IsSound io s c h =
      written-IsSound io s _ c h
        (reread-IsSound io s c.loads_notifications c.loads_devices c.loads_pull h)

  acted-IsSound :
      {A : Type 0} (io : Io) (s : Store) (a : Act A)
      → IsClosed
      → IsSound s
      → Keeps a
      → IsSound (acted io s a).1
  acted-IsSound io s (leave a e m) c h k = (k, h.1)
  acted-IsSound io s (save good bad m) c h k =
      persist-IsSound io (record s { memory = m }) c (k, h.1)

  acting-IsSound :
      {A : Type 0} (io : Io) (s : Store) (zero : A) (act : Memory → Act A) (r : Result Store)
      → IsClosed
      → ((m : Memory) → PM m → Keeps (act m))
      → IsSound s
      → IsSoundResult r
      → IsSound (acting io s zero act r).1
  acting-IsSound io s zero act (err e) c keeps h r = h
  acting-IsSound io s zero act (ok s') c keeps h r =
      acted-IsSound io s' (act s'.memory) c r (keeps s'.memory r.0)

  pub refresh-IsSound :
      (io : Io) (now : ℕ) (s : Store)
      → IsClosed
      → IsSound s
      → IsSoundResult (refresh_state io now s)
  unfolding refresh_state
  refresh-IsSound io now s c h = refreshed-IsSound (apply_state_file now) io s (c.loads now) h

  -- Every operation of the shape `update` keeps the two properties.
  pub update-IsSound :
      {A : Type 0} (io : Io) (now : ℕ) (s : Store) (zero : A) (act : Memory → Act A)
      → IsClosed
      → ((m : Memory) → PM m → Keeps (act m))
      → IsSound s
      → IsSound (update io now s zero act).1
  unfolding update
  update-IsSound io now s zero act c keeps h =
      acting-IsSound io s zero act (refresh_state io now s) c keeps h (refresh-IsSound io now s c h)
