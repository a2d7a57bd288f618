-- ===== src/State/Processed.antt =====
-- state/store.go: processed messages, the checkpoint, decisions and the cleanup of old ones.
use llama_labels.Common.{
  ℕ, ◌+◌, ◌*◌, String, Bool, true, false, not, Option, none, some, [], ◌∷◌, ◌++◌, ltb,
  if◌then◌else◌, keep, length,
}
use llama_labels.Common.Dict.{lookup, insert, retain}
use llama_labels.Disk.{corrupt, holds, write_failed}
use llama_labels.State.{
  Stamp, at, text, second, stamp, is_empty, Decision, Memory, Store, Error, disk, Result, ok, err,
}
use llama_labels.State.Persist.{
  Io, Write, done, refused, torn, save, update, refresh_state, persist, day,
}

unfoldable pub seen : Store → String → Bool
seen s id = elim (lookup id s.memory.processed_set) [ none ↦ false | some t ↦ true ]

unfoldable pub mark_processed : Io → ℕ → Store → String → (Unit {0} × Option Error) × Store
mark_processed io now s id =
    update io now s tt
      (λ m. save tt tt (record m { processed_set = insert id now m.processed_set }))

unfoldable pub set_checkpoint : Io → ℕ → Store → String → (Unit {0} × Option Error) × Store
set_checkpoint io now s value =
    update io now s tt (λ m. save tt tt (record m { checkpoint = value }))

abbrev pub processed_since : Store → ℕ → ℕ
processed_since s since = length (retain (λ t. not (ltb t since)) s.memory.processed_set)

-- decisions.json after a write; its errors are those of state.json.
abbrev pub put_decisions : Write → Store → Option Error × Store
put_decisions done s = (none, record s { decisions_file = holds s.memory.decisions })
put_decisions refused s = (some (disk write_failed), s)
put_decisions torn s = (some (disk write_failed), record s { decisions_file = corrupt })

abbrev pub write_decisions : Io → Store → Option Error × Store
write_decisions io s = put_decisions io.write s

unfoldable pub add_decision : Io → ℕ → Store → Decision → Option Error × Store
add_decision io now s d =
    let d' = record d { at_utc = if is_empty d.at_utc then stamp now else d.at_utc } in
    write_decisions io
      (record s { memory = record s.memory { decisions = s.memory.decisions ++ d' ∷ [] } })

-- What is older than `keep_days` goes; a decision whose time does not parse stays.
abbrev pub is_recent : ℕ → ℕ → Stamp → Bool
is_recent keep_days now (at t) = not (ltb (t * second + keep_days * day) now)
is_recent keep_days now (text s) = true

abbrev pub cleaned : ℕ → ℕ → Memory → Memory
cleaned now keep_days m = record m {
  processed_set = retain (λ t. not (ltb (t + keep_days * day) now)) m.processed_set;
  decisions = keep (λ d. is_recent keep_days now d.at_utc) m.decisions;
}

abbrev pub and_persist : Io → Option Error × Store → Option Error × Store
and_persist io (none, s) = persist io s
and_persist io (some e, s) = (some e, s)

abbrev pub cleaning : Io → Io → ℕ → ℕ → Store → Result Store → Option Error × Store
cleaning io io' now keep_days s (err e) = (some e, s)
cleaning io io' now keep_days s (ok s') =
    and_persist io' (write_decisions io (record s' { memory = cleaned now keep_days s'.memory }))

-- The disk serves the refresh and the write of decisions.json as `io`, and the rest as `io'`.
unfoldable pub cleanup : Io → Io → ℕ → Store → ℕ → Option Error × Store
cleanup io io' now s keep_days = cleaning io io' now keep_days s (refresh_state io now s)
