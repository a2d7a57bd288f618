-- ===== src/State/Queue/Numbered.antt =====
-- The numbers of the queued notifications: ascending, and bounded by the cursor.
use llama_labels.Common.{
  ℕ, zero, suc, ◌+◌, ◌-◌, ◌≤◌, ◌<◌, String, ◌≡◌, refl, true, List, [], ◌∷◌, ◌++◌, arith, ltb, All,
  length, drop, length-drop, Bool-cases, inl, inr,
}
use llama_labels.State.{Memory, StateFile, Store, PullNotification}
use llama_labels.State.Persist.{Io, apply_state_file, to_file, load_pull, peek}
use llama_labels.State.Queue.{
  enqueued, numbered, trimmed, later_than, max_pull_notifications, pull_notifications_after,
}
use llama_labels.State.Calls.{Call, run, enqueues}
use llama_labels.State.Invariant.{IsClosed, IsSound, peek-IsSound}
use llama_labels.State.Kept.{touched, run-IsSound}

-- The numbers ascend from above `low` to at most `high`.
abbrev pub IsNumbered : ℕ → ℕ → List PullNotification → Type 0
IsNumbered low high [] = Unit
IsNumbered low high (n ∷ queue) = (low < n.seq) × ((n.seq ≤ high) × IsNumbered n.seq high queue)

pub append-IsNumbered :
    (low high : ℕ) (queue : List PullNotification) (n : PullNotification)
    → low ≤ high
    → n.seq ≡ high + 1
    → IsNumbered low high queue
    → IsNumbered low (high + 1) (queue ++ n ∷ [])
append-IsNumbered low high [] n le e h = (omega arith, (omega arith, tt))
append-IsNumbered low high (x ∷ queue) n le e h =
    (h.0, (omega (arith, h.1.0), append-IsNumbered x.seq high queue n h.1.0 e h.1.1))

lower-IsNumbered :
    (low low' high : ℕ) (queue : List PullNotification)
    → low' ≤ low
    → IsNumbered low high queue
    → IsNumbered low' high queue
lower-IsNumbered low low' high [] le h = tt
lower-IsNumbered low low' high (n ∷ queue) le h = (omega (arith, h.0), h.1)

drop-IsNumbered :
    (low high k : ℕ) (queue : List PullNotification)
    → IsNumbered low high queue
    → IsNumbered low high (drop k queue)
drop-IsNumbered low high zero queue h = h
drop-IsNumbered low high (suc k) [] h = tt
drop-IsNumbered low high (suc k) (n ∷ queue) h =
    drop-IsNumbered low high k queue
      (lower-IsNumbered n.seq low high queue (omega (arith, h.0)) h.1.1)

pub trimmed-IsNumbered :
    (low high : ℕ) (queue : List PullNotification)
    → IsNumbered low high queue
    → IsNumbered low high (trimmed queue)
trimmed-IsNumbered low high queue h =
    elim (Bool-cases (ltb max_pull_notifications (length queue))) [
      | inl e ↦ rw e (drop-IsNumbered low high (length queue - 100) queue h)
      | inr e ↦ rw e h
    ]

length-trimmed : (queue : List PullNotification) → length (trimmed queue) ≤ max_pull_notifications
length-trimmed queue = elim (Bool-cases (ltb max_pull_notifications (length queue))) [
  | inl e ↦ rw e (omega (arith, length-drop (length queue - 100) queue))
  | inr e ↦ rw e (ground (arith, e))
]

pub enqueued-IsNumbered :
    (now : ℕ) (n : PullNotification) (m : Memory)
    → IsNumbered 0 m.pull_seq m.pull_notifications
    → IsNumbered 0 (m.pull_seq + 1) (enqueued now n m).pull_notifications
enqueued-IsNumbered now n m h =
    trimmed-IsNumbered 0 (m.pull_seq + 1) _
      (append-IsNumbered 0 m.pull_seq m.pull_notifications _ (omega arith) refl h)

abbrev pub IsQueue : Memory → Type 0
IsQueue m =
    IsNumbered 0 m.pull_seq m.pull_notifications
    × (length m.pull_notifications ≤ max_pull_notifications)

abbrev pub IsQueueOnFile : StateFile → Type 0
IsQueueOnFile sf =
    IsNumbered 0 sf.pull_seq sf.pull_notifications
    × (length sf.pull_notifications ≤ max_pull_notifications)

IsQueue-IsClosed : IsClosed IsQueue IsQueueOnFile
unfolding apply_state_file to_file
IsQueue-IsClosed = record {
  loads = λ now sf m f g. f;
  loads_notifications = λ sf m f g. g;
  loads_devices = λ sf m f g. g;
  loads_pull = λ sf m f g. f;
  saves = λ m g. g;
  cleans = λ m g. g;
}

abbrev AnyCall : Call → Type 0
AnyCall call = Unit

touched-IsQueue :
    (to_lower : String → String) (now : ℕ) (call : Call) (m : Memory)
    → AnyCall call
    → IsQueue m
    → IsQueue (touched to_lower now call m)
touched-IsQueue to_lower now (enqueues n) m any h = (
  enqueued-IsNumbered now n m h.0,
  length-trimmed (m.pull_notifications ++ numbered now (m.pull_seq + 1) n ∷ []),
)
touched-IsQueue to_lower now call m any h = ground arith

-- Past a cursor below all of them, every notification is later.
pub later_than_all :
    (cursor low high : ℕ) (queue : List PullNotification)
    → cursor ≤ low
    → IsNumbered low high queue
    → later_than cursor queue ≡ queue
later_than_all cursor low high [] le h = refl
later_than_all cursor low high (n ∷ queue) le h =
    let rest : later_than cursor queue ≡ queue =
      later_than_all cursor n.seq high queue (omega (arith, h.0)) h.1.1 in
    let first : ltb cursor n.seq ≡ true = ground (arith, h.0) in rw (first, rest) refl

later-IsNumbered :
    (cursor low high : ℕ) (queue : List PullNotification)
    → IsNumbered low high queue
    → IsNumbered cursor high (later_than cursor queue)
later-IsNumbered cursor low high [] h = tt
later-IsNumbered cursor low high (n ∷ queue) h = elim (Bool-cases (ltb cursor n.seq)) [
  | inl e ↦
      let less : cursor < n.seq = ground (arith, e) in
      rw (e, later_than_all cursor n.seq high queue (omega (arith, less)) h.1.1) (less, h.1)
  | inr e ↦ rw e (later-IsNumbered cursor n.seq high queue h.1.1)
]

length-later :
    (cursor : ℕ) (queue : List PullNotification) → length (later_than cursor queue) ≤ length queue
length-later cursor [] = omega arith
length-later cursor (n ∷ queue) = ground (arith, length-later cursor queue)

calls-All : (calls : List (Io × (ℕ × Call))) → All (λ entry. AnyCall entry.1.1) calls
calls-All [] = tt
calls-All (c ∷ calls) = (tt, calls-All calls)

-- From a store whose queue is numbered and within its bound, in memory and on disk: after any calls,
-- whatever the disk does in them, a pull past `cursor` returns at most `max_pull_notifications`
-- notifications, with numbers that ascend strictly from above `cursor` to at most the returned cursor.
pub pulled-IsNumbered :
    (to_lower : String → String) (io : Io) (s : Store) (calls : List (Io × (ℕ × Call))) (cursor : ℕ)
    → IsSound IsQueue IsQueueOnFile s
    → IsNumbered cursor
        (pull_notifications_after io (run to_lower s calls) cursor).0.1
        (pull_notifications_after io (run to_lower s calls) cursor).0.0
      × (length (pull_notifications_after io (run to_lower s calls) cursor).0.0
          ≤ max_pull_notifications)
unfolding pull_notifications_after
pulled-IsNumbered to_lower io s calls cursor h =
    let t = run to_lower s calls in
    let sound =
      peek-IsSound IsQueue IsQueueOnFile load_pull io t (λ sf m f g. f)
        (run-IsSound to_lower IsQueue IsQueueOnFile AnyCall s calls IsQueue-IsClosed
          (touched-IsQueue to_lower) (calls-All calls) h) in
    (
      later-IsNumbered cursor 0 _ _ sound.0.0,
      omega (arith, length-later cursor (peek load_pull io t).memory.pull_notifications, sound.0.1),
    )
