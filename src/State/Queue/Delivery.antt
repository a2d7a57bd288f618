-- ===== src/State/Queue/Delivery.antt =====
-- What is queued is delivered: once, in order, to a client that keeps its cursor.
use llama_labels.Common.{
  ℕ, zero, suc, ◌+◌, ◌-◌, ◌≤◌, ◌<◌, ◌≡◌, refl, sym, ◌∙◌, true, List, [], ◌∷◌, ◌++◌, arith, ltb,
  length, drop, length-append, ap, Bool-cases, inl, inr,
}
use mathlib.Core.List.{append-nil, append_assoc}
use llama_labels.Disk.{holds}
use llama_labels.State.{Memory, StateFile, Store, PullNotification}
use llama_labels.State.Persist.{Io, done, apply_state_file, to_file, update, refresh_state, persist}
use llama_labels.State.Queue.{
  enqueued, numbered, trimmed, later_than, max_pull_notifications, pull_notifications_after,
  enqueue_pull_notification,
}
use llama_labels.State.Queue.Numbered.{
  IsNumbered, later_than_all, enqueued-IsNumbered, append-IsNumbered,
}

abbrev pub good_disk : Io
good_disk = record { can_read = true; write = done }

-- Notifications queued at their times, on a disk that works.
abbrev pub enqueue_all : Store → List (ℕ × PullNotification) → Store
enqueue_all s [] = s
enqueue_all s ((now, n) ∷ rest) = enqueue_all (enqueue_pull_notification good_disk now s n).1 rest

-- The same notifications as they are to be delivered, numbered from above `seq`.
abbrev pub deliveries : ℕ → List (ℕ × PullNotification) → List PullNotification
deliveries seq [] = []
deliveries seq ((now, n) ∷ rest) = numbered now (seq + 1) n ∷ deliveries (seq + 1) rest

later-append :
    (cursor : ℕ) (queue : List PullNotification) (n : PullNotification)
    → cursor < n.seq
    → later_than cursor (queue ++ n ∷ []) ≡ later_than cursor queue ++ n ∷ []
later-append cursor [] n h = ground arith
later-append cursor (x ∷ queue) n h = ground (arith, later-append cursor queue n h)

-- Dropping from the front does not reach what is past the cursor.
later-drop :
    (cursor low high k : ℕ) (queue : List PullNotification)
    → IsNumbered low high queue
    → k + length (later_than cursor queue) ≤ length queue
    → later_than cursor (drop k queue) ≡ later_than cursor queue
later-drop cursor low high zero queue h le = refl
later-drop cursor low high (suc k) [] h le = refl
later-drop cursor low high (suc k) (n ∷ queue) h le = elim (Bool-cases (ltb cursor n.seq)) [
  | inl e ↦
      let all : later_than cursor queue ≡ queue =
        later_than_all cursor n.seq high queue (ground (arith, e)) h.1.1 in
      absurd (ground (arith, e, ap length all))
  | inr e ↦ rw e (later-drop cursor n.seq high k queue h.1.1 (ground (arith, e)))
]

later-trimmed :
    (cursor high : ℕ) (queue : List PullNotification)
    → IsNumbered 0 high queue
    → length (later_than cursor queue) ≤ max_pull_notifications
    → later_than cursor (trimmed queue) ≡ later_than cursor queue
later-trimmed cursor high queue h le =
    elim (Bool-cases (ltb max_pull_notifications (length queue))) [
      | inl e ↦ rw e (later-drop cursor 0 high (length queue - 100) queue h (ground (arith, e)))
      | inr e ↦ rw e refl
    ]

later-enqueued :
    (cursor now : ℕ) (n : PullNotification) (m : Memory)
    → IsNumbered 0 m.pull_seq m.pull_notifications
    → cursor ≤ m.pull_seq
    → length (later_than cursor m.pull_notifications) < max_pull_notifications
    → later_than cursor (enqueued now n m).pull_notifications
      ≡ later_than cursor m.pull_notifications ++ numbered now (m.pull_seq + 1) n ∷ []
later-enqueued cursor now n m h le few =
    let x = numbered now (m.pull_seq + 1) n in
    let queue = m.pull_notifications ++ x ∷ [] in
    let grown : later_than cursor queue ≡ later_than cursor m.pull_notifications ++ x ∷ [] =
      later-append cursor m.pull_notifications x (omega (arith, le)) in
    later-trimmed cursor (m.pull_seq + 1) queue
      (append-IsNumbered 0 m.pull_seq m.pull_notifications x (omega arith) refl h)
      (rw (grown, length-append (later_than cursor m.pull_notifications) (x ∷ []))
        (omega (arith, few)))
    ∙ grown

-- A notification that is queued on a working disk stands in state.json.
enqueued_file :
    (now : ℕ) (n : PullNotification) (s : Store) (sf : StateFile)
    → s.file ≡ holds sf
    → (enqueue_pull_notification good_disk now s n).1.file
      ≡ holds (to_file (enqueued now n (apply_state_file now sf s.memory)))
unfolding enqueue_pull_notification update refresh_state persist
enqueued_file now n s sf e = rw e refl

pull_file :
    (s : Store) (sf : StateFile) (cursor : ℕ)
    → s.file ≡ holds sf
    → (pull_notifications_after good_disk s cursor).0
      ≡ (later_than cursor sf.pull_notifications, sf.pull_seq)
unfolding pull_notifications_after
pull_file s sf cursor e = rw e refl

-- Past a cursor at or above the highest number, nothing is later.
later_than_none :
    (cursor low high : ℕ) (queue : List PullNotification)
    → high ≤ cursor
    → IsNumbered low high queue
    → later_than cursor queue ≡ []
later_than_none cursor low high [] le h = refl
later_than_none cursor low high (n ∷ queue) le h =
    ground (arith, h.1.0, later_than_none cursor n.seq high queue le h.1.1)

pair_eq : {A B : Type 0} {a a' : A} {b b' : B} → a ≡ a' → b ≡ b' → ◌≡◌ {A = A × B} (a, b) (a', b')
pair_eq e f = cc

pull-enqueue_all :
    (cursor : ℕ) (s : Store) (sf : StateFile) (ns : List (ℕ × PullNotification))
    → s.file ≡ holds sf
    → IsNumbered 0 sf.pull_seq sf.pull_notifications
    → cursor ≤ sf.pull_seq
    → length (later_than cursor sf.pull_notifications) + length ns ≤ max_pull_notifications
    → (pull_notifications_after good_disk (enqueue_all s ns) cursor).0 ≡ (
      later_than cursor sf.pull_notifications ++ deliveries sf.pull_seq ns,
      sf.pull_seq + length ns,
    )
unfolding apply_state_file to_file
pull-enqueue_all cursor s sf [] e h le few =
    pull_file s sf cursor e
    ∙ pair_eq (sym (append-nil (later_than cursor sf.pull_notifications))) (omega arith)
pull-enqueue_all cursor s sf ((now, n) ∷ ns) e h le few =
    let m = apply_state_file now sf s.memory in
    let step : later_than cursor (enqueued now n m).pull_notifications
        ≡ later_than cursor sf.pull_notifications ++ numbered now (sf.pull_seq + 1) n ∷ [] =
      later-enqueued cursor now n m h le (omega (arith, few)) in
    pull-enqueue_all cursor (enqueue_pull_notification good_disk now s n).1
      (to_file (enqueued now n m)) ns (enqueued_file now n s sf e) (enqueued-IsNumbered now n m h)
      (omega (arith, le))
      (rw
        (
          step,
          length-append (later_than cursor sf.pull_notifications)
              (numbered now (sf.pull_seq + 1) n ∷ []),
        )
        (omega (arith, few)))
    ∙ pair_eq
        (rw step (
          append_assoc (later_than cursor sf.pull_notifications)
            (numbered now (sf.pull_seq + 1) n ∷ []) (deliveries (sf.pull_seq + 1) ns)))
        (omega arith)

-- From a state.json with a numbered queue: after at most `max_pull_notifications` notifications are
-- queued on a working disk, a pull past the cursor that stood before them returns exactly these, in
-- order, with consecutive numbers from that cursor, and the cursor behind the last of them.
pub queued-delivered :
    (s : Store) (sf : StateFile) (ns : List (ℕ × PullNotification))
    → s.file ≡ holds sf
    → IsNumbered 0 sf.pull_seq sf.pull_notifications
    → length ns ≤ max_pull_notifications
    → (pull_notifications_after good_disk (enqueue_all s ns) sf.pull_seq).0
      ≡ (deliveries sf.pull_seq ns, sf.pull_seq + length ns)
queued-delivered s sf ns e h few =
    let none_later : later_than sf.pull_seq sf.pull_notifications ≡ [] =
      later_than_none sf.pull_seq 0 sf.pull_seq sf.pull_notifications (omega arith) h in
    pull-enqueue_all sf.pull_seq s sf ns e h (omega arith) (rw none_later (omega (arith, few)))
    ∙ rw none_later refl
