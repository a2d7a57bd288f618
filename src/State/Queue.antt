-- ===== src/State/Queue.antt =====
-- state/store.go: the delivery mode, and the queue of notifications that the app pulls.
pub mod Numbered
pub mod Delivery
use llama_labels.Common.{
  ℕ, ◌+◌, ◌-◌, String, true, Option, List, [], ◌∷◌, ◌++◌, ltb, if◌then◌else◌, keep, length, drop,
}
use llama_labels.State.{stamp, is_blank, PullNotification, Memory, Store, Error}
use llama_labels.State.Persist.{Io, save, update, load_pull, peek, normalize_delivery_mode}

abbrev pub max_pull_notifications : ℕ
max_pull_notifications = 100

unfoldable pub native_delivery_mode : Io → Store → String × Store
native_delivery_mode io s =
    let s' = peek load_pull io s in (normalize_delivery_mode s'.memory.native_delivery_mode, s')

unfoldable pub set_native_delivery_mode :
    Io → ℕ → Store → String → (Unit {0} × Option Error) × Store
set_native_delivery_mode io now s mode = update io now s tt (λ m.
    save tt tt
      (record m { native_delivery_mode = normalize_delivery_mode mode; pull_dirty = true }))

-- The notification with the next number and a time.
abbrev pub numbered : ℕ → ℕ → PullNotification → PullNotification
numbered now seq n = record n {
  seq = seq;
  created_at = if is_blank n.created_at then stamp now else n.created_at;
}

-- The last `max_pull_notifications` of the queue.
abbrev pub trimmed : List PullNotification → List PullNotification
trimmed queue =
    if ltb max_pull_notifications (length queue)
    then drop (length queue - max_pull_notifications) queue
    else queue

abbrev pub enqueued : ℕ → PullNotification → Memory → Memory
enqueued now n m = record m {
  pull_seq = m.pull_seq + 1;
  pull_notifications = trimmed (m.pull_notifications ++ numbered now (m.pull_seq + 1) n ∷ []);
  pull_dirty = true;
}

unfoldable pub enqueue_pull_notification :
    Io → ℕ → Store → PullNotification → (Unit {0} × Option Error) × Store
enqueue_pull_notification io now s n = update io now s tt (λ m. save tt tt (enqueued now n m))

abbrev pub later_than : ℕ → List PullNotification → List PullNotification
later_than cursor queue = keep (λ n. ltb cursor n.seq) queue

unfoldable pub pull_notifications_after : Io → Store → ℕ → (List PullNotification × ℕ) × Store
pull_notifications_after io s cursor =
    let s' = peek load_pull io s in
    ((later_than cursor s'.memory.pull_notifications, s'.memory.pull_seq), s')
