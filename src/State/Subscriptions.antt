-- ===== src/State/Subscriptions.antt =====
-- state/store.go: Web Push subscriptions and the subscriber ID.
use llama_labels.Common.{
  ℕ, String, Bool, true, false, Option, none, some, List, [], ◌∷◌, ◌++◌, if◌then◌else◌, ◌==◌,
  find_first, replace_first, drop_first,
}
use llama_labels.State.{NotificationSubscription, Memory, Store, Error, no_entropy}
use llama_labels.State.Persist.{Io, Act, leave, save, update, load_notifications, peek}

abbrev pub has_endpoint : String → NotificationSubscription → Bool
has_endpoint endpoint sub = sub.endpoint == endpoint

unfoldable pub list_notification_subscriptions : Io → Store → List NotificationSubscription × Store
list_notification_subscriptions io s =
    let s' = peek load_notifications io s in (s'.memory.notifications, s')

abbrev pub upserted_in :
    NotificationSubscription
    → List NotificationSubscription
    → Option NotificationSubscription
    → List NotificationSubscription
upserted_in sub subs none = subs ++ sub ∷ []
upserted_in sub subs (some existing) = replace_first (has_endpoint sub.endpoint) sub subs

unfoldable pub upsert_notification_subscription :
    Io → ℕ → Store → NotificationSubscription → (Unit {0} × Option Error) × Store
upsert_notification_subscription io now s sub = update io now s tt (λ m. save tt tt (record m {
  notifications =
      upserted_in sub m.notifications (find_first (has_endpoint sub.endpoint) m.notifications);
  notifications_dirty = true;
}))

abbrev pub removing_in : String → Memory → Option NotificationSubscription → Act Bool
removing_in endpoint m none = leave false none m
removing_in endpoint m (some sub) = save true false (record m {
  notifications = drop_first (has_endpoint endpoint) m.notifications;
  notifications_dirty = true;
})

unfoldable pub remove_notification_subscription :
    Io → ℕ → Store → String → (Bool × Option Error) × Store
remove_notification_subscription io now s endpoint =
    update io now s false
      (λ m. removing_in endpoint m (find_first (has_endpoint endpoint) m.notifications))

-- `uuid` is the fresh UUID, or `none` where the random source fails.
abbrev pub subscribing : Option String → Memory → Act String
subscribing none m =
    if m.subscriber_id == "" then leave "" (some no_entropy) m else leave m.subscriber_id none m
subscribing (some id) m =
    if m.subscriber_id == ""
    then save id "" (record m { subscriber_id = id })
    else leave m.subscriber_id none m

unfoldable pub get_or_create_subscriber_id :
    Io → ℕ → Store → Option String → (String × Option Error) × Store
get_or_create_subscriber_id io now s uuid = update io now s "" (subscribing uuid)
