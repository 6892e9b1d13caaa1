-- ===== src/Ui/Topics.antt =====
-- The subscriptions of `UI` (src/bin/trithemius-term/ui.rs).
use trithemius_p2p.Base.{
  stuck, Text, codes, Bool, true, false, Option, none, some, ◌++◌, Eq, Outcome, ok, err, panic, ◌⊎◌,
  inl, inr, text_eq,
}
use trithemius_p2p.Subscriptions.Queue.{CircularQueue}
use trithemius_p2p.Subscriptions.{SubscriptionError, Subscription, add, remove}
use trithemius_p2p.TopicList
use trithemius_p2p.TopicList.{SubscriptionList}
use trithemius_p2p.Engine.Events.{PackageTypes}
use trithemius_p2p.Engine.Run.{Swarm}
use trithemius_p2p.Engine.Ops.{ServiceError, Connects}
use trithemius_p2p.Engine.Ops
use trithemius_p2p.Ui.Actions.{waiting, ◌>>=◌, ◌>>◌, panicked, tried}
use trithemius_p2p.Ui.{World, show_no_topic, Act, on_ui, ui, on_engine, log_info, log_error}

module _ {T : PackageTypes} (S : Swarm T) (Q : CircularQueue) (W : World S) ⦃peer_eq : Eq T.PeerId⦄
    ⦃query_eq : Eq T.QueryId⦄ where
  abbrev pub after_subscribe : Text → S.SubscriptionError ⊎ Bool → Act S Q W (Unit {0})
  after_subscribe topic_name (inr true) = do
    on_ui S Q W λ u. record u {
      subscriptions = add Q u.subscriptions topic_name;
      subscription_list = TopicList.subscribe u.subscription_list topic_name;
    }
    log_info S Q W (codes "Subscribed to topic '" ++ (topic_name ++ codes "'"))
  after_subscribe topic_name (inr false) =
      log_info S Q W (codes "Already subscribed to topic '" ++ (topic_name ++ codes "'"))
  after_subscribe topic_name (inl x) = log_error S Q W (
      codes "Error subscribing to topic "
      ++ (topic_name ++ (codes ": " ++ W.show_subscription_error x)))

  unfoldable pub subscribe : Text → Act S Q W (Unit {0})
  subscribe topic_name = do
    result ← tried (on_engine S Q W (Ops.subscribe S topic_name))
    after_subscribe topic_name result

  -- What `SubscriptionList::unsubscribe` gave.
  abbrev pub with_tabs : Outcome SubscriptionError SubscriptionList → Act S Q W (Unit {0})
  with_tabs (ok tabs) = on_ui S Q W λ u. record u { subscription_list = tabs }
  with_tabs (err x) = log_error S Q W (codes "Error unsubscribing: " ++ show_no_topic x)
  with_tabs panic = panicked
  with_tabs stuck = waiting

  -- What `Subscriptions::remove` gave.
  abbrev pub after_remove : Text → Option (Subscription Q) → Act S Q W (Unit {0})
  after_remove topic_name (some removed) = do
    log_info S Q W (codes "Unsubscribed to topic '" ++ (topic_name ++ codes "'"))
    u ← ui S Q W
    with_tabs (TopicList.unsubscribe u.subscription_list topic_name)
  after_remove topic_name none =
      log_error S Q W (codes "Not subscribed to topic '" ++ (topic_name ++ codes "'"))

  abbrev pub after_unsubscribe : Text → S.PublishError ⊎ Bool → Act S Q W (Unit {0})
  after_unsubscribe topic_name (inr true) = do
    u ← ui S Q W
    on_ui S Q W λ u. record u { subscriptions = (remove Q u.subscriptions topic_name).0 }
    after_remove topic_name (remove Q u.subscriptions topic_name).1
  after_unsubscribe topic_name (inr false) =
      log_info S Q W (codes "Not subscribed to topic '" ++ (topic_name ++ codes "'"))
  after_unsubscribe topic_name (inl x) = log_error S Q W (
      codes "Error unsubscribing from topic "
      ++ (topic_name ++ (codes ": " ++ S.show_publish_error x)))

  unfoldable pub unsubscribe : Text → Act S Q W (Unit {0})
  unsubscribe topic_name = do
    result ← tried (on_engine S Q W (Ops.unsubscribe S topic_name))
    after_unsubscribe topic_name result
