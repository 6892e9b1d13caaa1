-- ===== src/Ui/InSync/Selected.antt =====
-- The tab that is selected has an entry of messages.
use trithemius_p2p.Base.{ℕ, ◌≡◌, refl, sym, ◌∙◌, Text, text_eq, Option, none, some, is_some, true}
use trithemius_p2p.Base.Map.{lookup}
use trithemius_p2p.Subscriptions.Queue.{CircularQueue}
use trithemius_p2p.Subscriptions.{Subscription}
use trithemius_p2p.TopicList.{current}
use trithemius_p2p.TopicList.Select.{current-some}
use trithemius_p2p.TopicList.Membership.{IsAt-contains}
use trithemius_p2p.Engine.Events.{PackageTypes}
use trithemius_p2p.Engine.Run.{Swarm, Engine}
use trithemius_p2p.Ui.{Ui}
use trithemius_p2p.Ui.InSync.{Gossipsub, InSync}

module _ {T : PackageTypes} (S : Swarm T) (Q : CircularQueue) (G : Gossipsub S) where
  known : (o : Option (Subscription Q)) → is_some o ≡ true → (s : Subscription Q) × (o ≡ some s)
  known none h = cc
  known (some s) h = (s, refl)

  -- The topic of the tab that is selected, and its entry.
  pub entry_of :
      (u : Ui T Q) (e : Engine S) {index : ℕ}
      → InSync S Q G (u, e)
      → u.subscription_list.current_index ≡ some index
      → (topic : Text) × (s : Subscription Q) × (current u.subscription_list ≡ some topic)
        × (lookup topic u.subscriptions ≡ some s)
  entry_of u e {index} h selected =
      let (topic, c, at) = current-some u.subscription_list index h.tabs_IsValid selected in
      let (s, found) = known (lookup topic u.subscriptions) (
        h.entries topic
        ∙ sym (h.tabs_of topic)
        ∙ IsAt-contains u.subscription_list.list index at) in
      (topic, s, c, found)
