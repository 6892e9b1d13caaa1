-- ===== src/Subscriptions.antt =====
-- src/subscriptions.rs: the messages kept for each topic. `HashMap` is an association list, and the
-- package `circular-queue` is the parameter `Q`.
pub mod Laws
pub mod Queue
mod Tests
use trithemius_p2p.Base.{
  ℕ, Text, text_eq, Option, none, some, Bool, List, [], ◌∷◌, ◌++◌, Outcome, ok, err, is_empty,
}
use trithemius_p2p.Base.Map.{Map, lookup, insert, erase}
use Queue.{CircularQueue}

pub data SubscriptionError : Type 0 where
  no_such_topic : Text → SubscriptionError

-- The date is the local clock's, `DateTime<Local>`.
pub record ChatMessage : Type 0 where
  pub date : ℕ
  pub topic : Text
  pub user : Option Text
  pub message : Text

pub record Subscription (Q : CircularQueue) : Type 0 where
  pub topic : Text
  pub messages : Q.Queue ChatMessage

abbrev pub Subscriptions : CircularQueue → Type 0
Subscriptions Q = Map Text (Subscription Q)

-- The number of messages that a topic keeps.
abbrev pub max_messages : ℕ
max_messages = 200

module _ (Q : CircularQueue) where
  abbrev pub new_subscription : Text → Subscription Q
  new_subscription topic = record { topic = topic; messages = Q.with_capacity max_messages }

  abbrev pub push_message : Subscription Q → ChatMessage → Subscription Q
  push_message s message = record s { messages = Q.push s.messages message }

  unfoldable pub add : Subscriptions Q → Text → Subscriptions Q
  add subscriptions topic = insert topic (new_subscription topic) subscriptions

  -- The new map, and the entry that was removed.
  unfoldable pub remove : Subscriptions Q → Text → Subscriptions Q × Option (Subscription Q)
  remove subscriptions topic = (erase topic subscriptions, lookup topic subscriptions)

  unfoldable pub get : Subscriptions Q → Text → Option (Subscription Q)
  get subscriptions topic = lookup topic subscriptions

  -- `get_mut` and the change made through the reference.
  unfoldable pub add_message :
      Subscriptions Q → Text → ChatMessage → Outcome SubscriptionError (Subscriptions Q)
  add_message subscriptions topic message = elim (lookup topic subscriptions) [
    | some subscription ↦ ok (insert topic (push_message subscription message) subscriptions)
    | none ↦ err (no_such_topic topic)
  ]
