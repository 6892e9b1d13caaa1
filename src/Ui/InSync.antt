-- ===== src/Ui/InSync.antt =====
-- The tabs, the messages and the engine's gossipsub agree on the topics that are subscribed to.
pub mod Topics
pub mod Network
pub mod Commands
pub mod Changes
pub mod Selected
pub mod Keys
pub mod Events
use trithemius_p2p.Base.{
  ℕ, ◌≡◌, ◌≢◌, refl, sym, ap, ◌∙◌, Text, text_eq, ◌==◌, Bool, true, false, not, ◌||◌, Option, none,
  some, is_some, Eq, ◌⊎◌, inl, inr, Outcome, ok, err, panic, Holds, on_ok-Holds, contains,
  if◌then◌else◌, arith,
}
use trithemius_p2p.Base.Map.{lookup, insert, lookup-insert, lookup-erase}
use trithemius_p2p.Util.{Multiaddr}
use trithemius_p2p.Control.Service.{OnionService}
use trithemius_p2p.Subscriptions.Queue.{CircularQueue}
use trithemius_p2p.Subscriptions.{Subscription, Subscriptions, ChatMessage}
use trithemius_p2p.Subscriptions.Queue
use trithemius_p2p.Subscriptions.Laws
use trithemius_p2p.TopicList.{SubscriptionList}
use trithemius_p2p.TopicList.Membership.{IsDistinct}
use trithemius_p2p.TopicList.Select
use trithemius_p2p.InputLine.{InputLine}
use trithemius_p2p.InputLine.Zipper
use trithemius_p2p.Engine.Events.{PackageTypes}
use trithemius_p2p.Engine.Run.{Swarm, Engine}
use trithemius_p2p.Engine.Ops.{result}
use trithemius_p2p.Ui.Actions.{Action, ◌>>=◌, ◌>>◌, tried}
use trithemius_p2p.Ui.{
  World, UiError, Ui, State, Act, on_ui, ui, on_engine, passing, log_info, log_error,
}

-- What gossipsub documents: it keeps the set of topics that are subscribed to, `subscribe` says
-- whether the topic is new and `unsubscribe` whether it was there, and nothing else changes the set.
pub record Gossipsub {T : PackageTypes} (S : Swarm T) : Type 0 where
  pub joined : S.State → Text → Bool
  pub subscribe_lem :
      (s : S.State) (topic : Text) {b : Bool}
      → (S.subscribe s topic).1 ≡ inr b
      → (b ≡ not (joined s topic))
        × ((t : Text) → joined (S.subscribe s topic).0 t ≡ (joined s t || t == topic))
  pub subscribe_fails :
      (s : S.State) (topic : Text) {x : S.SubscriptionError}
      → (S.subscribe s topic).1 ≡ inl x
      → (t : Text) → joined (S.subscribe s topic).0 t ≡ joined s t
  pub unsubscribe_lem :
      (s : S.State) (topic : Text) {b : Bool}
      → (S.unsubscribe s topic).1 ≡ inr b
      → (b ≡ joined s topic)
        × ((t : Text)
            → joined (S.unsubscribe s topic).0 t ≡ (if t == topic then false else joined s t))
  pub unsubscribe_fails :
      (s : S.State) (topic : Text) {x : S.PublishError}
      → (S.unsubscribe s topic).1 ≡ inl x
      → (t : Text) → joined (S.unsubscribe s topic).0 t ≡ joined s t
  pub publish_keeps :
      (s : S.State) (topic text t : Text) → joined (S.publish s topic text).0 t ≡ joined s t
  pub add_external_address_keeps :
      (s : S.State) (a : Multiaddr) (t : Text) → joined (S.add_external_address s a) t ≡ joined s t
  pub dial_keeps : (s : S.State) (a : Multiaddr) (t : Text) → joined (S.dial s a).0 t ≡ joined s t
  pub listen_on_keeps :
      (s : S.State) (a : Multiaddr) (t : Text) → joined (S.listen_on s a).0 t ≡ joined s t
  pub queue_service_keeps :
      (s : S.State) (o : OnionService) (t : Text) → joined (S.queue_service s o) t ≡ joined s t
  pub bootstrap_keeps : (s : S.State) (t : Text) → joined (S.bootstrap s).0 t ≡ joined s t
  pub register_keeps :
      (s : S.State) (n : T.Namespace) (p : T.PeerId) (t : Text)
      → joined (S.register s n p) t ≡ joined s t
  pub discover_keeps :
      (s : S.State) (n : Option T.Namespace) (c : Option T.Cookie) (l : Option ℕ) (p : T.PeerId)
      (t : Text)
      → joined (S.discover s n c l p) t ≡ joined s t
  pub get_closest_peers_keeps :
      (s : S.State) (p : T.PeerId) (t : Text) → joined (S.get_closest_peers s p).0 t ≡ joined s t
  pub addresses_of_peer_keeps :
      (s : S.State) (p : T.PeerId) (t : Text) → joined (S.addresses_of_peer s p).0 t ≡ joined s t

-- A topic has a tab exactly if it has an entry of messages, and exactly if gossipsub has joined it;
-- an entry is of its own topic, no topic has two tabs, and the tab and the cursor are in range.
pub record Agree (Q : CircularQueue) (joined : Text → Bool) (subscriptions : Subscriptions Q)
    (tabs : SubscriptionList) (line : InputLine) : Type 0 where
  pub entries : (t : Text) → is_some (lookup t subscriptions) ≡ joined t
  pub own_topic :
      (t : Text) (entry : Subscription Q) → lookup t subscriptions ≡ some entry → entry.topic ≡ t
  pub tabs_of : (t : Text) → contains tabs.list t ≡ joined t
  pub tabs_IsDistinct : IsDistinct tabs.list
  pub tabs_IsValid : Select.IsValid tabs
  pub line_IsValid : Zipper.IsValid line

module _ {T : PackageTypes} (S : Swarm T) (Q : CircularQueue) (G : Gossipsub S) where
  abbrev pub InSync : Ui T Q × Engine S → Type 0
  InSync (u, e) = Agree Q (G.joined e.swarm) u.subscriptions u.subscription_list u.line

  -- The program after a method: in sync again, unless it has panicked.
  abbrev pub Kept : {E A : Type 0} → (Ui T Q × Engine S) × Outcome E A → Type 0
  Kept r = Holds InSync r

  pub record Keeps {E A : Type 0} (m : Action (Ui T Q × Engine S) E A) : Type 0 where
    pub kept : (s : Ui T Q × Engine S) → InSync s → Kept (m s)

  pub >>=-Keeps :
      {E A B : Type 0} {m : Action (Ui T Q × Engine S) E A} {k : A → Action (Ui T Q × Engine S) E B}
      → Keeps m
      → ((a : A) → Keeps (k a))
      → Keeps (m >>= k)
  >>=-Keeps {m = m} {k = k} h g = record {
    kept = λ s i. on_ok-Holds InSync (m s) (λ s a. k a s) (h.kept s i) λ s a j. (g a).kept s j;
  }

  pub >>-Keeps :
      {E A B : Type 0} {m : Action (Ui T Q × Engine S) E A} {k : Action (Ui T Q × Engine S) E B}
      → Keeps m
      → Keeps k
      → Keeps (m >> k)
  >>-Keeps h g = >>=-Keeps h λ _. g

  pub Agree-joined :
      {f g : Text → Bool} {m : Subscriptions Q} {l : SubscriptionList} {i : InputLine}
      → Agree Q f m l i
      → ((t : Text) → g t ≡ f t)
      → Agree Q g m l i
  Agree-joined h q = record {
    entries = λ t. h.entries t ∙ sym (q t);
    own_topic = h.own_topic;
    tabs_of = λ t. h.tabs_of t ∙ sym (q t);
    tabs_IsDistinct = h.tabs_IsDistinct;
    tabs_IsValid = h.tabs_IsValid;
    line_IsValid = h.line_IsValid;
  }
