-- ===== src/Ui/InSync/Topics.antt =====
-- Subscribing and unsubscribing keep the tabs, the messages and gossipsub in agreement.
use trithemius_p2p.Base.{
  stuck, ◌≡◌, refl, sym, ap, ◌∙◌, Text, text_eq, ◌==◌, Bool, true, false, ◌||◌, Option, none, some,
  Eq, ◌⊎◌, inl, inr, Outcome, ok, err, panic, contains, if◌then◌else◌, arith,
}
use mathlib.Core.Option.{some-injective}
use trithemius_p2p.Base.Map.{lookup, insert, lookup-insert, lookup-erase}
use trithemius_p2p.Subscriptions.Queue.{CircularQueue}
use trithemius_p2p.Subscriptions.{
  SubscriptionError, Subscription, Subscriptions, new_subscription, add, remove,
}
use trithemius_p2p.TopicList
use trithemius_p2p.TopicList.{SubscriptionList}
use trithemius_p2p.TopicList.Membership.{
  unsubscribe_ends, subscribe-IsDistinct, contains-subscribe, contains-swap_remove,
  swap_remove-IsDistinct, unsubscribe-list, unsubscribe_known,
}
use trithemius_p2p.TopicList.Select.{subscribe-IsValid}
use trithemius_p2p.TopicList.Remove.{unsubscribe-IsValid}
use trithemius_p2p.InputLine.{InputLine}
use trithemius_p2p.Engine.Events.{PackageTypes}
use trithemius_p2p.Engine.Run.{Swarm, Engine}
use trithemius_p2p.Engine.Ops.{result, on_swarm}
use trithemius_p2p.Engine.Ops
use trithemius_p2p.Ui.Actions.{tried}
use trithemius_p2p.Ui.{World, UiError, Ui, on_engine}
use trithemius_p2p.Ui.Topics.{
  subscribe, unsubscribe, after_subscribe, after_unsubscribe, after_remove, with_tabs,
}
use trithemius_p2p.Ui.InSync.{Gossipsub, Agree, InSync, Kept, Keeps, Agree-joined}

module _ (Q : CircularQueue) {f g : Text → Bool} {m : Subscriptions Q} {l : SubscriptionList}
    {i : InputLine} (topic : Text) where
  -- A new topic is joined, gets an entry, and gets a tab.
  Agree-add :
      Agree Q f m l i
      → f topic ≡ false
      → ((t : Text) → g t ≡ (f t || t == topic))
      → Agree Q g (add Q m topic) (TopicList.subscribe l topic) i
  unfolding add
  Agree-add h new q = record {
    entries =
        λ t. ground (arith, lookup-insert t topic (new_subscription Q topic) m, h.entries t, q t);
    own_topic = own;
    tabs_of =
        λ t. contains-subscribe l topic t ∙ ap (λ b. b || t == topic) (h.tabs_of t) ∙ sym (q t);
    tabs_IsDistinct = subscribe-IsDistinct l topic h.tabs_IsDistinct (h.tabs_of topic ∙ new);
    tabs_IsValid = subscribe-IsValid l topic;
    line_IsValid = h.line_IsValid;
  }
    where
      own :
          (t : Text) (s : Subscription Q)
          → lookup t (insert topic (new_subscription Q topic) m) ≡ some s
          → s.topic ≡ t
      own t s e = elim (text_eq.dec t topic) [
        | yes same ↦
            let k : some (new_subscription Q topic) ≡ some s =
              ground (arith, lookup-insert t topic (new_subscription Q topic) m) in
            ap (λ r. r.topic) (sym (some-injective _ _ k)) ∙ sym same
        | no differ ↦
            h.own_topic t s (ground (arith, lookup-insert t topic (new_subscription Q topic) m))
      ]

  -- A topic is left, and its entry and its tab go.
  Agree-remove :
      {l' : SubscriptionList}
      → Agree Q f m l i
      → ((t : Text) → g t ≡ (if t == topic then false else f t))
      → TopicList.unsubscribe l topic ≡ ok l'
      → Agree Q g (remove Q m topic).0 l' i
  unfolding remove
  Agree-remove {l'} h q done =
      let (index, at, e) = unsubscribe-list l topic done in
      record {
        entries = λ t. ground (arith, lookup-erase t topic m, h.entries t, q t);
        own_topic = λ t s k. h.own_topic t s (ground (arith, lookup-erase t topic m));
        tabs_of = λ t.
            ap (λ xs. contains xs t) e
            ∙ contains-swap_remove l.list index h.tabs_IsDistinct at t
            ∙ ap (λ b. if t == topic then false else b) (h.tabs_of t)
            ∙ sym (q t);
        tabs_IsDistinct = rw e (swap_remove-IsDistinct l.list index h.tabs_IsDistinct at);
        tabs_IsValid = (unsubscribe-IsValid l topic h.tabs_IsValid done).0;
        line_IsValid = h.line_IsValid;
      }

module _ {T : PackageTypes} (S : Swarm T) (Q : CircularQueue) (W : World S) (G : Gossipsub S)
    ⦃peer_eq : Eq T.PeerId⦄ ⦃query_eq : Eq T.QueryId⦄ where
  -- A call that passes on to the swarm, as a value.
  pub tried_swarm :
      {E A : Type 0} (r : S.State × (E ⊎ A)) (u : Ui T Q) (e : Engine S)
      → tried {E = UiError S} (on_engine S Q W (λ e. on_swarm S e r)) (u, e)
        ≡ ((u, record e { swarm = r.0 }), ok r.1)
  tried_swarm (swarm, inl x) u e = refl
  tried_swarm (swarm, inr a) u e = refl

  after_subscribe-Kept :
      (topic : Text) (r : S.SubscriptionError ⊎ Bool) (u : Ui T Q) (e : Engine S)
      → (S.subscribe e.swarm topic).1 ≡ r
      → InSync S Q G (u, e)
      → Kept S Q G
          (after_subscribe S Q W topic r (u, record e { swarm = (S.subscribe e.swarm topic).0 }))
  after_subscribe-Kept topic (inl x) u e k h =
      Agree-joined S Q G h (G.subscribe_fails e.swarm topic k)
  after_subscribe-Kept topic (inr true) u e k h =
      let (new, q) = G.subscribe_lem e.swarm topic k in Agree-add Q topic h (ground arith) q
  after_subscribe-Kept topic (inr false) u e k h =
      let (old, q) = G.subscribe_lem e.swarm topic k in
      Agree-joined S Q G h λ t. elim (text_eq.dec t topic) [
        | yes same ↦ q t ∙ rw same (ground arith)
        | no differ ↦ q t ∙ ground arith
      ]

  pub subscribe-Keeps : (topic : Text) → Keeps S Q G (subscribe S Q W topic)
  unfolding subscribe Ops.subscribe
  subscribe-Keeps topic = record {
    kept = λ (u, e) h.
        rw (tried_swarm (S.subscribe e.swarm topic) u e)
          (after_subscribe-Kept topic (S.subscribe e.swarm topic).1 u e refl h);
  }

  with_tabs-Kept :
      (topic : Text) (o : Outcome SubscriptionError SubscriptionList) (u u' : Ui T Q)
      (e e' : Engine S)
      → TopicList.unsubscribe u.subscription_list topic ≡ o
      → InSync S Q G (u, e)
      → contains u.subscription_list.list topic ≡ true
      → ((t : Text) → G.joined e'.swarm t ≡ (if t == topic then false else G.joined e.swarm t))
      → u'.subscriptions ≡ (remove Q u.subscriptions topic).0
      → u'.line ≡ u.line
      → Kept S Q G (with_tabs S Q W o (u', e'))
  with_tabs-Kept topic panic u u' e e' k h c q m l = tt
  with_tabs-Kept topic stuck u u' e e' k h c q m l =
      absurd (unsubscribe_ends u.subscription_list topic k)
  with_tabs-Kept topic (ok tabs) u u' e e' k h c q m l = rw (m, l) (Agree-remove Q topic h q k)
  with_tabs-Kept topic (err x) u u' e e' k h c q m l =
      absurd (unsubscribe_known u.subscription_list topic c k)

  after_remove-Kept :
      (topic : Text) (o : Option (Subscription Q)) (u : Ui T Q) (e e' : Engine S)
      → (remove Q u.subscriptions topic).1 ≡ o
      → InSync S Q G (u, e)
      → G.joined e.swarm topic ≡ true
      → ((t : Text) → G.joined e'.swarm t ≡ (if t == topic then false else G.joined e.swarm t))
      → Kept S Q G (
          after_remove S Q W topic o
            (record u { subscriptions = (remove Q u.subscriptions topic).0 }, e'))
  unfolding remove
  after_remove-Kept topic none u e e' k h j q = cc (h.entries topic)
  after_remove-Kept topic (some s) u e e' k h j q =
      with_tabs-Kept topic (TopicList.unsubscribe u.subscription_list topic) u _ e e' refl h
        (h.tabs_of topic ∙ j) q refl refl

  after_unsubscribe-Kept :
      (topic : Text) (r : S.PublishError ⊎ Bool) (u : Ui T Q) (e : Engine S)
      → (S.unsubscribe e.swarm topic).1 ≡ r
      → InSync S Q G (u, e)
      → Kept S Q G (
          after_unsubscribe S Q W topic r (u, record e { swarm = (S.unsubscribe e.swarm topic).0 }))
  after_unsubscribe-Kept topic (inl x) u e k h =
      Agree-joined S Q G h (G.unsubscribe_fails e.swarm topic k)
  after_unsubscribe-Kept topic (inr true) u e k h =
      let (old, q) = G.unsubscribe_lem e.swarm topic k in
      after_remove-Kept topic (remove Q u.subscriptions topic).1 u e
        (record e { swarm = (S.unsubscribe e.swarm topic).0 }) refl h (sym old) q
  after_unsubscribe-Kept topic (inr false) u e k h =
      let (new, q) = G.unsubscribe_lem e.swarm topic k in
      Agree-joined S Q G h λ t. elim (text_eq.dec t topic) [
        | yes same ↦ q t ∙ rw same (ground arith)
        | no differ ↦ q t ∙ ground arith
      ]

  pub unsubscribe-Keeps : (topic : Text) → Keeps S Q G (unsubscribe S Q W topic)
  unfolding unsubscribe Ops.unsubscribe
  unsubscribe-Keeps topic = record {
    kept = λ (u, e) h.
        rw (tried_swarm (S.unsubscribe e.swarm topic) u e)
          (after_unsubscribe-Kept topic (S.unsubscribe e.swarm topic).1 u e refl h);
  }
