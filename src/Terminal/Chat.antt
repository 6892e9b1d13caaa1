-- ===== src/Terminal/Chat.antt =====
-- A message on its way: from the input line to gossipsub, and from gossipsub to the queue of its
-- topic.
use trithemius_p2p.Base.{
  ℕ, suc, ◌+◌, ◌≤◌, ◌≡◌, refl, ◌∙◌, Text, text_eq, true, false, Option, none, some, is_some, [], Eq,
  ok, inl, inr, sym, Option-cases, length, is_empty, strip_char, arith,
}
use mathlib.Core.Path.{subst}
use mathlib.Core.Option.{some-injective}
use trithemius_p2p.Base.Map.{lookup, insert}
use trithemius_p2p.Transports.Tor.{multiaddr_eq}
use trithemius_p2p.Subscriptions.Queue.{CircularQueue}
use trithemius_p2p.Subscriptions.{Subscription, ChatMessage, push_message}
use trithemius_p2p.TopicList.{SubscriptionList, current}
use trithemius_p2p.InputLine.{InputLine, reset_input}
use trithemius_p2p.Engine.Events.{PackageTypes, EngineEvent}
use trithemius_p2p.Engine.Events
use trithemius_p2p.Engine.Run.{Swarm, Engine, message, turn, input, goes_on, on_input}
use trithemius_p2p.Engine.Queue.{IsObserver, see_all, drain_all}
use trithemius_p2p.Ui.{World, Ui}
use trithemius_p2p.Ui.Keys.{key, enter, KeyModifiers, handle_input_event, handle_key, enter_key}
use trithemius_p2p.Ui.InSync.{Gossipsub, InSync}
use trithemius_p2p.Ui.InSync.Changes.{Agree-line}
use trithemius_p2p.Ui.InSync.Keys.{sent_from, send_message_lem}
use trithemius_p2p.Terminal.{Packages}
use trithemius_p2p.Terminal.Events.{see, receive, react, reaction}
use trithemius_p2p.Terminal.Handler.{MyHandler, handle_input, my_handler}

module _ {T : PackageTypes} (S : Swarm T) (Q : CircularQueue) (W : World S) (P : Packages S Q)
    (G : Gossipsub S) ⦃peer_eq : Eq T.PeerId⦄ ⦃query_eq : Eq T.QueryId⦄ where
  -- No event makes the terminal's handler fail or change the engine.
  abbrev pub observes : IsObserver (my_handler S Q W P)
  observes = record {
    see = λ h event. record h { ui = see S Q W P h.ui event };
    handle_event_see = λ h e event. refl;
  }

  abbrev pub cleared : Ui T Q → Ui T Q
  cleared u = record u { line = record { input = []; input_cursor = 0 } }

  pub reset_full :
      (l : InputLine)
      → is_empty l.input ≡ false
      → reset_input l ≡ (record { input = []; input_cursor = 0 }, some l.input)
  unfolding reset_input
  reset_full l h = rw h refl

  -- Where the parts agree and a tab is selected, Enter on a line that is not empty and no command
  -- clears it and sends its text to the topic of the tab.
  pub enter_sends :
      (k : KeyModifiers) (u : Ui T Q) (e : Engine S) {index : ℕ}
      → InSync S Q G (u, e)
      → u.subscription_list.current_index ≡ some index
      → is_empty u.line.input ≡ false
      → strip_char b'/' u.line.input ≡ none
      → (topic : Text) × (s : Subscription Q) × (current u.subscription_list ≡ some topic)
        × (lookup topic u.subscriptions ≡ some s)
        × (handle_input_event S Q W (key enter k) (u, e) ≡ (
          (sent_from S Q W G (cleared u) topic s u.line.input, e),
          ok (some (message topic (W.into_bytes u.line.input))),
        ))
  unfolding handle_input_event handle_key enter_key
  enter_sends k u e h selected full text =
      let (topic, s, c, found, done, _) =
        send_message_lem S Q W G (cleared u) e u.line.input (Agree-line h (omega arith)) selected in
      (topic, s, c, found, rw (reset_full u.line full) (rw text done))

  selected_index :
      (tabs : SubscriptionList) {topic : Text}
      → current tabs ≡ some topic
      → (index : ℕ) × (tabs.current_index ≡ some index)
  unfolding current
  selected_index tabs {topic} h = elim (Option-cases tabs.current_index) [
    | inl missing ↦ cc (rw (missing, current) at h)
    | inr found ↦ found
  ]

  enter_sends_to :
      (k : KeyModifiers) (u : Ui T Q) (e : Engine S) {topic : Text}
      → InSync S Q G (u, e)
      → current u.subscription_list ≡ some topic
      → is_empty u.line.input ≡ false
      → strip_char b'/' u.line.input ≡ none
      → (s : Subscription Q) × (lookup topic u.subscriptions ≡ some s)
        × (handle_input_event S Q W (key enter k) (u, e) ≡ (
          (sent_from S Q W G (cleared u) topic s u.line.input, e),
          ok (some (message topic (W.into_bytes u.line.input))),
        ))
  enter_sends_to k u e {topic} h c full text =
      let (index, selected) = selected_index u.subscription_list c in
      let (topic', s, c', found, done) = enter_sends k u e h selected full text in
      subst
        (λ x.
          (s : Subscription Q) × (lookup x u.subscriptions ≡ some s)
          × (handle_input_event S Q W (key enter k) (u, e) ≡ (
            (sent_from S Q W G (cleared u) x s u.line.input, e),
            ok (some (message x (W.into_bytes u.line.input))),
          )))
        (some-injective _ _ (sym c' ∙ c)) (s, found, done)

  -- Where the parts agree, a tab is selected, the screen is drawn, the line is neither empty nor a
  -- command, publishing it on the topic of the tab succeeds, and there is fuel for one step more
  -- than there are queued events, one turn of the loop at an Enter publishes the line's bytes
  -- once, on that topic; the text stands in that topic's queue, the line is empty, the queued
  -- events are handled, and the loop goes on.
  pub enter_publishes :
      (fuel : ℕ) (k : KeyModifiers) (h : MyHandler S Q W P) (e : Engine S) (topic : Text)
      {renderer : P.Renderer} {swarm : S.State} {id : T.MessageId}
      → InSync S Q G (h.ui, e)
      → P.render h.renderer h.ui ≡ (renderer, inr tt)
      → current h.ui.subscription_list ≡ some topic
      → is_empty h.ui.line.input ≡ false
      → strip_char b'/' h.ui.line.input ≡ none
      → suc (length e.event_queue) ≤ fuel
      → S.publish e.swarm topic (W.into_bytes h.ui.line.input) ≡ (swarm, inr id)
      → (s : Subscription Q) × (lookup topic h.ui.subscriptions ≡ some s)
        × (turn S (my_handler S Q W P) fuel (input (inr (key enter k))) (h, e) ≡ (
          (
            see_all S
                (my_handler S Q W P)
                observes
                (record {
                  ui = sent_from S Q W G (cleared h.ui) topic s h.ui.line.input;
                  renderer = renderer;
                })
                e.event_queue,
            record e { swarm = swarm; event_queue = [] },
          ),
          ok goes_on,
        ))
  unfolding turn on_input handle_input
  enter_publishes fuel k h e topic {renderer} {swarm} {id} i r c full text le p =
      let (s, found, done) = enter_sends_to k h.ui e i c full text in
      (
        s,
        found,
        rw (r, done)
            (rw p (
              rw
                (drain_all S (my_handler S Q W P) observes fuel
                  (record {
                    ui = sent_from S Q W G (cleared h.ui) topic s h.ui.line.input;
                    renderer = renderer;
                  })
                  (record e { swarm = swarm }) le)
                refl)),
      )

  -- Where the parts agree, a message that gossipsub delivers on a topic that has been joined is
  -- pushed onto the queue of its topic with its sender; nothing else changes but the count of the
  -- readings of the clock.
  pub see-message :
      (peer : T.PeerId) (relay : Option T.PeerId) (topic : T.TopicHash) (id : Option T.MessageId)
      (number : Option ℕ) (text : Text) (u : Ui T Q) (e : Engine S)
      → InSync S Q G (u, e)
      → G.joined e.swarm (P.show_topic topic) ≡ true
      → let m : ChatMessage = record {
        date = W.local_now u.clock_reads;
        topic = P.show_topic topic;
        user = some (S.show_peer peer);
        message = text;
      } in
        (s : Subscription Q) × (lookup (P.show_topic topic) u.subscriptions ≡ some s)
        × (see S Q W P u (Events.message (some peer) relay topic id number text) ≡ record u {
          subscriptions = insert (P.show_topic topic) (push_message Q s m) u.subscriptions;
          clock_reads = u.clock_reads + 1;
        })
  unfolding reaction react receive
  see-message peer relay topic id number text u e i j =
      let (s, found) =
        is_some-some (lookup (P.show_topic topic) u.subscriptions)
          (i.entries (P.show_topic topic) ∙ j) in
      (s, found, rw found refl)
    where
      is_some-some :
          (o : Option (Subscription Q)) → is_some o ≡ true → (s : Subscription Q) × (o ≡ some s)
      is_some-some none h = cc
      is_some-some (some s) h = (s, refl)
