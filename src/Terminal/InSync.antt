-- ===== src/Terminal/InSync.antt =====
-- The whole program keeps the tabs, the messages and gossipsub in agreement: from the start, over
-- every turn of the engine's loop.
use trithemius_p2p.Base.{
  stuck, if◌then◌else◌, ℕ, zero, suc, ◌≡◌, refl, Text, text_eq, Bool, true, false, Option, none,
  some, List, [], ◌∷◌, Eq, Outcome, ok, err, panic, ◌⊎◌, inl, inr, on_ok, Holds, on_ok-Holds,
}
use trithemius_p2p.Base.Map.{lookup, erase}
use trithemius_p2p.Util.{Multiaddr}
use trithemius_p2p.Transports.Tor.{multiaddr_eq}
use trithemius_p2p.Subscriptions.Queue.{CircularQueue}
use trithemius_p2p.Subscriptions.{Subscription, ChatMessage}
use trithemius_p2p.Engine.Events.{
  PackageTypes, EngineEvent, peer_addresses, new_listen_addr, kad_outbound_query_completed,
}
use trithemius_p2p.Engine.Run.{
  Swarm, Engine, InputEvent, message, shutdown, turn, drain, on_swarm_event, on_input, on_arrived,
  Arrived, input, swarm_event, published, after_input, found_peer, then_drain, drained, deliver,
  updated, SwarmCase, listening, query_ended, passed_on, swarm_case, on_case, mapped,
}
use trithemius_p2p.Ui.{World, UiError, Ui, State}
use trithemius_p2p.Ui.Keys.{Event, handle_input_event}
use trithemius_p2p.Ui.InSync.{Gossipsub, InSync, Kept, Agree-joined}
use trithemius_p2p.Ui.InSync.Changes.{Agree-push}
use trithemius_p2p.Ui.InSync.Events.{handle_input_event-Keeps}
use trithemius_p2p.Terminal.{Packages}
use trithemius_p2p.Terminal.Events.{
  Reaction, silent, tells, fails, chat, found, connects, closes, about, reaction, react, receive,
  add_message, info_all, show_found, connected, closed, see,
}
use trithemius_p2p.Terminal.Handler.{MyHandler, handle_input, with_ui, rendered, my_handler}

module _ {T : PackageTypes} (S : Swarm T) (Q : CircularQueue) (W : World S) (P : Packages S Q)
    (G : Gossipsub S) ⦃peer_eq : Eq T.PeerId⦄ ⦃query_eq : Eq T.QueryId⦄ where
  info_all-InSync :
      (addresses : List Multiaddr) (u : Ui T Q) (e : Engine S)
      → InSync S Q G (u, e)
      → InSync S Q G (info_all S Q W P addresses u, e)
  info_all-InSync [] u e h = h
  info_all-InSync (a ∷ addresses) u e h = info_all-InSync addresses _ e h

  show_found-InSync :
      (peer : T.PeerId) (addresses : List Multiaddr) (u : Ui T Q) (e : Engine S)
      → InSync S Q G (u, e)
      → InSync S Q G (show_found S Q W P peer addresses u, e)
  show_found-InSync peer [] u e h = h
  show_found-InSync peer (a ∷ addresses) u e h = info_all-InSync (a ∷ addresses) _ e h

  add_message-InSync :
      (m : ChatMessage) (o : Option (Subscription Q)) (u : Ui T Q) (e : Engine S)
      → lookup m.topic u.subscriptions ≡ o
      → InSync S Q G (u, e)
      → InSync S Q G (add_message S Q W P m o u, e)
  add_message-InSync m none u e k h = h
  add_message-InSync m (some s) u e k h = Agree-push h m.topic s m k

  -- A branch of two states in agreement.
  either :
      (b : Bool) (u v : Ui T Q) (e : Engine S)
      → InSync S Q G (u, e)
      → InSync S Q G (v, e)
      → InSync S Q G (if b then u else v, e)
  either true u v e h k = h
  either false u v e h k = k

  react-InSync :
      (r : Reaction S Q W P) (u : Ui T Q) (e : Engine S)
      → InSync S Q G (u, e)
      → InSync S Q G (react S Q W P r u, e)
  unfolding react receive connected closed
  react-InSync silent u e h = h
  react-InSync (tells text) u e h = h
  react-InSync (fails text) u e h = h
  react-InSync (chat source topic text) u e h =
      add_message-InSync _ (lookup topic u.subscriptions) _ e refl h
  react-InSync (found peer addresses) u e h = show_found-InSync peer addresses u e h
  react-InSync (connects peer endpoint) u e h = either _ _ u e h h
  react-InSync (closes peer endpoint cause) u e h = either _ _ u e h h
  react-InSync (about topic text) u e h = either _ _ u e h h

  -- The handler's interface and the engine are in agreement.
  abbrev pub Agrees : MyHandler S Q W P × Engine S → Type 0
  Agrees (h, e) = InSync S Q G (h.ui, e)

  rendered-Agrees :
      (u : Ui T Q) (r : P.Renderer × (T.IoError ⊎ Unit {0})) (e : Engine S)
      → InSync S Q G (u, e)
      → Holds Agrees (updated S (my_handler S Q W P) (rendered S Q W P u r) e)
  rendered-Agrees u (renderer, inl x) e h = h
  rendered-Agrees u (renderer, inr _) e h = h

  -- An event that is handled, in a state in agreement.
  deliver-Agrees :
      (he : MyHandler S Q W P × Engine S) (event : EngineEvent T)
      → Agrees he
      → Holds Agrees (deliver S (my_handler S Q W P) he event)
  deliver-Agrees (h, e) event i = react-InSync (reaction S Q W P event) h.ui e i

  drain-Agrees :
      (fuel : ℕ) (he : MyHandler S Q W P × Engine S)
      → Agrees he
      → Holds Agrees (drain S (my_handler S Q W P) fuel he)
  unfolding drain
  drain-Agrees zero he i = i
  drain-Agrees (suc fuel) (h, e) i = drain_step h e e.event_queue i λ event events.
      drain-Agrees fuel
        (record h { ui = see S Q W P h.ui event }, record e { event_queue = events })
        (react-InSync (reaction S Q W P event) h.ui e i)
    where
      drain_step :
          (h : MyHandler S Q W P) (e : Engine S) (queue : List (EngineEvent T))
          → InSync S Q G (h.ui, e)
          → ((event : EngineEvent T) (events : List (EngineEvent T))
              → Holds Agrees (
                  drain S
                    (my_handler S Q W P)
                    fuel
                    (record h { ui = see S Q W P h.ui event }, record e { event_queue = events })))
          → Holds Agrees
              (drain S (my_handler S Q W P) (suc fuel) (h, record e { event_queue = queue }))
      drain_step h e [] i k = i
      drain_step h e (event ∷ events) i k = k event events

  found_peer-Agrees :
      (o : Option T.PeerId) (h : MyHandler S Q W P) (e : Engine S)
      → Agrees (h, e)
      → Holds Agrees (found_peer S (my_handler S Q W P) o (h, e))
  found_peer-Agrees none h e i = i
  found_peer-Agrees (some peer) h e i =
      let (swarm, addresses) = S.addresses_of_peer e.swarm peer in
      deliver-Agrees (h, record e { swarm = swarm }) (peer_addresses peer addresses)
        (Agree-joined S Q G i (G.addresses_of_peer_keeps e.swarm peer))

  on_case-Agrees :
      (h : MyHandler S Q W P) (e : Engine S) (c : SwarmCase S (my_handler S Q W P))
      → Agrees (h, e)
      → Holds Agrees (on_case S (my_handler S Q W P) (h, e) c)
  on_case-Agrees h e (listening id address) i =
      let reported = mapped S (my_handler S Q W P) address (lookup address e.listen_address_map) in
      deliver-Agrees (h, record e { swarm = S.add_external_address e.swarm reported })
        (new_listen_addr id reported)
        (Agree-joined S Q G i (G.add_external_address_keeps e.swarm reported))
  on_case-Agrees h e (query_ended id result stats) i =
      let e' : Engine S = record e { query_map = erase id e.query_map } in
      on_ok-Holds Agrees (found_peer S (my_handler S Q W P) (lookup id e.query_map) (h, e'))
        (λ he _. deliver S (my_handler S Q W P) he (kad_outbound_query_completed id result stats))
        (found_peer-Agrees (lookup id e.query_map) h e' i)
        λ he _ j. deliver-Agrees he (kad_outbound_query_completed id result stats) j
  on_case-Agrees h e (passed_on event) i = deliver-Agrees (h, e) event i

  on_swarm_event-Agrees :
      (h : MyHandler S Q W P) (e : Engine S) (event : EngineEvent T)
      → Agrees (h, e)
      → Holds Agrees (on_swarm_event S (my_handler S Q W P) (h, e) event)
  unfolding on_swarm_event
  on_swarm_event-Agrees h e event i = on_case-Agrees h e (swarm_case S (my_handler S Q W P) event) i

  pub with_ui-Agrees :
      {A : Type 0} (renderer : P.Renderer) (r : State S Q W × Outcome (UiError S) A)
      → Kept S Q G r
      → Holds Agrees (with_ui S Q W P renderer r)
  with_ui-Agrees renderer ((u, e), ok a) i = i
  with_ui-Agrees renderer ((u, e), err x) i = i
  with_ui-Agrees renderer ((u, e), panic) i = tt
  with_ui-Agrees renderer ((u, e), stuck) i = i

  handle_input-Agrees :
      (h : MyHandler S Q W P) (e : Engine S) (item : T.IoError ⊎ Event)
      → Agrees (h, e)
      → Holds Agrees (handle_input S Q W P (h, e) item)
  unfolding handle_input
  handle_input-Agrees h e (inl x) i = i
  handle_input-Agrees h e (inr event) i =
      with_ui-Agrees h.renderer (handle_input_event S Q W event (h.ui, e))
        ((handle_input_event-Keeps S Q W G event).kept (h.ui, e) i)

  published-Agrees :
      (h : MyHandler S Q W P) (e : Engine S) (r : S.State × (S.PublishError ⊎ T.MessageId))
      → Agrees (h, e)
      → ((t : Text) → G.joined r.0 t ≡ G.joined e.swarm t)
      → Agrees (published S (my_handler S Q W P) h e r)
  published-Agrees h e (swarm, inl x) i q = Agree-joined S Q G i q
  published-Agrees h e (swarm, inr id) i q = Agree-joined S Q G i q

  after_input-Agrees :
      (h : MyHandler S Q W P) (e : Engine S) (o : Option InputEvent)
      → Agrees (h, e)
      → Holds Agrees (after_input S (my_handler S Q W P) (h, e) o)
  after_input-Agrees h e none i = i
  after_input-Agrees h e (some shutdown) i = i
  after_input-Agrees h e (some (message topic text)) i =
      published-Agrees h e (S.publish e.swarm topic text) i (G.publish_keeps e.swarm topic text)

  on_arrived-Agrees :
      (h : MyHandler S Q W P) (e : Engine S) (arrived : Arrived S (my_handler S Q W P))
      → Agrees (h, e)
      → Holds Agrees (on_arrived S (my_handler S Q W P) (h, e) arrived)
  unfolding on_input
  on_arrived-Agrees h e (input item) i =
      on_ok-Holds Agrees (handle_input S Q W P (h, e) item) (after_input S (my_handler S Q W P))
        (handle_input-Agrees h e item i) λ (h', e') o j. after_input-Agrees h' e' o j
  on_arrived-Agrees h e (swarm_event event) i =
      on_ok-Holds Agrees (on_swarm_event S (my_handler S Q W P) (h, e) event)
        (λ he _. (he, ok true)) (on_swarm_event-Agrees h e event i) λ he _ j. j

  drained-Agrees :
      (he : MyHandler S Q W P × Engine S) (b : Bool)
      → Agrees he
      → Holds Agrees (drained S (my_handler S Q W P) he b)
  drained-Agrees he true i = i
  drained-Agrees he false i = i

  then_drain-Agrees :
      (fuel : ℕ) (he : MyHandler S Q W P × Engine S) (b : Bool)
      → Agrees he
      → Holds Agrees (then_drain S (my_handler S Q W P) fuel he b)
  then_drain-Agrees fuel he true i =
      on_ok-Holds Agrees (drain S (my_handler S Q W P) fuel he) (drained S (my_handler S Q W P))
        (drain-Agrees fuel he i) drained-Agrees
  then_drain-Agrees fuel he false i = i

  -- Whatever arrives, a turn of the loop that does not panic ends with the tabs, the messages and
  -- gossipsub in agreement if it began so, also where it ends in an error.
  pub turn-Agrees :
      (fuel : ℕ) (arrived : Arrived S (my_handler S Q W P)) (h : MyHandler S Q W P) (e : Engine S)
      → Agrees (h, e)
      → Holds Agrees (turn S (my_handler S Q W P) fuel arrived (h, e))
  unfolding turn
  turn-Agrees fuel arrived h e i =
      on_ok-Holds Agrees
        (updated S (my_handler S Q W P) (rendered S Q W P h.ui (P.render h.renderer h.ui)) e)
        (λ he _.
          on_ok (on_arrived S (my_handler S Q W P) he arrived)
            (then_drain S (my_handler S Q W P) fuel))
        (rendered-Agrees h.ui (P.render h.renderer h.ui) e i)
        λ (h', e') _ j.
          on_ok-Holds Agrees (on_arrived S (my_handler S Q W P) (h', e') arrived)
            (then_drain S (my_handler S Q W P) fuel) (on_arrived-Agrees h' e' arrived j)
            (then_drain-Agrees fuel)
