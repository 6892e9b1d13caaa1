-- ===== src/Terminal/Progress.antt =====
-- The loop goes on: a turn without a command neither panics nor fails nor runs out of fuel.
use trithemius_p2p.Base.{
  ℕ, suc, ◌≤◌, ◌≡◌, refl, true, Option, none, some, [], Eq, Outcome, ok, ◌⊎◌, inl, inr, on_ok,
  length,
}
use trithemius_p2p.Base.Map.{lookup, erase}
use trithemius_p2p.Transports.Tor.{multiaddr_eq}
use trithemius_p2p.Subscriptions.Queue.{CircularQueue}
use trithemius_p2p.Engine.Events.{PackageTypes, EngineEvent, kad_outbound_query_completed}
use trithemius_p2p.Engine.Run.{
  Swarm, Engine, InputEvent, message, shutdown, Turn, turn, on_input, on_arrived, Arrived, input,
  swarm_event, published, after_input, found_peer, then_drain, goes_on, stops, SwarmCase, listening,
  query_ended, passed_on, swarm_case, on_case, on_swarm_event, deliver,
}
use trithemius_p2p.Engine.Queue.{see_all, drain_all}
use trithemius_p2p.Ui.{World, UiError}
use trithemius_p2p.Ui.Keys.{Event}
use trithemius_p2p.Ui.InSync.{Gossipsub, InSync}
use trithemius_p2p.Ui.InSync.Keys.{NoCommand, handle_input_event-Succeeds}
use trithemius_p2p.Terminal.{Packages}
use trithemius_p2p.Terminal.Handler.{MyHandler, handle_input, my_handler}
use trithemius_p2p.Terminal.Chat.{observes}

module _ {T : PackageTypes} (S : Swarm T) (Q : CircularQueue) (W : World S) (P : Packages S Q)
    (G : Gossipsub S) ⦃peer_eq : Eq T.PeerId⦄ ⦃query_eq : Eq T.QueryId⦄ where
  -- Something that arrives without a fault and enters no command.
  abbrev pub IsPlainItem : Arrived S (my_handler S Q W P) → MyHandler S Q W P → Type 0
  IsPlainItem (input (inl x)) h = ⊥
  IsPlainItem (input (inr event)) h = NoCommand S Q W G event h.ui.line
  IsPlainItem (swarm_event event) h = Unit

  -- A turn has ended as it should: the loop goes on with an empty queue, or it was told to stop.
  pub record Proceeds
      (r : (MyHandler S Q W P × Engine S) × Outcome (UiError S) (Turn S (my_handler S Q W P)))
      : Type 0 where
    pub after : MyHandler S Q W P × Engine S
    pub how : (r ≡ (after, ok goes_on)) × (after.1.event_queue ≡ []) ⊎ (r ≡ (after, ok stops))

  drained_all :
      (fuel : ℕ) (he : MyHandler S Q W P × Engine S)
      → suc (length he.1.event_queue) ≤ fuel
      → Proceeds (then_drain S (my_handler S Q W P) fuel he true)
  drained_all fuel (h, e) le =
      let d = drain_all S (my_handler S Q W P) (observes S Q W P G) fuel h e le in
      record {
        after = (
          see_all S (my_handler S Q W P) (observes S Q W P G) h e.event_queue,
          record e { event_queue = [] },
        );
        how = inl (rw d refl, refl);
      }

  published_engine :
      (h : MyHandler S Q W P) (e : Engine S) (r : S.State × (S.PublishError ⊎ T.MessageId))
      → (published S (my_handler S Q W P) h e r).1.event_queue ≡ e.event_queue
  published_engine h e (swarm, inl x) = refl
  published_engine h e (swarm, inr id) = refl

  after_any :
      (fuel : ℕ) (h : MyHandler S Q W P) (e : Engine S) (o : Option InputEvent)
      → suc (length e.event_queue) ≤ fuel
      → Proceeds (
          on_ok
            (after_input S (my_handler S Q W P) (h, e) o)
            (then_drain S (my_handler S Q W P) fuel))
  after_any fuel h e none le = drained_all fuel (h, e) le
  after_any fuel h e (some shutdown) le = record { after = (h, e); how = inr refl }
  after_any fuel h e (some (message topic text)) le =
      drained_all fuel (published S (my_handler S Q W P) h e (S.publish e.swarm topic text))
        (rw (published_engine h e (S.publish e.swarm topic text)) le)

  on_event :
      (fuel : ℕ) (event : Event) (h : MyHandler S Q W P) (e : Engine S)
      → NoCommand S Q W G event h.ui.line
      → InSync S Q G (h.ui, e)
      → suc (length e.event_queue) ≤ fuel
      → Proceeds (
          on_ok
            (on_arrived S (my_handler S Q W P) (h, e) (input (inr event)))
            (then_drain S (my_handler S Q W P) fuel))
  unfolding on_input handle_input
  on_event fuel event h e n i le =
      let s = handle_input_event-Succeeds S Q W G event h.ui e n i in
      rw s.done
        (after_any fuel (record h { ui = s.state.0 }) s.state.1 s.value (rw s.same_engine le))

  found_peer_ends :
      (o : Option T.PeerId) (h : MyHandler S Q W P) (e : Engine S)
      → (he : MyHandler S Q W P × Engine S) × (found_peer S (my_handler S Q W P) o (h, e)
          ≡ (he, ok tt))
        × (he.1.event_queue ≡ e.event_queue)
  found_peer_ends none h e = ((h, e), refl, refl)
  found_peer_ends (some peer) h e = (_, refl, refl)

  on_case_ends :
      (h : MyHandler S Q W P) (e : Engine S) (c : SwarmCase S (my_handler S Q W P))
      → (he : MyHandler S Q W P × Engine S) × (on_case S (my_handler S Q W P) (h, e) c
          ≡ (he, ok tt))
        × (he.1.event_queue ≡ e.event_queue)
  on_case_ends h e (listening id address) = (_, refl, refl)
  on_case_ends h e (query_ended id result stats) =
      let (he, done, same) =
        found_peer_ends (lookup id e.query_map) h (record e { query_map = erase id e.query_map }) in
      (
        (deliver S (my_handler S Q W P) he (kad_outbound_query_completed id result stats)).0,
        rw done refl,
        same,
      )
  on_case_ends h e (passed_on event) = (_, refl, refl)

  on_swarm :
      (fuel : ℕ) (event : EngineEvent T) (h : MyHandler S Q W P) (e : Engine S)
      → suc (length e.event_queue) ≤ fuel
      → Proceeds (
          on_ok
            (on_arrived S (my_handler S Q W P) (h, e) (swarm_event event))
            (then_drain S (my_handler S Q W P) fuel))
  unfolding on_swarm_event
  on_swarm fuel event h e le =
      let (he, done, same) = on_case_ends h e (swarm_case S (my_handler S Q W P) event) in
      rw done (drained_all fuel he (rw same le))

  -- Where the parts agree, the screen is drawn, and there is fuel for one step more than there are
  -- queued events, a turn for an event of the terminal that enters no command, or for any event of
  -- the swarm, neither panics nor fails nor runs out of fuel: the loop stops, or it goes on and no
  -- event is queued any more.
  pub turn-Proceeds :
      (fuel : ℕ) (arrived : Arrived S (my_handler S Q W P)) (h : MyHandler S Q W P) (e : Engine S)
      {renderer : P.Renderer}
      → InSync S Q G (h.ui, e)
      → P.render h.renderer h.ui ≡ (renderer, inr tt)
      → IsPlainItem arrived h
      → suc (length e.event_queue) ≤ fuel
      → Proceeds (turn S (my_handler S Q W P) fuel arrived (h, e))
  unfolding turn
  turn-Proceeds fuel (input (inl x)) h e i r n le = absurd n
  turn-Proceeds fuel (input (inr event)) h e {renderer} i r n le =
      rw r (on_event fuel event (record h { renderer = renderer }) e n i le)
  turn-Proceeds fuel (swarm_event event) h e {renderer} i r n le =
      rw r (on_swarm fuel event (record h { renderer = renderer }) e le)
