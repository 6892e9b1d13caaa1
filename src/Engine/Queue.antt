-- ===== src/Engine/Queue.antt =====
-- The engine's queue of events and its queries, for a handler that sees every event and leaves the
-- engine as it is.
use trithemius_p2p.Base.{
  ℕ, zero, suc, ◌≤◌, ◌≡◌, refl, ◌∙◌, Text, true, none, some, List, [], ◌∷◌, ◌++◌, Eq, ==_iff, ok,
  on_ok, length, codes, inl, arith,
}
use trithemius_p2p.Base.Map.{lookup, insert, erase, lookup-insert, lookup-erase}
use trithemius_p2p.Util.{Multiaddr}
use trithemius_p2p.Engine.Events.{
  PackageTypes, EngineEvent, peer_addresses, kad_outbound_query_completed,
}
use trithemius_p2p.Engine.Run.{
  Swarm, Engine, Handler, find_peer, initiating, deliver, drain, on_swarm_event, found_peer, turn,
  input, goes_on, stops, message, shutdown, on_input,
}

-- The handler of the terminal program: no event changes the engine, and none fails.
pub record IsObserver {T : PackageTypes} {S : Swarm T} {Item Error : Type 0}
    (H : Handler S Item Error) : Type 0 where
  pub see : H.State → EngineEvent T → H.State
  pub handle_event_see :
      (h : H.State) (e : Engine S) (event : EngineEvent T)
      → H.handle_event (h, e) event ≡ ((see h event, e), ok none)

module _ {T : PackageTypes} (S : Swarm T) ⦃query_eq : Eq T.QueryId⦄ ⦃addr_eq : Eq Multiaddr⦄
    {Item Error : Type 0} (H : Handler S Item Error) (L : IsObserver H) where
  -- The handler after it has seen a list of events.
  abbrev pub see_all : H.State → List (EngineEvent T) → H.State
  see_all h [] = h
  see_all h (event ∷ events) = see_all (L.see h event) events

  deliver_see :
      (h : H.State) (e : Engine S) (event : EngineEvent T)
      → deliver S H (h, e) event ≡ ((L.see h event, e), ok tt)
  deliver_see h e event = rw (L.handle_event_see h e event) refl

  drain_queue :
      (events : List (EngineEvent T)) (fuel : ℕ) (h : H.State) (e : Engine S)
      → suc (length events) ≤ fuel
      → drain S H fuel (h, record e { event_queue = events })
        ≡ ((see_all h events, record e { event_queue = [] }), ok true)
  unfolding drain
  drain_queue [] zero h e le = ground arith
  drain_queue [] (suc fuel) h e le = refl
  drain_queue (event ∷ events) zero h e le = ground arith
  drain_queue (event ∷ events) (suc fuel) h e le =
      rw (deliver_see h (record e { event_queue = events }) event)
        (drain_queue events fuel (L.see h event) e (omega arith))

  -- For a handler that no event makes fail or change the engine, fuel for one step more than there
  -- are queued events is enough: all of them are delivered in their order, and the queue is empty.
  pub drain_all :
      (fuel : ℕ) (h : H.State) (e : Engine S)
      → suc (length e.event_queue) ≤ fuel
      → drain S H fuel (h, e) ≡ ((see_all h e.event_queue, record e { event_queue = [] }), ok true)
  drain_all fuel h e le = drain_queue e.event_queue fuel h e le

  -- For a handler that no event makes fail or change the engine, the end of a query that is known
  -- is told after the addresses of the peer that it was for, and the query is forgotten.
  pub query_completed :
      (id : T.QueryId) (result : T.QueryResult) (stats : T.QueryStats) (h : H.State) (e : Engine S)
      {peer : T.PeerId}
      → lookup id e.query_map ≡ some peer
      → let after = on_swarm_event S H (h, e) (kad_outbound_query_completed id result stats) in
        let found = S.addresses_of_peer e.swarm peer in
        (after ≡ (
          (
            L.see
                (L.see h (peer_addresses peer found.1))
                (kad_outbound_query_completed id result stats),
            record e { swarm = found.0; query_map = erase id e.query_map },
          ),
          ok tt,
        ))
        × (lookup id after.0.1.query_map ≡ none)
  unfolding on_swarm_event
  query_completed id result stats h e {peer} q =
      let (swarm, addresses) = S.addresses_of_peer e.swarm peer in
      let e1 : Engine S = record e { query_map = erase id e.query_map } in
      rw (q, found_peer)
        (rw (deliver_see h (record e1 { swarm = swarm }) (peer_addresses peer addresses)) (
          rw
            (deliver_see (L.see h (peer_addresses peer addresses)) (record e1 { swarm = swarm })
              (kad_outbound_query_completed id result stats))
            (refl, gone)))
    where
      gone : lookup id (erase id e.query_map) ≡ none
      gone = lookup-erase id id e.query_map ∙ rw ((==_iff id id).1 refl) refl

  -- With Kademlia, an empty queue and a handler that no event makes fail or change the engine, a
  -- lookup of a peer tells the handler that it has started, and when its query ends, first the
  -- peer's addresses and then the end; the query is forgotten and the queue is empty.
  pub find_peer_lem :
      (peer : T.PeerId) (result : T.QueryResult) (stats : T.QueryStats) (h : H.State) (e : Engine S)
      → S.with_kademlia e.swarm ≡ true
      → e.event_queue ≡ []
      → let (swarm, id) = S.get_closest_peers e.swarm peer in
        let (swarm', addresses) = S.addresses_of_peer swarm peer in
        on_ok
          (drain S H 2 (h, find_peer S peer e))
          (λ he _. on_swarm_event S H he (kad_outbound_query_completed id result stats))
        ≡ (
          (
            see_all h (
                initiating S peer
                ∷ peer_addresses peer addresses
                ∷ kad_outbound_query_completed id result stats
                ∷ []),
            record e {
              swarm = swarm';
              query_map = erase id (insert id peer e.query_map);
              event_queue = [];
            },
          ),
          ok tt,
        )
  unfolding find_peer
  find_peer_lem peer result stats h e k q =
      let (swarm, id) = S.get_closest_peers e.swarm peer in
      let e1 : Engine S = record e {
        swarm = swarm;
        event_queue = [];
        query_map = insert id peer e.query_map;
      } in
      rw (k, q)
        (rw (drain_queue (initiating S peer ∷ []) 2 h e1 (omega arith))
          (query_completed id result stats (L.see h (initiating S peer)) e1
            (lookup-insert id id peer e.query_map ∙ rw ((==_iff id id).1 refl) refl)).0)

  -- For a handler that no event makes fail or change the engine, where the update succeeds and the
  -- input is a message that cannot be published, one turn of the loop has the handler show the
  -- error, delivers the queued events, and goes on.
  pub publish_fails :
      (fuel : ℕ) (item : Item) (topic text : Text) (h : H.State) {h' h'' : H.State} (e : Engine S)
      {e' : Engine S} {swarm : S.State} {x : S.PublishError}
      → H.update h ≡ (h', ok tt)
      → H.handle_input (h', e) item ≡ ((h'', e'), ok (some (message topic text)))
      → S.publish e'.swarm topic text ≡ (swarm, inl x)
      → suc (length e'.event_queue) ≤ fuel
      → turn S H fuel (input item) (h, e) ≡ (
        (
          see_all
              (H.handle_error h'' (codes "Error publishing message: " ++ S.show_publish_error x))
              e'.event_queue,
          record e' { swarm = swarm; event_queue = [] },
        ),
        ok goes_on,
      )
  unfolding turn on_input
  publish_fails fuel item topic text h {h'} {h''} e {e'} {swarm} {x} u i p le =
      rw (u, i, p)
        (rw
          (drain_queue e'.event_queue fuel
            (H.handle_error h'' (codes "Error publishing message: " ++ S.show_publish_error x))
            (record e' { swarm = swarm }) le)
          refl)

  -- A shutdown ends the loop at once: the queued events are not delivered.
  pub shutdown_stops :
      (fuel : ℕ) (item : Item) (h : H.State) {h' h'' : H.State} (e : Engine S) {e' : Engine S}
      → H.update h ≡ (h', ok tt)
      → H.handle_input (h', e) item ≡ ((h'', e'), ok (some shutdown))
      → turn S H fuel (input item) (h, e) ≡ ((h'', e'), ok stops)
  unfolding turn on_input
  shutdown_stops fuel item h e u i = rw (u, i) refl
