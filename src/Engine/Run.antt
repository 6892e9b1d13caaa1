-- ===== src/Engine/Run.antt =====
-- `Engine` and its event loop (src/engine.rs), and the trait `Handler` (src/lib.rs). The swarm of
-- libp2p is a parameter.
use trithemius_p2p.Base.{
  ℕ, zero, suc, Text, codes, Bool, true, false, Option, none, some, List, [], ◌∷◌, ◌++◌, Eq,
  Outcome, ok, err, on_ok, ◌⊎◌, inl, inr, if◌then◌else◌,
}
use trithemius_p2p.Base.Map.{Map, lookup, insert, erase}
use trithemius_p2p.Util.{Multiaddr}
use trithemius_p2p.Control.Service.{OnionService}
use trithemius_p2p.Control.Connection.{TorControlConnection}
use trithemius_p2p.Engine.Config.{Discovery, NatTraversal}
use trithemius_p2p.Engine.Events.{
  PackageTypes, EngineEvent, system_message, peer_addresses, new_listen_addr,
  kad_outbound_query_completed,
}

-- What the engine calls of the swarm. `with_kademlia` and `with_rendezvous` say whether the
-- behaviour's toggles are on. The swarm owns the transport, and with it the receiver of the channel
-- for onion services: `waiting_services` is what waits there, if the receiver is still there,
-- `queue_service` puts a service behind it, and it is for `listen_on` to take them.
pub record Swarm (T : PackageTypes) : Type 1 where
  pub State : Type 0
  pub PublishError : Type 0
  pub SubscriptionError : Type 0
  pub ListenError : Type 0
  pub BootstrapError : Type 0
  pub with_kademlia : State → Bool
  pub with_rendezvous : State → Bool
  pub addresses_of_peer : State → T.PeerId → State × List Multiaddr
  pub get_closest_peers : State → T.PeerId → State × T.QueryId
  pub add_external_address : State → Multiaddr → State
  pub publish : State → Text → List ℕ → State × (PublishError ⊎ T.MessageId)
  pub register : State → T.Namespace → T.PeerId → State
  pub discover : State → Option T.Namespace → Option T.Cookie → Option ℕ → T.PeerId → State
  pub dial : State → Multiaddr → State × (T.DialError ⊎ Unit {0})
  pub listen_on : State → Multiaddr → State × (ListenError ⊎ T.ListenerId)
  pub subscribe : State → Text → State × (SubscriptionError ⊎ Bool)
  pub unsubscribe : State → Text → State × (PublishError ⊎ Bool)
  pub bootstrap : State → State × (BootstrapError ⊎ T.QueryId)
  pub waiting_services : State → Option (List OnionService)
  pub queue_service : State → OnionService → State
  pub show_peer : T.PeerId → Text
  pub show_publish_error : PublishError → Text

pub data EngineError : Type 0 where
  error : Text → EngineError

pub data InputEvent : Type 0 where
  message : (topic : Text) (bytes : List ℕ) → InputEvent
  shutdown : InputEvent

-- The sender `onion_service_channel` has no state of its own.
pub record Engine {T : PackageTypes} (S : Swarm T) : Type 0 where
  pub swarm : S.State
  pub tor_connection : Option (TorControlConnection T.IoError)
  pub peer_id : T.PeerId
  pub query_map : Map T.QueryId T.PeerId
  pub event_queue : List (EngineEvent T)
  pub discovery_types : List Discovery
  pub nat_traversal_types : List NatTraversal
  pub listen_address_map : Map Multiaddr Multiaddr

-- The trait `Handler`: each call may change the handler, and those that get the engine may change
-- the engine.
pub record Handler {T : PackageTypes} (S : Swarm T) (Item Error : Type 0) : Type 1 where
  pub State : Type 0
  pub handle_input :
      State × Engine S → Item → (State × Engine S) × Outcome Error (Option InputEvent)
  pub handle_event :
      State × Engine S → EngineEvent T → (State × Engine S) × Outcome Error (Option (EngineEvent T))
  pub handle_error : State → Text → State
  pub update : State → State × Outcome Error (Unit {0})

module _ {T : PackageTypes} (S : Swarm T) ⦃query_eq : Eq T.QueryId⦄ where
  unfoldable pub register :
      T.Namespace → T.PeerId → Engine S → Engine S × Outcome EngineError (Unit {0})
  register namespace rendezvous_node e =
      if S.with_rendezvous e.swarm
      then (record e { swarm = S.register e.swarm namespace rendezvous_node }, ok tt)
      else (e, err (error (codes "Cannot register without rendezvous discovery enabled")))

  unfoldable pub discover :
      Option T.Namespace
      → Option T.Cookie
      → Option ℕ
      → T.PeerId
      → Engine S
      → Engine S × Outcome EngineError (Unit {0})
  discover namespace cookie limit rendezvous_node e =
      if S.with_rendezvous e.swarm
      then (record e { swarm = S.discover e.swarm namespace cookie limit rendezvous_node }, ok tt)
      else (e, err (error (codes "Cannot discover without rendezvous discovery enabled")))

  abbrev pub initiating : T.PeerId → EngineEvent T
  initiating peer = system_message (
      codes "Initiating finding peer "
      ++ (S.show_peer peer ++ codes " with Kademlia, please be patient, this might take a minute"))

  unfoldable pub find_peer : T.PeerId → Engine S → Engine S
  find_peer peer e =
      if S.with_kademlia e.swarm
      then (let (swarm, query_id) = S.get_closest_peers e.swarm peer in
          record e {
            swarm = swarm;
            event_queue = e.event_queue ++ initiating peer ∷ [];
            query_map = insert query_id peer e.query_map;
          })
      else (let (swarm, addresses) = S.addresses_of_peer e.swarm peer in
          record e {
            swarm = swarm;
            event_queue = e.event_queue ++ peer_addresses peer addresses ∷ [];
          })

  module _ ⦃addr_eq : Eq Multiaddr⦄ {Item Error : Type 0} (H : Handler S Item Error) where
    -- The handler and the engine after an operation, and how it ended.
    abbrev pub After : Type 0 → Type 0
    After A = (H.State × Engine S) × Outcome Error A

    -- `handle_event(…).await?`, whose value is dropped
    abbrev pub deliver : H.State × Engine S → EngineEvent T → After (Unit {0})
    deliver he event = on_ok (H.handle_event he event) λ he' _. (he', ok tt)

    -- `while let Some(event) = event_queue.pop_front()`, at most `fuel` times: true at the end of
    -- the queue.
    unfoldable pub drain : ℕ → H.State × Engine S → After Bool
    drain zero he = (he, ok false)
    drain (suc fuel) (h, e) = elim e.event_queue [
      | [] ↦ ((h, e), ok true)
      | event ∷ events ↦
          on_ok (deliver (h, record e { event_queue = events }) event) λ he _. drain fuel he
    ]

    -- What a published message leaves: an error is the handler's to show.
    abbrev pub published :
        H.State → Engine S → S.State × (S.PublishError ⊎ T.MessageId) → H.State × Engine S
    published h e (swarm, inl x) = (
      H.handle_error h (codes "Error publishing message: " ++ S.show_publish_error x),
      record e { swarm = swarm },
    )
    published h e (swarm, inr id) = (h, record e { swarm = swarm })

    -- The branch of `select!` for an input: true where the loop goes on.
    abbrev pub after_input : H.State × Engine S → Option InputEvent → After Bool
    after_input (h, e) (some (message topic bytes)) =
        (published h e (S.publish e.swarm topic bytes), ok true)
    after_input he (some shutdown) = (he, ok false)
    after_input he none = (he, ok true)

    unfoldable pub on_input : H.State × Engine S → Item → After Bool
    on_input he item = on_ok (H.handle_input he item) after_input

    -- A new address is reported as the address that it is mapped to.
    abbrev pub mapped : Multiaddr → Option Multiaddr → Multiaddr
    mapped address none = address
    mapped address (some mapped_address) = mapped_address

    -- The peer of a query that has ended is reported with the addresses that are known now.
    abbrev pub found_peer : Option T.PeerId → H.State × Engine S → After (Unit {0})
    found_peer none he = (he, ok tt)
    found_peer (some peer) (h, e) =
        let (swarm, addresses) = S.addresses_of_peer e.swarm peer in
        deliver (h, record e { swarm = swarm }) (peer_addresses peer addresses)

    -- The events of the swarm that the loop takes apart, and all others.
    pub data SwarmCase : Type 0 where
      listening : T.ListenerId → Multiaddr → SwarmCase
      query_ended : T.QueryId → T.QueryResult → T.QueryStats → SwarmCase
      passed_on : EngineEvent T → SwarmCase

    abbrev pub swarm_case : EngineEvent T → SwarmCase
    swarm_case (new_listen_addr listener_id address) = listening listener_id address
    swarm_case (kad_outbound_query_completed id result stats) = query_ended id result stats
    swarm_case event = passed_on event

    abbrev pub on_case : H.State × Engine S → SwarmCase → After (Unit {0})
    on_case (h, e) (listening listener_id address) =
        let reported = mapped address (lookup address e.listen_address_map) in
        deliver (h, record e { swarm = S.add_external_address e.swarm reported })
          (new_listen_addr listener_id reported)
    on_case (h, e) (query_ended id result stats) =
        on_ok
          (found_peer (lookup id e.query_map) (h, record e { query_map = erase id e.query_map }))
          λ he _. deliver he (kad_outbound_query_completed id result stats)
    on_case he (passed_on event) = deliver he event

    -- The branch of `select!` for an event of the swarm.
    unfoldable pub on_swarm_event : H.State × Engine S → EngineEvent T → After (Unit {0})
    on_swarm_event he event = on_case he (swarm_case event)

    -- What `select!` took.
    pub data Arrived : Type 0 where
      input : Item → Arrived
      swarm_event : EngineEvent T → Arrived

    abbrev pub on_arrived : H.State × Engine S → Arrived → After Bool
    on_arrived he (input item) = on_input he item
    on_arrived he (swarm_event event) = on_ok (on_swarm_event he event) λ he _. (he, ok true)

    abbrev pub updated : H.State × Outcome Error (Unit {0}) → Engine S → After (Unit {0})
    updated (h, o) e = ((h, e), o)

    -- How a turn of the loop of `run` ends.
    pub data Turn : Type 0 where
      stops goes_on out_of_fuel : Turn

    abbrev pub drained : H.State × Engine S → Bool → After Turn
    drained he true = (he, ok goes_on)
    drained he false = (he, ok out_of_fuel)

    -- After a shutdown the queue is not delivered.
    abbrev pub then_drain : ℕ → H.State × Engine S → Bool → After Turn
    then_drain fuel he true = on_ok (drain fuel he) drained
    then_drain fuel he false = (he, ok stops)

    -- One turn of the loop of `run`.
    unfoldable pub turn : ℕ → Arrived → H.State × Engine S → After Turn
    turn fuel arrived (h, e) =
        on_ok (updated (H.update h) e) λ he _. on_ok (on_arrived he arrived) (then_drain fuel)
