-- ===== src/Engine/Conversions.antt =====
-- The conversions of the libraries' events into `EngineEvent` (src/engine_event.rs). The libraries'
-- events are as the matches, which are exhaustive, take them apart. `from_utf8` is that of the
-- standard library.
pub mod Laws
use trithemius_p2p.Base.{
  ℕ, ◌≡◌, ◌≢◌, ◌↔◌, refl, ap, Text, Bool, Option, none, some, List, [], ◌∷◌, Outcome, ok, err,
  panic, map,
}
use trithemius_p2p.Util.{Multiaddr}
use trithemius_p2p.Engine.Events.{PackageTypes, DiscoveredPeer, EngineEvent}
use trithemius_p2p.Engine.Events

pub record GossipsubMessage (T : PackageTypes) : Type 0 where
  pub source : Option T.PeerId
  pub bytes : List ℕ
  pub sequence_number : Option ℕ
  pub topic : T.TopicHash

pub data SwarmEvent (T : PackageTypes) : Type 0 where
  behaviour : (event : EngineEvent T) → SwarmEvent T
  banned_peer : (peer_id : T.PeerId) (endpoint : T.ConnectedPoint) → SwarmEvent T
  connection_established :
      (peer_id : T.PeerId) (endpoint : T.ConnectedPoint) (num_established : ℕ)
      (concurrent_dial_errors : Option (List (Multiaddr × T.DialFault)))
      → SwarmEvent T
  connection_closed :
      (peer_id : T.PeerId) (endpoint : T.ConnectedPoint) (num_established : ℕ)
      (cause : Option T.ConnectionError)
      → SwarmEvent T
  dialing : (peer_id : T.PeerId) → SwarmEvent T
  expired_listen_addr : (listener_id : T.ListenerId) (address : Multiaddr) → SwarmEvent T
  incoming_connection : (local_addr send_back_addr : Multiaddr) → SwarmEvent T
  incoming_connection_error :
      (local_addr send_back_addr : Multiaddr) (error : T.PendingConnectionError) → SwarmEvent T
  listener_closed :
      (listener_id : T.ListenerId) (addresses : List Multiaddr)
      (reason : Outcome T.IoError (Unit {0}))
      → SwarmEvent T
  listener_error : (listener_id : T.ListenerId) (error : T.IoError) → SwarmEvent T
  new_listen_addr : (listener_id : T.ListenerId) (address : Multiaddr) → SwarmEvent T
  outgoing_connection_error : (peer_id : Option T.PeerId) (error : T.DialError) → SwarmEvent T

pub data DcutrEvent (T : PackageTypes) : Type 0 where
  initiated : (remote_peer_id : T.PeerId) (local_relayed_addr : Multiaddr) → DcutrEvent T
  remote_initiated : (remote_peer_id : T.PeerId) (remote_relayed_addr : Multiaddr) → DcutrEvent T
  upgrade_succeeded : (remote_peer_id : T.PeerId) → DcutrEvent T
  upgrade_failed : (remote_peer_id : T.PeerId) (error : T.DcutrUpgradeError) → DcutrEvent T

pub data AutonatEvent (T : PackageTypes) : Type 0 where
  inbound_probe : (event : T.InboundProbeEvent) → AutonatEvent T
  outbound_probe : (event : T.OutboundProbeEvent) → AutonatEvent T
  status_changed : (old_status new_status : T.NatStatus) → AutonatEvent T

pub data IdentifyEvent (T : PackageTypes) : Type 0 where
  received : (peer_id : T.PeerId) (info : T.IdentifyInfo) → IdentifyEvent T
  sent : (peer_id : T.PeerId) → IdentifyEvent T
  pushed : (peer_id : T.PeerId) → IdentifyEvent T
  identify_fault : (peer_id : T.PeerId) (error : T.IdentifyFault) → IdentifyEvent T

pub data GossipsubEvent (T : PackageTypes) : Type 0 where
  gossip_message :
      (propagation_source : T.PeerId) (message_id : T.MessageId) (message : GossipsubMessage T)
      → GossipsubEvent T
  subscribed : (peer_id : T.PeerId) (topic : T.TopicHash) → GossipsubEvent T
  unsubscribed : (peer_id : T.PeerId) (topic : T.TopicHash) → GossipsubEvent T
  not_supported : (peer_id : T.PeerId) → GossipsubEvent T

pub data MdnsEvent (T : PackageTypes) : Type 0 where
  discovered : (addrs : List (T.PeerId × Multiaddr)) → MdnsEvent T
  expired : (addrs : List (T.PeerId × Multiaddr)) → MdnsEvent T

pub data KademliaEvent (T : PackageTypes) : Type 0 where
  inbound_request : (request : T.InboundRequest) → KademliaEvent T
  outbound_query_completed :
      (id : T.QueryId) (result : T.QueryResult) (stats : T.QueryStats) → KademliaEvent T
  routing_updated :
      (peer : T.PeerId) (is_new_peer : Bool) (addresses : T.Addresses)
      (bucket_range : T.Distance × T.Distance) (old_peer : Option T.PeerId)
      → KademliaEvent T
  unroutable_peer : (peer : T.PeerId) → KademliaEvent T
  routable_peer : (peer : T.PeerId) (address : Multiaddr) → KademliaEvent T
  pending_routable_peer : (peer : T.PeerId) (address : Multiaddr) → KademliaEvent T

pub data RendezvousClientEvent (T : PackageTypes) : Type 0 where
  client_discovered :
      (rendezvous_node : T.PeerId) (registrations : List T.Registration) (cookie : T.Cookie)
      → RendezvousClientEvent T
  discover_failed :
      (rendezvous_node : T.PeerId) (namespace : Option T.Namespace) (error : T.ErrorCode)
      → RendezvousClientEvent T
  registered :
      (rendezvous_node : T.PeerId) (ttl : ℕ) (namespace : T.Namespace) → RendezvousClientEvent T
  register_failed : (error : T.RegisterError) → RendezvousClientEvent T
  client_expired : (peer : T.PeerId) → RendezvousClientEvent T

pub data RendezvousServerEvent (T : PackageTypes) : Type 0 where
  discover_served :
      (enquirer : T.PeerId) (registrations : List T.Registration) → RendezvousServerEvent T
  discover_not_served : (enquirer : T.PeerId) (error : T.ErrorCode) → RendezvousServerEvent T
  peer_registered : (peer : T.PeerId) (registration : T.Registration) → RendezvousServerEvent T
  peer_not_registered :
      (peer : T.PeerId) (namespace : T.Namespace) (error : T.ErrorCode) → RendezvousServerEvent T
  peer_unregistered : (peer : T.PeerId) (namespace : T.Namespace) → RendezvousServerEvent T
  registration_expired : (registration : T.Registration) → RendezvousServerEvent T

-- The events of the behaviours, each with its conversion below; `ping` carries its event whole.
pub data BehaviourEvent (T : PackageTypes) : Type 0 where
  dcutr : DcutrEvent T → BehaviourEvent T
  autonat : AutonatEvent T → BehaviourEvent T
  identify : IdentifyEvent T → BehaviourEvent T
  gossipsub : GossipsubEvent T → BehaviourEvent T
  mdns : MdnsEvent T → BehaviourEvent T
  kademlia : KademliaEvent T → BehaviourEvent T
  rendezvous_client : RendezvousClientEvent T → BehaviourEvent T
  rendezvous_server : RendezvousServerEvent T → BehaviourEvent T
  ping : T.PingEvent → BehaviourEvent T

module _ {T : PackageTypes} where
  abbrev pub from_swarm : SwarmEvent T → EngineEvent T
  from_swarm (behaviour event) = event
  from_swarm (banned_peer peer_id endpoint) = Events.banned_peer peer_id endpoint
  from_swarm (connection_established peer_id endpoint num_established concurrent_dial_errors) =
      Events.connection_established peer_id endpoint num_established concurrent_dial_errors
  from_swarm (connection_closed peer_id endpoint num_established cause) =
      Events.connection_closed peer_id endpoint num_established cause
  from_swarm (dialing peer_id) = Events.dialing peer_id
  from_swarm (expired_listen_addr listener_id address) =
      Events.expired_listen_addr listener_id address
  from_swarm (incoming_connection local_addr send_back_addr) =
      Events.incoming_connection local_addr send_back_addr
  from_swarm (incoming_connection_error local_addr send_back_addr error) =
      Events.incoming_connection_error local_addr send_back_addr error
  from_swarm (listener_closed listener_id addresses reason) =
      Events.listener_closed listener_id addresses reason
  from_swarm (listener_error listener_id error) = Events.listener_error listener_id error
  from_swarm (new_listen_addr listener_id address) = Events.new_listen_addr listener_id address
  from_swarm (outgoing_connection_error peer_id error) =
      Events.outgoing_connection_error peer_id error

  abbrev pub from_dcutr : DcutrEvent T → EngineEvent T
  from_dcutr (initiated remote_peer_id local_relayed_addr) =
      Events.initiated_direct_connection_upgrade remote_peer_id local_relayed_addr
  from_dcutr (remote_initiated remote_peer_id remote_relayed_addr) =
      Events.remote_initiated_direct_connection_upgrade remote_peer_id remote_relayed_addr
  from_dcutr (upgrade_succeeded remote_peer_id) =
      Events.direct_connection_upgrade_succeeded remote_peer_id
  from_dcutr (upgrade_failed remote_peer_id error) =
      Events.direct_connection_upgrade_failed remote_peer_id error

  abbrev pub from_autonat : AutonatEvent T → EngineEvent T
  from_autonat (inbound_probe event) = Events.inbound_probe event
  from_autonat (outbound_probe event) = Events.outbound_probe event
  from_autonat (status_changed old_status new_status) =
      Events.autonat_status_changed old_status new_status

  abbrev pub from_identify : IdentifyEvent T → EngineEvent T
  from_identify (received peer_id info) = Events.identify_received peer_id info
  from_identify (sent peer_id) = Events.identify_sent peer_id
  from_identify (pushed peer_id) = Events.identify_pushed peer_id
  from_identify (identify_fault peer_id error) = Events.identify_error peer_id error

  -- `str::from_utf8(…).unwrap()`
  abbrev pub gossip_text :
      T.PeerId → T.MessageId → GossipsubMessage T → Option Text → Option (EngineEvent T)
  gossip_text propagation_source message_id message none = none
  gossip_text propagation_source message_id message (some text) = some (
      Events.message message.source (some propagation_source) message.topic (some message_id)
        message.sequence_number text)

  -- `none` is a panic.
  abbrev pub from_gossipsub : (List ℕ → Option Text) → GossipsubEvent T → Option (EngineEvent T)
  from_gossipsub from_utf8 (gossip_message propagation_source message_id message) =
      gossip_text propagation_source message_id message (from_utf8 message.bytes)
  from_gossipsub from_utf8 (subscribed peer_id topic) =
      some (Events.gossip_subscribed peer_id topic)
  from_gossipsub from_utf8 (unsubscribed peer_id topic) =
      some (Events.gossip_unsubscribed peer_id topic)
  from_gossipsub from_utf8 (not_supported peer_id) = some (Events.gossipsub_not_supported peer_id)

  abbrev pub discovered_peer : T.PeerId × Multiaddr → DiscoveredPeer T
  discovered_peer (peer_id, address) = record { peer_id = peer_id; address = address }

  abbrev pub from_mdns : MdnsEvent T → EngineEvent T
  from_mdns (discovered addrs) = Events.mdns_discovered (map discovered_peer addrs)
  from_mdns (expired addrs) = Events.mdns_expired (map discovered_peer addrs)

  abbrev pub from_kademlia : KademliaEvent T → EngineEvent T
  from_kademlia (inbound_request request) = Events.kad_inbound_request request
  from_kademlia (outbound_query_completed id result stats) =
      Events.kad_outbound_query_completed id result stats
  from_kademlia (routing_updated peer is_new_peer addresses bucket_range old_peer) =
      Events.kad_routing_updated peer is_new_peer addresses bucket_range old_peer
  from_kademlia (unroutable_peer peer) = Events.kad_unroutable_peer peer
  from_kademlia (routable_peer peer address) = Events.kad_routable_peer peer address
  from_kademlia (pending_routable_peer peer address) = Events.kad_pending_routable_peer peer address

  abbrev pub from_rendezvous_client : RendezvousClientEvent T → EngineEvent T
  from_rendezvous_client (client_discovered rendezvous_node registrations cookie) =
      Events.rendezvous_client_discovered rendezvous_node registrations cookie
  from_rendezvous_client (discover_failed rendezvous_node namespace error) =
      Events.rendezvous_client_discover_failed rendezvous_node namespace error
  from_rendezvous_client (registered rendezvous_node ttl namespace) =
      Events.rendezvous_client_registered rendezvous_node ttl namespace
  from_rendezvous_client (register_failed error) = Events.rendezvous_client_register_failed error
  from_rendezvous_client (client_expired peer) = Events.rendezvous_client_expired peer

  abbrev pub from_rendezvous_server : RendezvousServerEvent T → EngineEvent T
  from_rendezvous_server (discover_served enquirer registrations) =
      Events.rendezvous_server_discover_served enquirer registrations
  from_rendezvous_server (discover_not_served enquirer error) =
      Events.rendezvous_server_discover_not_served enquirer error
  from_rendezvous_server (peer_registered peer registration) =
      Events.rendezvous_server_peer_registered peer registration
  from_rendezvous_server (peer_not_registered peer namespace error) =
      Events.rendezvous_server_peer_not_registered peer namespace error
  from_rendezvous_server (peer_unregistered peer namespace) =
      Events.rendezvous_server_peer_unregistered peer namespace
  from_rendezvous_server (registration_expired registration) =
      Events.rendezvous_server_registration_expired registration

  abbrev pub from_ping : T.PingEvent → EngineEvent T
  from_ping event = Events.ping_event event

  -- The behaviours' `From` conversions as the derived behaviour calls them; `none` is a panic.
  unfoldable pub from_behaviour : (List ℕ → Option Text) → BehaviourEvent T → Option (EngineEvent T)
  from_behaviour from_utf8 (dcutr event) = some (from_dcutr event)
  from_behaviour from_utf8 (autonat event) = some (from_autonat event)
  from_behaviour from_utf8 (identify event) = some (from_identify event)
  from_behaviour from_utf8 (gossipsub event) = from_gossipsub from_utf8 event
  from_behaviour from_utf8 (mdns event) = some (from_mdns event)
  from_behaviour from_utf8 (kademlia event) = some (from_kademlia event)
  from_behaviour from_utf8 (rendezvous_client event) = some (from_rendezvous_client event)
  from_behaviour from_utf8 (rendezvous_server event) = some (from_rendezvous_server event)
  from_behaviour from_utf8 (ping event) = some (from_ping event)
