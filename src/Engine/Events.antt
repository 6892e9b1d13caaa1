-- ===== src/Engine/Events.antt =====
-- `EngineEvent` (src/engine_event.rs). What the events carry are mostly types of other packages.
use trithemius_p2p.Base.{ℕ, Text, Bool, Option, List, Outcome}
use trithemius_p2p.Util.{Multiaddr}
use trithemius_p2p.Control.Service.{OnionService}

-- The types of other packages that events carry.
pub record PackageTypes : Type 1 where
  pub PeerId : Type 0
  pub TopicHash : Type 0
  pub MessageId : Type 0
  pub ConnectedPoint : Type 0
  pub DialFault : Type 0
  pub ConnectionError : Type 0
  pub PendingConnectionError : Type 0
  pub DialError : Type 0
  pub ListenerId : Type 0
  pub IoError : Type 0
  pub SocksError : Type 0
  pub PingEvent : Type 0
  pub IdentifyInfo : Type 0
  pub IdentifyFault : Type 0
  pub DcutrUpgradeError : Type 0
  pub InboundProbeEvent : Type 0
  pub OutboundProbeEvent : Type 0
  pub NatStatus : Type 0
  pub InboundRequest : Type 0
  pub QueryId : Type 0
  pub QueryResult : Type 0
  pub QueryStats : Type 0
  pub Addresses : Type 0
  pub Distance : Type 0
  pub Registration : Type 0
  pub Cookie : Type 0
  pub Namespace : Type 0
  pub ErrorCode : Type 0
  pub RegisterError : Type 0

pub record DiscoveredPeer (T : PackageTypes) : Type 0 where
  pub peer_id : T.PeerId
  pub address : Multiaddr

pub data EngineEvent (T : PackageTypes) : Type 0 where
  message :
      (source propagation_source : Option T.PeerId) (topic : T.TopicHash)
      (message_id : Option T.MessageId) (sequence_number : Option ℕ) (text : Text)
      → EngineEvent T
  system_message : Text → EngineEvent T
  peer_addresses : (peer : T.PeerId) (addresses : List Multiaddr) → EngineEvent T
  onion_service_ready : OnionService → EngineEvent T
  shutdown : EngineEvent T
  connection_established :
      (peer_id : T.PeerId) (endpoint : T.ConnectedPoint) (num_established : ℕ)
      (concurrent_dial_errors : Option (List (Multiaddr × T.DialFault)))
      → EngineEvent T
  connection_closed :
      (peer_id : T.PeerId) (endpoint : T.ConnectedPoint) (num_established : ℕ)
      (cause : Option T.ConnectionError)
      → EngineEvent T
  incoming_connection : (local_addr send_back_addr : Multiaddr) → EngineEvent T
  incoming_connection_error :
      (local_addr send_back_addr : Multiaddr) (error : T.PendingConnectionError) → EngineEvent T
  outgoing_connection_error : (peer_id : Option T.PeerId) (error : T.DialError) → EngineEvent T
  banned_peer : (peer_id : T.PeerId) (endpoint : T.ConnectedPoint) → EngineEvent T
  new_listen_addr expired_listen_addr :
      (listener_id : T.ListenerId) (address : Multiaddr) → EngineEvent T
  listener_closed :
      (listener_id : T.ListenerId) (addresses : List Multiaddr)
      (reason : Outcome T.IoError (Unit {0}))
      → EngineEvent T
  listener_error : (listener_id : T.ListenerId) (error : T.IoError) → EngineEvent T
  dialing : T.PeerId → EngineEvent T
  mdns_discovered mdns_expired : List (DiscoveredPeer T) → EngineEvent T
  ping_event : T.PingEvent → EngineEvent T
  gossip_subscribed gossip_unsubscribed : (peer_id : T.PeerId) (topic : T.TopicHash) → EngineEvent T
  gossipsub_not_supported : (peer_id : T.PeerId) → EngineEvent T
  identify_received : (peer_id : T.PeerId) (info : T.IdentifyInfo) → EngineEvent T
  identify_sent identify_pushed : (peer_id : T.PeerId) → EngineEvent T
  identify_error : (peer_id : T.PeerId) (error : T.IdentifyFault) → EngineEvent T
  initiated_direct_connection_upgrade :
      (remote_peer_id : T.PeerId) (local_relayed_addr : Multiaddr) → EngineEvent T
  remote_initiated_direct_connection_upgrade :
      (remote_peer_id : T.PeerId) (remote_relayed_addr : Multiaddr) → EngineEvent T
  direct_connection_upgrade_succeeded : (remote_peer_id : T.PeerId) → EngineEvent T
  direct_connection_upgrade_failed :
      (remote_peer_id : T.PeerId) (error : T.DcutrUpgradeError) → EngineEvent T
  inbound_probe : T.InboundProbeEvent → EngineEvent T
  outbound_probe : T.OutboundProbeEvent → EngineEvent T
  autonat_status_changed : (old new : T.NatStatus) → EngineEvent T
  kad_inbound_request : (request : T.InboundRequest) → EngineEvent T
  kad_outbound_query_completed :
      (id : T.QueryId) (result : T.QueryResult) (stats : T.QueryStats) → EngineEvent T
  kad_routing_updated :
      (peer : T.PeerId) (is_new_peer : Bool) (addresses : T.Addresses)
      (bucket_range : T.Distance × T.Distance) (old_peer : Option T.PeerId)
      → EngineEvent T
  kad_unroutable_peer : (peer : T.PeerId) → EngineEvent T
  kad_routable_peer kad_pending_routable_peer :
      (peer : T.PeerId) (address : Multiaddr) → EngineEvent T
  rendezvous_client_discovered :
      (rendezvous_node : T.PeerId) (registrations : List T.Registration) (cookie : T.Cookie)
      → EngineEvent T
  rendezvous_client_discover_failed :
      (rendezvous_node : T.PeerId) (namespace : Option T.Namespace) (error : T.ErrorCode)
      → EngineEvent T
  rendezvous_client_registered :
      (rendezvous_node : T.PeerId) (ttl : ℕ) (namespace : T.Namespace) → EngineEvent T
  rendezvous_client_register_failed : T.RegisterError → EngineEvent T
  rendezvous_client_expired : (peer : T.PeerId) → EngineEvent T
  rendezvous_server_discover_served :
      (enquirer : T.PeerId) (registrations : List T.Registration) → EngineEvent T
  rendezvous_server_discover_not_served :
      (enquirer : T.PeerId) (error : T.ErrorCode) → EngineEvent T
  rendezvous_server_peer_registered :
      (peer : T.PeerId) (registration : T.Registration) → EngineEvent T
  rendezvous_server_peer_not_registered :
      (peer : T.PeerId) (namespace : T.Namespace) (error : T.ErrorCode) → EngineEvent T
  rendezvous_server_peer_unregistered : (peer : T.PeerId) (namespace : T.Namespace) → EngineEvent T
  rendezvous_server_registration_expired : T.Registration → EngineEvent T
