-- ===== src/Engine/Conversions/Laws.antt =====
-- The conversions of the behaviours' events lose nothing, and the only event that panics is a
-- message that is not UTF-8 (src/engine_event.rs).
use trithemius_p2p.Base.{
  ℕ, ◌≡◌, ◌≢◌, ◌↔◌, refl, ap, Text, Option, none, some, List, [], ◌∷◌, map, Option-cases, inl, inr,
}
use trithemius_p2p.Util.{Multiaddr}
use trithemius_p2p.Engine.Events.{PackageTypes, DiscoveredPeer, EngineEvent}
use trithemius_p2p.Engine.Events
use trithemius_p2p.Engine.Conversions
use trithemius_p2p.Engine.Conversions.{
  GossipsubMessage, BehaviourEvent, discovered_peer, from_behaviour, GossipsubEvent, gossip_message,
  gossipsub,
}

abbrev pub addr_pair : {T : PackageTypes} → DiscoveredPeer T → T.PeerId × Multiaddr
addr_pair p = (p.peer_id, p.address)

map-addr_pair :
    (T : PackageTypes) (addrs : List (T.PeerId × Multiaddr))
    → map addr_pair (map (discovered_peer {T = T}) addrs) ≡ addrs
map-addr_pair T [] = refl
map-addr_pair T (a ∷ addrs) = ap (λ ps. a ∷ ps) (map-addr_pair T addrs)

module _ {T : PackageTypes} where
  -- The behaviour's event that an event of the engine stands for.
  abbrev pub origin : (Text → List ℕ) → EngineEvent T → Option (BehaviourEvent T)
  origin as_bytes (Events.initiated_direct_connection_upgrade remote_peer_id local_relayed_addr) =
      some (Conversions.dcutr (Conversions.initiated remote_peer_id local_relayed_addr))
  origin as_bytes
        (Events.remote_initiated_direct_connection_upgrade remote_peer_id remote_relayed_addr) =
      some (Conversions.dcutr (Conversions.remote_initiated remote_peer_id remote_relayed_addr))
  origin as_bytes (Events.direct_connection_upgrade_succeeded remote_peer_id) =
      some (Conversions.dcutr (Conversions.upgrade_succeeded remote_peer_id))
  origin as_bytes (Events.direct_connection_upgrade_failed remote_peer_id error) =
      some (Conversions.dcutr (Conversions.upgrade_failed remote_peer_id error))
  origin as_bytes (Events.inbound_probe event) =
      some (Conversions.autonat (Conversions.inbound_probe event))
  origin as_bytes (Events.outbound_probe event) =
      some (Conversions.autonat (Conversions.outbound_probe event))
  origin as_bytes (Events.autonat_status_changed old_status new_status) =
      some (Conversions.autonat (Conversions.status_changed old_status new_status))
  origin as_bytes (Events.identify_received peer_id info) =
      some (Conversions.identify (Conversions.received peer_id info))
  origin as_bytes (Events.identify_sent peer_id) =
      some (Conversions.identify (Conversions.sent peer_id))
  origin as_bytes (Events.identify_pushed peer_id) =
      some (Conversions.identify (Conversions.pushed peer_id))
  origin as_bytes (Events.identify_error peer_id error) =
      some (Conversions.identify (Conversions.identify_fault peer_id error))
  origin as_bytes
        (Events.message source
          (some propagation_source)
          topic
          (some message_id)
          sequence_number
          text) =
      some (
        gossipsub (
          gossip_message propagation_source message_id (record {
            source = source;
            bytes = as_bytes text;
            sequence_number = sequence_number;
            topic = topic;
          })))
  origin as_bytes (Events.gossip_subscribed peer_id topic) =
      some (Conversions.gossipsub (Conversions.subscribed peer_id topic))
  origin as_bytes (Events.gossip_unsubscribed peer_id topic) =
      some (Conversions.gossipsub (Conversions.unsubscribed peer_id topic))
  origin as_bytes (Events.gossipsub_not_supported peer_id) =
      some (Conversions.gossipsub (Conversions.not_supported peer_id))
  origin as_bytes (Events.mdns_discovered peers) =
      some (Conversions.mdns (Conversions.discovered (map addr_pair peers)))
  origin as_bytes (Events.mdns_expired peers) =
      some (Conversions.mdns (Conversions.expired (map addr_pair peers)))
  origin as_bytes (Events.kad_inbound_request request) =
      some (Conversions.kademlia (Conversions.inbound_request request))
  origin as_bytes (Events.kad_outbound_query_completed id result stats) =
      some (Conversions.kademlia (Conversions.outbound_query_completed id result stats))
  origin as_bytes (Events.kad_routing_updated peer is_new_peer addresses bucket_range old_peer) =
      some (
        Conversions.kademlia
          (Conversions.routing_updated peer is_new_peer addresses bucket_range old_peer))
  origin as_bytes (Events.kad_unroutable_peer peer) =
      some (Conversions.kademlia (Conversions.unroutable_peer peer))
  origin as_bytes (Events.kad_routable_peer peer address) =
      some (Conversions.kademlia (Conversions.routable_peer peer address))
  origin as_bytes (Events.kad_pending_routable_peer peer address) =
      some (Conversions.kademlia (Conversions.pending_routable_peer peer address))
  origin as_bytes (Events.rendezvous_client_discovered rendezvous_node registrations cookie) =
      some (
        Conversions.rendezvous_client
          (Conversions.client_discovered rendezvous_node registrations cookie))
  origin as_bytes (Events.rendezvous_client_discover_failed rendezvous_node namespace error) =
      some (
        Conversions.rendezvous_client (Conversions.discover_failed rendezvous_node namespace error))
  origin as_bytes (Events.rendezvous_client_registered rendezvous_node ttl namespace) =
      some (Conversions.rendezvous_client (Conversions.registered rendezvous_node ttl namespace))
  origin as_bytes (Events.rendezvous_client_register_failed error) =
      some (Conversions.rendezvous_client (Conversions.register_failed error))
  origin as_bytes (Events.rendezvous_client_expired peer) =
      some (Conversions.rendezvous_client (Conversions.client_expired peer))
  origin as_bytes (Events.rendezvous_server_discover_served enquirer registrations) =
      some (Conversions.rendezvous_server (Conversions.discover_served enquirer registrations))
  origin as_bytes (Events.rendezvous_server_discover_not_served enquirer error) =
      some (Conversions.rendezvous_server (Conversions.discover_not_served enquirer error))
  origin as_bytes (Events.rendezvous_server_peer_registered peer registration) =
      some (Conversions.rendezvous_server (Conversions.peer_registered peer registration))
  origin as_bytes (Events.rendezvous_server_peer_not_registered peer namespace error) =
      some (Conversions.rendezvous_server (Conversions.peer_not_registered peer namespace error))
  origin as_bytes (Events.rendezvous_server_peer_unregistered peer namespace) =
      some (Conversions.rendezvous_server (Conversions.peer_unregistered peer namespace))
  origin as_bytes (Events.rendezvous_server_registration_expired registration) =
      some (Conversions.rendezvous_server (Conversions.registration_expired registration))
  origin as_bytes (Events.ping_event event) = some (Conversions.ping event)
  origin as_bytes _ = none

  -- The text of a message can be decoded; all else carries no bytes.
  abbrev pub Decodes : (List ℕ → Option Text) → BehaviourEvent T → Type 0
  Decodes from_utf8 (gossipsub (gossip_message source id message)) = from_utf8 message.bytes ≢ none
  Decodes from_utf8 _ = Unit

  -- Where `as_bytes` undoes `from_utf8`, every event of a behaviour that is not a message without
  -- a text is converted, and it can be told from the result.
  pub origin-from_behaviour :
      (from_utf8 : List ℕ → Option Text) (as_bytes : Text → List ℕ)
      → ((bytes : List ℕ) (text : Text) → from_utf8 bytes ≡ some text → as_bytes text ≡ bytes)
      → (b : BehaviourEvent T) → Decodes from_utf8 b
      → (e : EngineEvent T) × (from_behaviour from_utf8 b ≡ some e) × (origin as_bytes e ≡ some b)
  unfolding from_behaviour
  origin-from_behaviour from_utf8 as_bytes law (Conversions.dcutr (Conversions.initiated _ _)) d =
      (_, refl, refl)
  origin-from_behaviour from_utf8 as_bytes law
        (Conversions.dcutr (Conversions.remote_initiated _ _)) d =
      (_, refl, refl)
  origin-from_behaviour from_utf8 as_bytes law (Conversions.dcutr (Conversions.upgrade_succeeded _))
        d =
      (_, refl, refl)
  origin-from_behaviour from_utf8 as_bytes law (Conversions.dcutr (Conversions.upgrade_failed _ _))
        d =
      (_, refl, refl)
  origin-from_behaviour from_utf8 as_bytes law (Conversions.autonat (Conversions.inbound_probe _))
        d =
      (_, refl, refl)
  origin-from_behaviour from_utf8 as_bytes law (Conversions.autonat (Conversions.outbound_probe _))
        d =
      (_, refl, refl)
  origin-from_behaviour from_utf8 as_bytes law
        (Conversions.autonat (Conversions.status_changed _ _)) d =
      (_, refl, refl)
  origin-from_behaviour from_utf8 as_bytes law (Conversions.identify (Conversions.received _ _)) d =
      (_, refl, refl)
  origin-from_behaviour from_utf8 as_bytes law (Conversions.identify (Conversions.sent _)) d =
      (_, refl, refl)
  origin-from_behaviour from_utf8 as_bytes law (Conversions.identify (Conversions.pushed _)) d =
      (_, refl, refl)
  origin-from_behaviour from_utf8 as_bytes law
        (Conversions.identify (Conversions.identify_fault _ _)) d =
      (_, refl, refl)
  origin-from_behaviour from_utf8 as_bytes law (gossipsub (gossip_message source id message)) d =
      elim (Option-cases (from_utf8 message.bytes)) [
        | inl bad ↦ absurd (d bad)
        | inr (text, good) ↦ (
          Events.message message.source (some source) message.topic (some id)
              message.sequence_number text,
          rw good refl,
          ap
              (λ bytes.
                some (gossipsub (gossip_message source id (record message { bytes = bytes }))))
              (law message.bytes text good),
        )
      ]
  origin-from_behaviour from_utf8 as_bytes law (Conversions.gossipsub (Conversions.subscribed _ _))
        d =
      (_, refl, refl)
  origin-from_behaviour from_utf8 as_bytes law
        (Conversions.gossipsub (Conversions.unsubscribed _ _)) d =
      (_, refl, refl)
  origin-from_behaviour from_utf8 as_bytes law (Conversions.gossipsub (Conversions.not_supported _))
        d =
      (_, refl, refl)
  origin-from_behaviour from_utf8 as_bytes law (Conversions.mdns (Conversions.discovered addrs)) d =
      (
        _,
        refl,
        ap (λ ps. some (Conversions.mdns (Conversions.discovered ps))) (map-addr_pair T addrs),
      )
  origin-from_behaviour from_utf8 as_bytes law (Conversions.mdns (Conversions.expired addrs)) d =
      (_, refl, ap (λ ps. some (Conversions.mdns (Conversions.expired ps))) (map-addr_pair T addrs))
  origin-from_behaviour from_utf8 as_bytes law
        (Conversions.kademlia (Conversions.inbound_request _)) d =
      (_, refl, refl)
  origin-from_behaviour from_utf8 as_bytes law
        (Conversions.kademlia (Conversions.outbound_query_completed _ _ _)) d =
      (_, refl, refl)
  origin-from_behaviour from_utf8 as_bytes law
        (Conversions.kademlia (Conversions.routing_updated _ _ _ _ _)) d =
      (_, refl, refl)
  origin-from_behaviour from_utf8 as_bytes law
        (Conversions.kademlia (Conversions.unroutable_peer _)) d =
      (_, refl, refl)
  origin-from_behaviour from_utf8 as_bytes law
        (Conversions.kademlia (Conversions.routable_peer _ _)) d =
      (_, refl, refl)
  origin-from_behaviour from_utf8 as_bytes law
        (Conversions.kademlia (Conversions.pending_routable_peer _ _)) d =
      (_, refl, refl)
  origin-from_behaviour from_utf8 as_bytes law
        (Conversions.rendezvous_client (Conversions.client_discovered _ _ _)) d =
      (_, refl, refl)
  origin-from_behaviour from_utf8 as_bytes law
        (Conversions.rendezvous_client (Conversions.discover_failed _ _ _)) d =
      (_, refl, refl)
  origin-from_behaviour from_utf8 as_bytes law
        (Conversions.rendezvous_client (Conversions.registered _ _ _)) d =
      (_, refl, refl)
  origin-from_behaviour from_utf8 as_bytes law
        (Conversions.rendezvous_client (Conversions.register_failed _)) d =
      (_, refl, refl)
  origin-from_behaviour from_utf8 as_bytes law
        (Conversions.rendezvous_client (Conversions.client_expired _)) d =
      (_, refl, refl)
  origin-from_behaviour from_utf8 as_bytes law
        (Conversions.rendezvous_server (Conversions.discover_served _ _)) d =
      (_, refl, refl)
  origin-from_behaviour from_utf8 as_bytes law
        (Conversions.rendezvous_server (Conversions.discover_not_served _ _)) d =
      (_, refl, refl)
  origin-from_behaviour from_utf8 as_bytes law
        (Conversions.rendezvous_server (Conversions.peer_registered _ _)) d =
      (_, refl, refl)
  origin-from_behaviour from_utf8 as_bytes law
        (Conversions.rendezvous_server (Conversions.peer_not_registered _ _ _)) d =
      (_, refl, refl)
  origin-from_behaviour from_utf8 as_bytes law
        (Conversions.rendezvous_server (Conversions.peer_unregistered _ _)) d =
      (_, refl, refl)
  origin-from_behaviour from_utf8 as_bytes law
        (Conversions.rendezvous_server (Conversions.registration_expired _)) d =
      (_, refl, refl)
  origin-from_behaviour from_utf8 as_bytes law (Conversions.ping event) d = (_, refl, refl)

  -- The conversion of a behaviour's event panics exactly if it is a message whose bytes are not
  -- UTF-8.
  pub from_behaviour_panics :
      (from_utf8 : List ℕ → Option Text) (b : BehaviourEvent T)
      → (from_behaviour from_utf8 b ≡ none) ↔ ¬ Decodes from_utf8 b
  unfolding from_behaviour
  from_behaviour_panics from_utf8 (Conversions.dcutr (Conversions.initiated _ _)) =
      (λ h. cc, λ n. absurd (n tt))
  from_behaviour_panics from_utf8 (Conversions.dcutr (Conversions.remote_initiated _ _)) =
      (λ h. cc, λ n. absurd (n tt))
  from_behaviour_panics from_utf8 (Conversions.dcutr (Conversions.upgrade_succeeded _)) =
      (λ h. cc, λ n. absurd (n tt))
  from_behaviour_panics from_utf8 (Conversions.dcutr (Conversions.upgrade_failed _ _)) =
      (λ h. cc, λ n. absurd (n tt))
  from_behaviour_panics from_utf8 (Conversions.autonat (Conversions.inbound_probe _)) =
      (λ h. cc, λ n. absurd (n tt))
  from_behaviour_panics from_utf8 (Conversions.autonat (Conversions.outbound_probe _)) =
      (λ h. cc, λ n. absurd (n tt))
  from_behaviour_panics from_utf8 (Conversions.autonat (Conversions.status_changed _ _)) =
      (λ h. cc, λ n. absurd (n tt))
  from_behaviour_panics from_utf8 (Conversions.identify (Conversions.received _ _)) =
      (λ h. cc, λ n. absurd (n tt))
  from_behaviour_panics from_utf8 (Conversions.identify (Conversions.sent _)) =
      (λ h. cc, λ n. absurd (n tt))
  from_behaviour_panics from_utf8 (Conversions.identify (Conversions.pushed _)) =
      (λ h. cc, λ n. absurd (n tt))
  from_behaviour_panics from_utf8 (Conversions.identify (Conversions.identify_fault _ _)) =
      (λ h. cc, λ n. absurd (n tt))
  from_behaviour_panics from_utf8 (gossipsub (gossip_message source id message)) =
      elim (Option-cases (from_utf8 message.bytes)) [
        | inl bad ↦ (λ _ d. d bad, λ _. rw bad refl)
        | inr (text, good) ↦ (λ h. cc (rw good at h), λ n. absurd (n λ bad. cc))
      ]
  from_behaviour_panics from_utf8 (Conversions.gossipsub (Conversions.subscribed _ _)) =
      (λ h. cc, λ n. absurd (n tt))
  from_behaviour_panics from_utf8 (Conversions.gossipsub (Conversions.unsubscribed _ _)) =
      (λ h. cc, λ n. absurd (n tt))
  from_behaviour_panics from_utf8 (Conversions.gossipsub (Conversions.not_supported _)) =
      (λ h. cc, λ n. absurd (n tt))
  from_behaviour_panics from_utf8 (Conversions.mdns (Conversions.discovered _)) =
      (λ h. cc, λ n. absurd (n tt))
  from_behaviour_panics from_utf8 (Conversions.mdns (Conversions.expired _)) =
      (λ h. cc, λ n. absurd (n tt))
  from_behaviour_panics from_utf8 (Conversions.kademlia (Conversions.inbound_request _)) =
      (λ h. cc, λ n. absurd (n tt))
  from_behaviour_panics from_utf8
        (Conversions.kademlia (Conversions.outbound_query_completed _ _ _)) =
      (λ h. cc, λ n. absurd (n tt))
  from_behaviour_panics from_utf8 (Conversions.kademlia (Conversions.routing_updated _ _ _ _ _)) =
      (λ h. cc, λ n. absurd (n tt))
  from_behaviour_panics from_utf8 (Conversions.kademlia (Conversions.unroutable_peer _)) =
      (λ h. cc, λ n. absurd (n tt))
  from_behaviour_panics from_utf8 (Conversions.kademlia (Conversions.routable_peer _ _)) =
      (λ h. cc, λ n. absurd (n tt))
  from_behaviour_panics from_utf8 (Conversions.kademlia (Conversions.pending_routable_peer _ _)) =
      (λ h. cc, λ n. absurd (n tt))
  from_behaviour_panics from_utf8
        (Conversions.rendezvous_client (Conversions.client_discovered _ _ _)) =
      (λ h. cc, λ n. absurd (n tt))
  from_behaviour_panics from_utf8
        (Conversions.rendezvous_client (Conversions.discover_failed _ _ _)) =
      (λ h. cc, λ n. absurd (n tt))
  from_behaviour_panics from_utf8 (Conversions.rendezvous_client (Conversions.registered _ _ _)) =
      (λ h. cc, λ n. absurd (n tt))
  from_behaviour_panics from_utf8 (Conversions.rendezvous_client (Conversions.register_failed _)) =
      (λ h. cc, λ n. absurd (n tt))
  from_behaviour_panics from_utf8 (Conversions.rendezvous_client (Conversions.client_expired _)) =
      (λ h. cc, λ n. absurd (n tt))
  from_behaviour_panics from_utf8
        (Conversions.rendezvous_server (Conversions.discover_served _ _)) =
      (λ h. cc, λ n. absurd (n tt))
  from_behaviour_panics from_utf8
        (Conversions.rendezvous_server (Conversions.discover_not_served _ _)) =
      (λ h. cc, λ n. absurd (n tt))
  from_behaviour_panics from_utf8
        (Conversions.rendezvous_server (Conversions.peer_registered _ _)) =
      (λ h. cc, λ n. absurd (n tt))
  from_behaviour_panics from_utf8
        (Conversions.rendezvous_server (Conversions.peer_not_registered _ _ _)) =
      (λ h. cc, λ n. absurd (n tt))
  from_behaviour_panics from_utf8
        (Conversions.rendezvous_server (Conversions.peer_unregistered _ _)) =
      (λ h. cc, λ n. absurd (n tt))
  from_behaviour_panics from_utf8
        (Conversions.rendezvous_server (Conversions.registration_expired _)) =
      (λ h. cc, λ n. absurd (n tt))
  from_behaviour_panics from_utf8 (Conversions.ping event) = (λ h. cc, λ n. absurd (n tt))
