-- ===== src/Terminal/Events.antt =====
-- What `MyHandler` does about an event of the engine (src/bin/trithemius-term/main.rs), and
-- `UI::add_message` (src/bin/trithemius-term/ui.rs).
use trithemius_p2p.Base.{
  ◌+◌, Text, codes, Option, none, some, List, [], ◌∷◌, ◌++◌, Eq, map, join, if◌then◌else◌, text_eq,
}
use trithemius_p2p.Base.Decimal.{show_ℕ}
use trithemius_p2p.Base.Map.{lookup, insert}
use trithemius_p2p.Util.{Multiaddr, nil}
use trithemius_p2p.Subscriptions.Queue.{CircularQueue}
use trithemius_p2p.Subscriptions.{Subscription, ChatMessage, push_message}
use trithemius_p2p.TopicList.{has_topic}
use trithemius_p2p.View.{connecting_to, disconnected_from}
use trithemius_p2p.View
use trithemius_p2p.Transports.Tor.{multiaddr_eq}
use trithemius_p2p.Engine.Events.{PackageTypes, DiscoveredPeer, EngineEvent}
use trithemius_p2p.Engine.Events
use trithemius_p2p.Engine.Run.{Swarm}
use trithemius_p2p.Ui.{World, Ui, logging}
use trithemius_p2p.Terminal.{Point, dialer, listener, Packages}

module _ {T : PackageTypes} (S : Swarm T) (Q : CircularQueue) (W : World S) (P : Packages S Q)
    ⦃peer_eq : Eq T.PeerId⦄ ⦃query_eq : Eq T.QueryId⦄ where
  abbrev pub info : Text → Ui T Q → Ui T Q
  info text u = logging S Q W (λ now. View.log_info Q now text) u

  abbrev pub failure : Text → Ui T Q → Ui T Q
  failure text u = logging S Q W (λ now. View.log_error Q now text) u

  -- `UI::add_message`: a message for a topic without an entry is dropped.
  abbrev pub add_message : ChatMessage → Option (Subscription Q) → Ui T Q → Ui T Q
  add_message message (some subscription) u = record u {
    subscriptions = insert message.topic (push_message Q subscription message) u.subscriptions;
  }
  add_message message none u = u

  -- The time of a message is that of its arrival.
  unfoldable pub receive : Option T.PeerId → Text → Text → Ui T Q → Ui T Q
  receive source topic text u =
      let m : ChatMessage = record {
        date = W.local_now u.clock_reads;
        topic = topic;
        user = elim source [ none ↦ none | some peer ↦ some (S.show_peer peer) ];
        message = text;
      } in
      add_message m (lookup topic u.subscriptions) (record u { clock_reads = u.clock_reads + 1 })

  abbrev pub remote_address : Point → Multiaddr
  remote_address (dialer address) = address
  remote_address (listener local_addr send_back_addr) = send_back_addr

  abbrev pub info_all : List Multiaddr → Ui T Q → Ui T Q
  info_all [] u = u
  info_all (address ∷ addresses) u =
      info_all addresses (info (codes "   " ++ W.formats.show_multiaddr address) u)

  abbrev pub show_found : T.PeerId → List Multiaddr → Ui T Q → Ui T Q
  show_found peer [] u = info (codes "Found no addresses for PeerId " ++ S.show_peer peer) u
  show_found peer (address ∷ addresses) u = info_all (address ∷ addresses) (
      info (codes "Found the following addresses for PeerId " ++ (S.show_peer peer ++ codes ":")) u)

  unfoldable pub connected : T.PeerId → T.ConnectedPoint → Ui T Q → Ui T Q
  connected peer_id endpoint u =
      if connecting_to Q (remote_address (P.point endpoint)) u.view
      then info
          (codes "Connected to "
            ++ (S.show_peer peer_id ++ (codes " at " ++ P.debug_point endpoint)))
          u
      else u

  abbrev pub told_closed : T.PeerId → T.ConnectedPoint → Option T.ConnectionError → Ui T Q → Ui T Q
  told_closed peer_id endpoint cause u =
      if connecting_to Q (remote_address (P.point endpoint)) u.view
      then info
          (codes "Connection closed to "
            ++ (S.show_peer peer_id
                ++ (codes " at "
                    ++ (P.debug_point endpoint ++ (codes ": " ++ P.debug_cause cause)))))
          u
      else u

  unfoldable pub closed : T.PeerId → T.ConnectedPoint → Option T.ConnectionError → Ui T Q → Ui T Q
  closed peer_id endpoint cause u =
      let u' = told_closed peer_id endpoint cause u in
      record u' { view = disconnected_from Q (remote_address (P.point endpoint)) u'.view }

  -- `is_empty` of a multiaddress
  abbrev pub incoming : Multiaddr → Multiaddr → Text
  incoming local_addr nil = codes "Incoming connection to " ++ W.formats.show_multiaddr local_addr
  incoming local_addr send_back_addr =
      codes "Incoming connection to "
      ++ (W.formats.show_multiaddr local_addr
          ++ (codes " from " ++ W.formats.show_multiaddr send_back_addr))

  abbrev pub show_discovered : DiscoveredPeer T → Text
  show_discovered p = S.show_peer p.peer_id ++ (codes "@" ++ W.formats.show_multiaddr p.address)

  -- A peer's change of subscriptions is told for the topics that have a tab.
  abbrev pub about_topic : T.TopicHash → Text → Ui T Q → Ui T Q
  about_topic topic text u =
      if has_topic u.subscription_list (P.show_topic topic) then info text u else u

  -- What the program does about an event.
  pub data Reaction : Type 0 where
    silent : Reaction
    tells fails : Text → Reaction
    chat : Option T.PeerId → Text → Text → Reaction
    found : T.PeerId → List Multiaddr → Reaction
    connects : T.PeerId → T.ConnectedPoint → Reaction
    closes : T.PeerId → T.ConnectedPoint → Option T.ConnectionError → Reaction
    about : T.TopicHash → Text → Reaction

  -- The `match` of `MyHandler::handle_event`, whose arms all end in `None`.
  unfoldable pub reaction : EngineEvent T → Reaction
  reaction (Events.mdns_expired list) = silent
  reaction (Events.message source propagation_source topic message_id sequence_number text) =
      chat source (P.show_topic topic) text
  reaction (Events.system_message message) = tells message
  reaction (Events.peer_addresses peer addresses) = found peer addresses
  reaction (Events.onion_service_ready service) = tells (
      codes "Onion service "
      ++ (W.formats.show_multiaddr service.address ++ codes " is ready to receive connections"))
  reaction (Events.connection_established peer_id endpoint n errors) = connects peer_id endpoint
  reaction (Events.connection_closed peer_id endpoint n cause) = closes peer_id endpoint cause
  reaction (Events.incoming_connection local_addr send_back_addr) =
      tells (incoming local_addr send_back_addr)
  reaction (Events.new_listen_addr listener_id address) = tells (
      codes "Listener "
      ++ (P.debug_listener listener_id
          ++ (codes " listening on " ++ W.formats.show_multiaddr address)))
  reaction (Events.dialing peer_id) = tells (codes "Dialing " ++ S.show_peer peer_id)
  reaction (Events.mdns_discovered peers) =
      tells (codes "Discovered peers: " ++ join (codes ", ") (map show_discovered peers))
  reaction (Events.gossip_subscribed peer_id topic) =
      about topic
        (codes "Peer " ++ (S.show_peer peer_id ++ (codes " subscribed to " ++ P.show_topic topic)))
  reaction (Events.gossip_unsubscribed peer_id topic) =
      about topic (
        codes "Peer " ++ (S.show_peer peer_id ++ (codes " unsubscribed to " ++ P.show_topic topic)))
  reaction (Events.rendezvous_server_peer_registered peer registration) = tells (
      codes "Peer "
      ++ (S.show_peer peer
          ++ (codes " registered with namespace "
              ++ P.show_namespace (P.namespace_of registration))))
  reaction (Events.rendezvous_server_peer_not_registered peer namespace error) = tells (
      codes "Peer "
      ++ (S.show_peer peer ++ (codes " not registered: " ++ P.debug_error_code error)))
  reaction (Events.rendezvous_server_peer_unregistered peer namespace) = tells (
      codes "Peer "
      ++ (S.show_peer peer ++ (codes " unregistered, namespace " ++ P.show_namespace namespace)))
  reaction (Events.rendezvous_client_registered rendezvous_node ttl namespace) = tells (
      codes "Registered with node "
      ++ (S.show_peer rendezvous_node
          ++ (codes " in namespace "
              ++ (P.show_namespace namespace ++ (codes " with ttl " ++ show_ℕ ttl)))))
  reaction (Events.rendezvous_client_register_failed error) =
      fails (codes "Registration failed: " ++ P.show_register_error error)
  reaction (Events.rendezvous_client_discovered rendezvous_node registrations cookie) =
      tells (codes "Discovery succeeded for rendezvous node " ++ S.show_peer rendezvous_node)
  reaction (Events.rendezvous_client_discover_failed rendezvous_node namespace error) = fails (
      codes "Discovery failed for rendezvous node "
      ++ (S.show_peer rendezvous_node
          ++ (codes ", namespace "
              ++ (P.debug_namespace namespace ++ (codes ": " ++ P.debug_error_code error)))))
  reaction event = tells (codes "Got event: " ++ P.debug_event event)

  unfoldable pub react : Reaction → Ui T Q → Ui T Q
  unfolding receive connected closed
  react silent u = u
  react (tells text) u = info text u
  react (fails text) u = failure text u
  react (chat source topic text) u = receive source topic text u
  react (found peer addresses) u = show_found peer addresses u
  react (connects peer_id endpoint) u = connected peer_id endpoint u
  react (closes peer_id endpoint cause) u = closed peer_id endpoint cause u
  react (about topic text) u = about_topic topic text u

  abbrev pub see : Ui T Q → EngineEvent T → Ui T Q
  see u event = react (reaction event) u
