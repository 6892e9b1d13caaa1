-- ===== src/Ui/Network.antt =====
-- The methods of `UI` that reach the network (src/bin/trithemius-term/ui.rs).
use trithemius_p2p.Base.{
  stuck, ℕ, Text, codes, Option, none, some, [], ◌∷◌, ◌++◌, Eq, Outcome, ok, err, panic, ◌⊎◌, inl,
  inr, text_eq,
}
use trithemius_p2p.Base.Decimal.{parse_u16, show_ℕ}
use trithemius_p2p.Util.{Multiaddr}
use trithemius_p2p.NetworkAddr.Formats.{AddrError}
use trithemius_p2p.NetworkAddr
use trithemius_p2p.Subscriptions.Queue.{CircularQueue}
use trithemius_p2p.Engine.Events.{PackageTypes}
use trithemius_p2p.Engine.Run.{Swarm, Engine, EngineError, error}
use trithemius_p2p.Engine.Run
use trithemius_p2p.Engine.Ops.{ServiceError, Connects}
use trithemius_p2p.Engine.Ops
use trithemius_p2p.Ui.Actions.{waiting, ◌>>=◌, ◌>>◌, pure, raise, panicked, modify, tried}
use trithemius_p2p.Ui.{
  World, UiError, addr_error, listen_error, dial_error, peer_error, namespace_error, engine_error,
  Act, on_ui, on_engine, passing, log_info, log_error,
}

module _ {T : PackageTypes} (S : Swarm T) (Q : CircularQueue) (W : World S) ⦃peer_eq : Eq T.PeerId⦄
    ⦃query_eq : Eq T.QueryId⦄ where
  -- A network address that parses is used; one that does not is logged and raised.
  abbrev pub parsed :
      {A : Type 0} → Outcome AddrError Multiaddr → (Multiaddr → Act S Q W A) → Act S Q W A
  parsed (ok address) use_address = use_address address
  parsed (err x) use_address = do
    log_error S Q W (codes "Error parsing network address: " ++ W.show_addr_error x)
    raise (addr_error x)
  parsed panic use_address = panicked
  parsed stuck use_address = waiting

  unfoldable pub listen : Text → Act S Q W T.ListenerId
  listen address =
      parsed (NetworkAddr.from_str W.formats address)
        λ network_addr. passing S Q W listen_error (on_engine S Q W (Ops.listen S network_addr))

  abbrev pub connecting : Multiaddr → Act S Q W (Unit {0})
  connecting address =
      on_ui S Q W λ u. record u {
        view = record u.view { connect_list = u.view.connect_list ++ address ∷ [] };
      }

  unfoldable pub connect : Text → Act S Q W (Unit {0})
  connect address = parsed (NetworkAddr.from_str W.formats address) λ network_addr. do
    log_info S Q W (codes "Connecting to " ++ W.formats.show_multiaddr network_addr)
    passing S Q W dial_error (on_engine S Q W (Ops.dial S network_addr))
    connecting network_addr

  -- `?` on what a conversion gave
  abbrev pub given : {E A : Type 0} → (E → UiError S) → E ⊎ A → Act S Q W A
  given box (inl x) = raise (box x)
  given box (inr a) = pure a

  unfoldable pub register : Text → Text → Act S Q W (Unit {0})
  register namespace rendezvous_node = do
    rendezvous_node ← given peer_error (W.peer_from_str rendezvous_node)
    namespace ← given namespace_error (W.namespace_new namespace)
    passing S Q W engine_error (on_engine S Q W (Run.register S namespace rendezvous_node))

  abbrev pub engine_finding : T.PeerId → Act S Q W (Unit {0})
  engine_finding peer = modify λ (u, e). (u, Run.find_peer S peer e)

  abbrev pub find_parsed : Text ⊎ T.PeerId → Act S Q W (Unit {0})
  find_parsed (inr peer) = do
    log_info S Q W (codes "Finding peer " ++ S.show_peer peer)
    engine_finding peer
  find_parsed (inl x) = do
    log_error S Q W (codes "Error parsing PeerId: " ++ x)
    raise (peer_error x)

  unfoldable pub find_peer : Text → Act S Q W (Unit {0})
  find_peer peer_id = find_parsed (W.peer_from_str peer_id)

  abbrev pub after_create : ServiceError S ⊎ Multiaddr → Act S Q W (Unit {0})
  after_create (inr service_address) =
      log_info S Q W (codes "Created onion service " ++ W.formats.show_multiaddr service_address)
  after_create (inl x) =
      log_error S Q W (codes "Error creating onion service: " ++ W.show_service_error x)

  abbrev pub create_at : ℕ → Multiaddr → Act S Q W (Unit {0})
  create_at virt_port listen_address = do
    result ← tried (
        on_engine S Q W (
          Ops.create_transient_onion_service S W.formats W.environment W.connects virt_port
            listen_address))
    after_create result

  abbrev pub create_parsed : ℕ → Outcome AddrError Multiaddr → Act S Q W (Unit {0})
  create_parsed virt_port (ok listen_address) = create_at virt_port listen_address
  create_parsed virt_port (err x) =
      log_error S Q W (codes "Error parsing listen address: " ++ W.show_addr_error x)
  create_parsed virt_port panic = panicked
  create_parsed virt_port stuck = waiting

  -- `Multiaddr::from_str(…).unwrap()`
  abbrev pub create_unwrapped : ℕ → Outcome AddrError Multiaddr → Act S Q W (Unit {0})
  create_unwrapped virt_port (ok listen_address) = create_at virt_port listen_address
  create_unwrapped virt_port (err x) = panicked
  create_unwrapped virt_port panic = panicked
  create_unwrapped virt_port stuck = waiting

  abbrev pub create_for : ℕ → Option Text → Act S Q W (Unit {0})
  create_for virt_port (some address_string) =
      create_parsed virt_port (W.formats.parse_multiaddr address_string)
  create_for virt_port none =
      create_unwrapped virt_port
        (W.formats.parse_multiaddr (codes "/ip4/127.0.0.1/tcp/" ++ show_ℕ virt_port))

  abbrev pub create_on : Text → Option ℕ → Option Text → Act S Q W (Unit {0})
  create_on virt_port_str (some virt_port) listen_address = create_for virt_port listen_address
  create_on virt_port_str none listen_address =
      log_error S Q W (codes "Error parsing virtual port: " ++ W.show_int_error virt_port_str)

  unfoldable pub create_onion_service : Text → Option Text → Act S Q W (Unit {0})
  create_onion_service virt_port_str listen_address =
      create_on virt_port_str (parse_u16 virt_port_str) listen_address
