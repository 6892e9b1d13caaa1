-- ===== src/Terminal/Startup.antt =====
-- `MyHandler::startup` (src/bin/trithemius-term/main.rs), `UI::new` and `UI::startup`
-- (src/bin/trithemius-term/ui.rs), and the options that they read (src/cli.rs).
use trithemius_p2p.Base.{Text, codes, Option, none, some, List, [], ◌∷◌, Eq, map, join}
use trithemius_p2p.Subscriptions.Queue.{CircularQueue}
use trithemius_p2p.TopicList
use trithemius_p2p.View
use trithemius_p2p.Engine.Config.{
  Discovery, NatTraversal, kademlia, mdns, rendezvous, autonat, circuit_relay, dcutr,
}
use trithemius_p2p.Engine.Events.{PackageTypes}
use trithemius_p2p.Engine.Namespace.{NamespaceAndNodeId}
use trithemius_p2p.Engine.Run.{Swarm}
use trithemius_p2p.Engine.Run
use trithemius_p2p.Ui.Actions.{◌>>◌, pure, panicked, modify}
use trithemius_p2p.Ui.{World, engine_error, Ui, Act, on_engine, passing}
use trithemius_p2p.Ui.Topics.{subscribe}
use trithemius_p2p.Ui.Network.{listen, connect, create_onion_service}

-- The options that `startup` reads.
pub record Options (T : PackageTypes) : Type 0 where
  pub subscribe : Option Text
  pub listen : Option Text
  pub connect : Option Text
  pub create_onion_service : Option (List Text)
  pub register : Option (List (NamespaceAndNodeId T.Namespace T.PeerId))

-- The derived `Display`: the names of the constructors.
abbrev pub show_discovery : Discovery → Text
show_discovery kademlia = codes "Kademlia"
show_discovery mdns = codes "Mdns"
show_discovery rendezvous = codes "Rendezvous"

abbrev pub show_nat_traversal : NatTraversal → Text
show_nat_traversal autonat = codes "Autonat"
show_nat_traversal circuit_relay = codes "CircuitRelay"
show_nat_traversal dcutr = codes "Dcutr"

abbrev pub list_of : List Text → Text
list_of [] = codes "None"
list_of (name ∷ names) = join (codes ", ") (name ∷ names)

module _ {T : PackageTypes} (S : Swarm T) (Q : CircularQueue) (W : World S) ⦃peer_eq : Eq T.PeerId⦄
    ⦃query_eq : Eq T.QueryId⦄ where
  -- `UI::new`
  abbrev pub new_ui : T.PeerId → Ui T Q
  new_ui my_identity = record {
    my_identity = my_identity;
    view = View.new Q;
    clock_reads = 0;
    subscriptions = [];
    subscription_list = TopicList.new;
    line = record { input = []; input_cursor = 0 };
    discovery_methods = [];
    nat_traversal_methods = [];
  }

  -- `UI::startup`
  abbrev pub ui_startup : List Discovery → List NatTraversal → Ui T Q → Ui T Q
  ui_startup discovery_methods nat_traversal_methods u = record u {
    discovery_methods = list_of (map show_discovery discovery_methods);
    nat_traversal_methods = list_of (map show_nat_traversal nat_traversal_methods);
  }

  -- `if let Some(…)`
  abbrev pub if_given : {A B : Type 0} → Option A → (A → Act S Q W B) → Act S Q W (Unit {0})
  if_given none use_value = pure tt
  if_given (some a) use_value = do use_value a; pure tt

  -- `&values[0]` and `values[1]`, if there is one: the option has one value at least.
  abbrev pub create_service : List Text → Act S Q W (Unit {0})
  create_service [] = panicked
  create_service (virt_port ∷ []) = create_onion_service S Q W virt_port none
  create_service (virt_port ∷ listen_address ∷ _) =
      create_onion_service S Q W virt_port (some listen_address)

  abbrev pub register_all : List (NamespaceAndNodeId T.Namespace T.PeerId) → Act S Q W (Unit {0})
  register_all [] = pure tt
  register_all (n ∷ ns) = do
    passing S Q W engine_error (on_engine S Q W (Run.register S n.namespace n.node_id))
    register_all ns

  -- `ui.startup(…)` with the engine's lists
  abbrev pub show_methods : Act S Q W (Unit {0})
  show_methods = modify λ (u, e). (ui_startup e.discovery_types e.nat_traversal_types u, e)

  unfoldable pub startup : Options T → Act S Q W (Unit {0})
  startup cli = do
    show_methods
    if_given cli.listen (listen S Q W)
    if_given cli.connect (connect S Q W)
    if_given cli.subscribe (subscribe S Q W)
    if_given cli.create_onion_service create_service
    if_given cli.register register_all
