-- ===== src/Engine/Config.antt =====
-- The options of the command line that the engine reads (src/cli.rs) and `EngineConfig`
-- (src/engine.rs). The configurations of the libp2p protocols are types of other packages, each
-- with the default that the conversion takes.
use trithemius_p2p.Base.{
  Bool, true, false, Option, none, some, List, [], ◌∷◌, ◌++◌, is_some, if◌then◌else◌,
}
use trithemius_p2p.Util.{Multiaddr}

pub data Discovery : Type 0 where
  kademlia mdns rendezvous : Discovery

pub data NatTraversal : Type 0 where
  autonat circuit_relay dcutr : NatTraversal

pub data KademliaType : Type 0 where
  ip2p : KademliaType

-- The options that `From<Cli>` reads.
pub record Cli : Type 0 where
  pub discovery : Option (List Discovery)
  pub nat_traversal : Option (List NatTraversal)
  pub rendezvous_server : Bool
  pub use_tor : Bool
  pub tor_proxy_address : Option Multiaddr
  pub tor_control_address : Option Multiaddr

-- The packages' configurations and their defaults.
pub record Defaults : Type 1 where
  pub Gossipsub : Type 0
  pub Autonat : Type 0
  pub Kademlia : Type 0
  pub Mdns : Type 0
  pub gossipsub_default : Gossipsub
  pub autonat_default : Autonat
  pub kademlia_default : Kademlia
  pub mdns_default : Mdns

pub record EngineConfig (P : Defaults) : Type 0 where
  pub gossipsub_config : P.Gossipsub
  pub autonat_config : Option P.Autonat
  pub use_circuit_relay : Bool
  pub use_dcutr : Bool
  pub kademlia_type : Option KademliaType
  pub kademlia_config : P.Kademlia
  pub mdns_config : Option P.Mdns
  pub rendezvous_server : Bool
  pub rendezvous_client : Bool
  pub use_tor : Bool
  pub tor_proxy_address : Option Multiaddr
  pub tor_control_address : Option Multiaddr
  pub socks_proxy_address : Option Multiaddr

module _ (P : Defaults) where
  -- `EngineConfig::default`
  abbrev pub default : EngineConfig P
  default = record {
    gossipsub_config = P.gossipsub_default;
    autonat_config = none;
    use_circuit_relay = false;
    use_dcutr = false;
    kademlia_type = none;
    kademlia_config = P.kademlia_default;
    mdns_config = none;
    rendezvous_server = false;
    rendezvous_client = false;
    use_tor = false;
    tor_proxy_address = none;
    tor_control_address = none;
    socks_proxy_address = none;
  }

  unfoldable pub set_discovery : EngineConfig P → Discovery → EngineConfig P
  set_discovery c kademlia = record c {
    kademlia_type = some ip2p;
    kademlia_config = P.kademlia_default;
  }
  set_discovery c mdns = record c { mdns_config = some P.mdns_default }
  set_discovery c rendezvous = record c { rendezvous_client = true }

  unfoldable pub set_nat_traversal : EngineConfig P → NatTraversal → EngineConfig P
  set_nat_traversal c autonat = record c { autonat_config = some P.autonat_default }
  set_nat_traversal c circuit_relay = record c { use_circuit_relay = true }
  set_nat_traversal c dcutr = record c { use_dcutr = true }

  unfoldable pub set_discoveries : EngineConfig P → List Discovery → EngineConfig P
  set_discoveries c [] = c
  set_discoveries c (d ∷ ds) = set_discoveries (set_discovery c d) ds

  unfoldable pub set_nat_traversals : EngineConfig P → List NatTraversal → EngineConfig P
  set_nat_traversals c [] = c
  set_nat_traversals c (n ∷ ns) = set_nat_traversals (set_nat_traversal c n) ns

  -- `for` over an option's list, if there is one
  abbrev pub given {ℓ} : {A : Type ℓ} → Option (List A) → List A
  given none = []
  given (some xs) = xs

  unfoldable pub from_cli : Cli → EngineConfig P
  from_cli cli =
      let c =
        set_nat_traversals (set_discoveries default (given cli.discovery))
          (given cli.nat_traversal) in
      let c = if cli.rendezvous_server then record c { rendezvous_server = true } else c in
      record c {
        use_tor = cli.use_tor;
        tor_proxy_address = cli.tor_proxy_address;
        tor_control_address = cli.tor_control_address;
      }

  -- The list `discovery` of `Engine::new` where it succeeds: what was set up, in the order of the set-up.
  unfoldable pub discovery_types : EngineConfig P → List Discovery
  discovery_types c =
      (if is_some c.kademlia_type then kademlia ∷ [] else [])
      ++ ((if is_some c.mdns_config then mdns ∷ [] else [])
          ++ (if c.rendezvous_client then rendezvous ∷ [] else []))

  -- The list `nat_traversal` of `Engine::new`.
  unfoldable pub nat_traversal_types : EngineConfig P → List NatTraversal
  nat_traversal_types c =
      (if is_some c.autonat_config then autonat ∷ [] else [])
      ++ (if c.use_dcutr then dcutr ∷ [] else [])
