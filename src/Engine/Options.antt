-- ===== src/Engine/Options.antt =====
-- What the engine sets up for the options of the command line.
use trithemius_p2p.Base.{
  ◌≡◌, Bool, ◌||◌, List, [], ◌∷◌, Eq, contains, is_some, if◌then◌else◌, arith,
}
use trithemius_p2p.Engine.Config.{
  Discovery, kademlia, mdns, rendezvous, NatTraversal, autonat, circuit_relay, dcutr, Cli, Defaults,
  EngineConfig, default, given, set_discovery, set_discoveries, set_nat_traversal,
  set_nat_traversals, from_cli, discovery_types, nat_traversal_types,
}

Discovery-discrete : Discrete Discovery
Discovery-discrete = hlevel

NatTraversal-discrete : Discrete NatTraversal
NatTraversal-discrete = hlevel

instance unfoldable pub discovery_eq : Eq Discovery
unfolding Discovery-discrete
discovery_eq = record { dec = Discovery-discrete }

instance unfoldable pub nat_traversal_eq : Eq NatTraversal
unfolding NatTraversal-discrete
nat_traversal_eq = record { dec = NatTraversal-discrete }

-- The members of a list that a test accepts.
abbrev pub only {ℓ} : {A : Type ℓ} → (A → Bool) → List A → List A
only p [] = []
only p (x ∷ xs) = if p x then x ∷ only p xs else only p xs

module _ (P : Defaults) where
  set_discoveries_lem :
      (ds : List Discovery) (c : EngineConfig P)
      → let c' = set_discoveries P c ds in
        (is_some c'.kademlia_type ≡ is_some c.kademlia_type || contains ds kademlia)
        × (is_some c'.mdns_config ≡ is_some c.mdns_config || contains ds mdns)
        × (c'.rendezvous_client ≡ c.rendezvous_client || contains ds rendezvous)
        × (c'.autonat_config ≡ c.autonat_config)
        × (c'.use_dcutr ≡ c.use_dcutr)
  unfolding set_discoveries set_discovery
  set_discoveries_lem [] c = ground arith
  set_discoveries_lem (kademlia ∷ ds) c =
      ground (arith, set_discoveries_lem ds (set_discovery P c kademlia))
  set_discoveries_lem (mdns ∷ ds) c =
      ground (arith, set_discoveries_lem ds (set_discovery P c mdns))
  set_discoveries_lem (rendezvous ∷ ds) c =
      ground (arith, set_discoveries_lem ds (set_discovery P c rendezvous))

  set_nat_traversals_lem :
      (ns : List NatTraversal) (c : EngineConfig P)
      → let c' = set_nat_traversals P c ns in
        (is_some c'.autonat_config ≡ is_some c.autonat_config || contains ns autonat)
        × (c'.use_dcutr ≡ c.use_dcutr || contains ns dcutr)
        × (c'.kademlia_type ≡ c.kademlia_type)
        × (c'.mdns_config ≡ c.mdns_config)
        × (c'.rendezvous_client ≡ c.rendezvous_client)
  unfolding set_nat_traversals set_nat_traversal
  set_nat_traversals_lem [] c = ground arith
  set_nat_traversals_lem (autonat ∷ ns) c =
      ground (arith, set_nat_traversals_lem ns (set_nat_traversal P c autonat))
  set_nat_traversals_lem (circuit_relay ∷ ns) c =
      ground (arith, set_nat_traversals_lem ns (set_nat_traversal P c circuit_relay))
  set_nat_traversals_lem (dcutr ∷ ns) c =
      ground (arith, set_nat_traversals_lem ns (set_nat_traversal P c dcutr))

  discovery_types_only :
      (c : EngineConfig P) (p : Discovery → Bool)
      → is_some c.kademlia_type ≡ p kademlia
      → is_some c.mdns_config ≡ p mdns
      → c.rendezvous_client ≡ p rendezvous
      → discovery_types P c ≡ only p (kademlia ∷ mdns ∷ rendezvous ∷ [])
  unfolding discovery_types
  discovery_types_only c p k m r = rw (k, m, r) (ground arith)

  nat_traversal_types_only :
      (c : EngineConfig P) (p : NatTraversal → Bool)
      → is_some c.autonat_config ≡ p autonat
      → c.use_dcutr ≡ p dcutr
      → nat_traversal_types P c ≡ only p (autonat ∷ dcutr ∷ [])
  unfolding nat_traversal_types
  nat_traversal_types_only c p a d = rw (a, d) (ground arith)

  -- The engine lists the kinds of discovery that the options name, each once and in a fixed order,
  -- and of the ways through a NAT those that the options name, but never the circuit relay.
  pub from_cli-types :
      (cli : Cli)
      → (discovery_types P (from_cli P cli)
          ≡ only (contains (given P cli.discovery)) (kademlia ∷ mdns ∷ rendezvous ∷ []))
        × (nat_traversal_types P (from_cli P cli)
            ≡ only (contains (given P cli.nat_traversal)) (autonat ∷ dcutr ∷ []))
  unfolding from_cli
  from_cli-types cli =
      let ds = given P cli.discovery in
      let ns = given P cli.nat_traversal in
      let c = set_discoveries P (default P) ds in
      let (k, m, r, a, d) = set_discoveries_lem ds (default P) in
      let (a', d', k', m', r') = set_nat_traversals_lem ns c in
      (
        discovery_types_only (from_cli P cli) (contains ds) (ground (arith, k, k'))
            (ground (arith, m, m')) (ground (arith, r, r')),
        nat_traversal_types_only (from_cli P cli) (contains ns) (ground (arith, a, a'))
            (ground (arith, d, d')),
      )
