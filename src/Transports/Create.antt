-- ===== src/Transports/Create.antt =====
-- `create_transport` of src/transports/mod.rs: which transports there are, in which order they are
-- tried, and how the options set them up. The DNS transport and the upgrade of connections are the
-- libraries'; the first may fail, the keys of the second may panic.
use trithemius_p2p.Base.{Option, none, some, Bool, [], Outcome, ok, ◌>>=◌, if◌then◌else◌}
use trithemius_p2p.Util.{Multiaddr}
use trithemius_p2p.NetworkAddr.Formats.{AddrFormats}
use trithemius_p2p.Transports.Socks5
use trithemius_p2p.Transports.Socks5.{Socks5Transport}
use trithemius_p2p.Transports.Tor
use trithemius_p2p.Transports.Tor.{Inbound, TorTransport}

-- The three transports in the order of `or_transport`.
pub record Transports {Io : Type 0} (N : Inbound Io) (Dns : Type 0) : Type 0 where
  pub tor_transport : TorTransport N
  pub socks_transport : Socks5Transport
  pub dns_transport : Dns

module _ {Io : Type 0} (F : AddrFormats) (N : Inbound Io) where
  abbrev tor_proxy : TorTransport N → Option Multiaddr → Outcome Io (TorTransport N)
  tor_proxy t (some address) = ok (Tor.use_proxy_address N t address)
  tor_proxy t none = Tor.use_default_proxy_address F N t

  abbrev socks_proxy : Option Multiaddr → Socks5Transport
  socks_proxy (some address) = Socks5.default_proxy_address Socks5.new address
  socks_proxy none = Socks5.new

  module _ {Dns : Type 0} (system_dns : Outcome Io Dns) (noise_keys : Outcome Io (Unit {0})) where
    unfoldable pub create_transport :
        N.State → Option Multiaddr → Bool → Option Multiaddr → Outcome Io (Transports N Dns)
    create_transport inbound tor_proxy_address use_tor socks_proxy_address =
        tor_proxy (Tor.use_onion_service_channel N (Tor.new N inbound) []) tor_proxy_address
        >>= λ tor. system_dns >>= λ dns. noise_keys >>= λ _. ok (record {
          tor_transport = if use_tor then Tor.use_always N tor else tor;
          socks_transport = socks_proxy socks_proxy_address;
          dns_transport = dns;
        })
