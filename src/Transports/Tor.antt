-- ===== src/Transports/Tor.antt =====
-- src/transports/tor.rs. `Inbound` stands for the TCP transport of the package `libp2p-tcp`, which
-- listens for the onion services.
use trithemius_p2p.Base.{
  stuck, ℕ, Text, codes, text_eq, Eq, ◌==◌, Option, none, some, Bool, true, false, not, ◌&&◌, List,
  [], ◌++◌, find, Outcome, ok, err, panic, ◌>>=◌, map_err, is_some, if◌then◌else◌,
}
use trithemius_p2p.Base.Decimal.{show_ℕ}
use native.Mathlib.Decide.{ℕ_discrete}
use trithemius_p2p.Util.{
  Onion3Addr, Protocol, onion3, tor, Multiaddr, push, multiaddr_get, multiaddr_replace,
}
use trithemius_p2p.NetworkAddr.{onion_host}
use trithemius_p2p.NetworkAddr.Formats.{AddrFormats}
use trithemius_p2p.Control.Error.{TorError, io_error, socks5_error}
use trithemius_p2p.Control.Service.{OnionService}
use trithemius_p2p.Transports.Errors.{
  TransportError, multiaddr_not_supported, other_error, is_tor, is_onion3, is_tor_or_onion3,
}
use trithemius_p2p.Transports.Socks5
use trithemius_p2p.Transports.Socks5.{Socks5Transport, DialPlan}

Multiaddr-discrete : Discrete Multiaddr
Multiaddr-discrete = hlevel ℕ_discrete

instance unfoldable pub multiaddr_eq : Eq Multiaddr
unfolding Multiaddr-discrete ℕ_discrete
multiaddr_eq = record { dec = Multiaddr-discrete }

-- What a transport reports when it is polled.
pub data TransportEvent : Type 0 where
  new_address : ℕ → Multiaddr → TransportEvent
  address_expired : ℕ → Multiaddr → TransportEvent
  incoming : ℕ → Multiaddr → Multiaddr → TransportEvent
  listener_closed listener_error : ℕ → TransportEvent

pub data Poll : Type 0 where
  ready : TransportEvent → Poll
  pending : Poll

pub record Inbound (Io : Type 0) : Type 1 where
  pub State : Type 0
  pub listen_on : State → Multiaddr → State × Outcome (TransportError Io) ℕ
  pub remove_listener : State → ℕ → State × Bool
  pub poll : State → State × Poll

-- `received` holds what `try_recv` has yet to give of the channel, if there is a channel.
pub record TorTransport {Io : Type 0} (N : Inbound Io) : Type 0 where
  pub outbound : Option Socks5Transport
  pub inbound : N.State
  pub received : Option (List OnionService)
  pub onion_services : List OnionService
  pub always_use : Bool

-- `"…".parse().unwrap()`
abbrev pub unwrap_address : {E F A : Type 0} → Outcome E A → Outcome F A
unwrap_address (ok a) = ok a
unwrap_address (err e) = panic
unwrap_address panic = panic
unwrap_address stuck = stuck

module _ {Io : Type 0} (N : Inbound Io) where
  abbrev pub new : N.State → TorTransport N
  new inbound = record {
    outbound = none;
    inbound = inbound;
    received = none;
    onion_services = [];
    always_use = false;
  }

  abbrev pub use_onion_service_channel : TorTransport N → List OnionService → TorTransport N
  use_onion_service_channel t received = record t { received = some received }

  abbrev pub use_proxy_address : TorTransport N → Multiaddr → TorTransport N
  use_proxy_address t proxy_addr = record t {
    outbound = some (Socks5.use_always (Socks5.default_proxy_address Socks5.new proxy_addr));
  }

  abbrev pub use_always : TorTransport N → TorTransport N
  use_always t = record t { always_use = true }

module _ {Io Socks : Type 0} where
  abbrev pub transform_socks_error : TransportError Socks → TransportError (TorError Io Socks)
  transform_socks_error (multiaddr_not_supported addr) = multiaddr_not_supported addr
  transform_socks_error (other_error e) = other_error (socks5_error e)

  abbrev pub transform_stdio_error : TransportError Io → TransportError (TorError Io Socks)
  transform_stdio_error (multiaddr_not_supported addr) = multiaddr_not_supported addr
  transform_stdio_error (other_error e) = other_error (io_error e)

-- The text that is parsed in place of an onion address.
abbrev pub onion_text : AddrFormats → Onion3Addr → Text
onion_text F address =
    codes "/dns/" ++ (onion_host F address.hash ++ (codes "/tcp/" ++ show_ℕ address.port))

abbrev pub default_tor_proxy_address : {E : Type 0} → AddrFormats → Outcome E Multiaddr
default_tor_proxy_address F = unwrap_address (F.parse_multiaddr (codes "/ip4/127.0.0.1/tcp/9050"))

module _ {Io : Type 0} (F : AddrFormats) (N : Inbound Io) where
  abbrev pub use_default_proxy_address : {E : Type 0} → TorTransport N → Outcome E (TorTransport N)
  use_default_proxy_address t =
      default_tor_proxy_address F >>= λ proxy. ok (use_proxy_address N t proxy)

  -- Where the transport is always used, an address that names no Tor protocol gets one.
  abbrev pub complete : TorTransport N → Multiaddr → Multiaddr
  complete t addr =
      if t.always_use && not (is_some (multiaddr_get addr is_tor_or_onion3))
      then push addr tor
      else addr

  module _ {Socks : Type 0} where
    abbrev pub unwrap_replaced : Option Multiaddr → Outcome (TransportError Socks) Multiaddr
    unwrap_replaced none = panic
    unwrap_replaced (some addr) = ok addr

    abbrev pub dial_onion :
        Socks5Transport → Multiaddr → Option Protocol → Outcome (TransportError Socks) DialPlan
    dial_onion outbound addr (some (onion3 address)) =
        unwrap_address (F.parse_multiaddr (onion_text F address)) >>= λ replacement.
        unwrap_replaced (multiaddr_replace addr (λ (_, p). is_onion3 p) replacement) >>= λ new_addr.
        Socks5.do_dial F outbound new_addr
    dial_onion outbound addr p = err (multiaddr_not_supported addr)

    abbrev pub dial_replaced :
        Socks5Transport → Multiaddr → Option Multiaddr → Outcome (TransportError Socks) DialPlan
    dial_replaced outbound addr (some new_addr) = Socks5.do_dial F outbound new_addr
    dial_replaced outbound addr none = dial_onion outbound addr (multiaddr_get addr is_onion3)

    -- The address of `multiaddr_replace` is `"/socks5".parse().unwrap()`.
    abbrev pub dial_out :
        Option Socks5Transport → Multiaddr → Outcome (TransportError Socks) DialPlan
    dial_out none addr = err (multiaddr_not_supported addr)
    dial_out (some outbound) addr =
        unwrap_address (F.parse_multiaddr (codes "/socks5")) >>= λ replacement.
        dial_replaced outbound addr (multiaddr_replace addr (λ (_, p). is_tor p) replacement)

    unfoldable pub do_dial : TorTransport N → Multiaddr → Outcome (TransportError Socks) DialPlan
    do_dial t addr = dial_out t.outbound (complete t addr)

    -- `dial_as_listener` is `dial`.
    unfoldable pub dial :
        TorTransport N → Multiaddr → Outcome (TransportError (TorError Io Socks)) DialPlan
    unfolding do_dial
    dial t addr = map_err transform_socks_error (do_dial t addr)

module _ {Io Socks : Type 0} (N : Inbound Io) where
  abbrev pub listen_at :
      TorTransport N
      → Multiaddr
      → Option OnionService
      → TorTransport N × Outcome (TransportError (TorError Io Socks)) ℕ
  listen_at t addr none = (t, err (multiaddr_not_supported addr))
  listen_at t addr (some service) =
      let (inbound, result) = N.listen_on t.inbound service.listen_address in
      (record t { inbound = inbound }, map_err transform_stdio_error result)

  -- The services on the channel are stored first, then the address is looked for among all.
  unfoldable pub listen_on :
      TorTransport N → Multiaddr → TorTransport N × Outcome (TransportError (TorError Io Socks)) ℕ
  listen_on t addr = elim t.received [
    | none ↦ (t, err (multiaddr_not_supported addr))
    | some services ↦
        let t' : TorTransport N = record t {
          received = some [];
          onion_services = t.onion_services ++ services;
        } in
        listen_at t' addr (find (λ o. o.listen_address == addr) t'.onion_services)
  ]

module _ {Io : Type 0} (N : Inbound Io) where
  abbrev pub remove_listener : TorTransport N → ℕ → TorTransport N × Bool
  remove_listener t id =
      let (inbound, removed) = N.remove_listener t.inbound id in
      (record t { inbound = inbound }, removed)

  abbrev pub address_translation : Multiaddr → Multiaddr → Option Multiaddr
  address_translation listen observed = none

  abbrev pub report : ℕ → Option OnionService → Poll
  report listener_id none = pending
  report listener_id (some service) = ready (new_address listener_id service.address)

  abbrev pub on_poll : List OnionService → Poll → Poll
  on_poll services (ready (new_address listener_id listen_addr)) =
      report listener_id (find (λ o. o.listen_address == listen_addr) services)
  on_poll services p = pending

  unfoldable pub poll : TorTransport N → TorTransport N × Poll
  poll t =
      let (inbound, polled) = N.poll t.inbound in
      (record t { inbound = inbound }, on_poll t.onion_services polled)
