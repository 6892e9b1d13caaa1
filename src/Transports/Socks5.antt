-- ===== src/Transports/Socks5.antt =====
-- src/transports/socks5.rs. A dial that is accepted is a plan: the proxy that the future connects
-- to, and the host and port that it asks the proxy for.
use trithemius_p2p.Base.{
  ℕ, Text, Option, none, some, Bool, true, false, not, ◌&&◌, Outcome, ok, err, ◌>>=◌, is_some,
  if◌then◌else◌,
}
use trithemius_p2p.Util.{
  Protocol, ip4, ip6, tcp, dns, dns4, dns6, socks5, Multiaddr, push, is_empty_addr, multiaddr_get,
}
use trithemius_p2p.NetworkAddr.Formats.{AddrFormats}
use trithemius_p2p.Transports.Errors.{
  TransportError, multiaddr_not_supported, is_tcp, is_ip, is_dns, is_socks5,
}

pub data IpAddr : Type 0 where
  v4 v6 : ℕ → IpAddr

pub record SocketAddr : Type 0 where
  pub ip : IpAddr
  pub port : ℕ

module _ {E : Type 0} where
  abbrev pub tcp_port : Multiaddr → Option Protocol → Outcome (TransportError E) ℕ
  tcp_port addr (some (tcp port)) = ok port
  tcp_port addr p = err (multiaddr_not_supported addr)

  abbrev pub socket_ip : Multiaddr → ℕ → Option Protocol → Outcome (TransportError E) SocketAddr
  socket_ip addr port (some (ip4 a)) = ok (record { ip = v4 a; port = port })
  socket_ip addr port (some (ip6 a)) = ok (record { ip = v6 a; port = port })
  socket_ip addr port p = err (multiaddr_not_supported addr)

  unfoldable pub multiaddr_to_socketaddr : Multiaddr → Outcome (TransportError E) SocketAddr
  multiaddr_to_socketaddr addr = tcp_port addr (multiaddr_get addr is_tcp) >>= λ port.
      socket_ip addr port (multiaddr_get addr is_ip)

  abbrev pub pair_dns : Multiaddr → ℕ → Option Protocol → Outcome (TransportError E) (Text × ℕ)
  pair_dns addr port (some (dns name)) = ok (name, port)
  pair_dns addr port (some (dns4 name)) = ok (name, port)
  pair_dns addr port (some (dns6 name)) = ok (name, port)
  pair_dns addr port p = err (multiaddr_not_supported addr)

  module _ (F : AddrFormats) where
    abbrev pub pair_host :
        Multiaddr → ℕ → Option Protocol → Option Protocol → Outcome (TransportError E) (Text × ℕ)
    pair_host addr port (some (ip4 a)) name = ok (F.show_ip4 a, port)
    pair_host addr port (some (ip6 a)) name = ok (F.show_ip6 a, port)
    pair_host addr port ip name = pair_dns addr port name

    unfoldable pub multiaddr_to_pair : Multiaddr → Outcome (TransportError E) (Text × ℕ)
    multiaddr_to_pair addr = tcp_port addr (multiaddr_get addr is_tcp) >>= λ port.
        pair_host addr port (multiaddr_get addr is_ip) (multiaddr_get addr is_dns)

pub record Socks5Transport : Type 0 where
  pub proxy_addr : Option Multiaddr
  pub always_use : Bool

abbrev pub new : Socks5Transport
new = record { proxy_addr = none; always_use = false }

abbrev pub default_proxy_address : Socks5Transport → Multiaddr → Socks5Transport
default_proxy_address t proxy_addr = record t { proxy_addr = some proxy_addr }

abbrev pub use_always : Socks5Transport → Socks5Transport
use_always t = record t { always_use = true }

pub record DialPlan : Type 0 where
  pub proxy : SocketAddr
  pub target : Text × ℕ

-- The address with the default proxy added, where the transport is always used.
abbrev pub add_proxy : Multiaddr → Option Multiaddr → Multiaddr
add_proxy addr none = addr
add_proxy addr (some proxy) = push addr (socks5 proxy)

unfoldable pub complete : Socks5Transport → Multiaddr → Multiaddr
complete t addr =
    if t.always_use && not (is_some (multiaddr_get addr is_socks5))
    then add_proxy addr t.proxy_addr
    else addr

module _ {E : Type 0} (F : AddrFormats) where
  abbrev pub dial_through : Multiaddr → Option Multiaddr → Outcome (TransportError E) DialPlan
  dial_through addr none = err (multiaddr_not_supported addr)
  dial_through addr (some proxy) = multiaddr_to_socketaddr proxy >>= λ proxy_addr.
      multiaddr_to_pair F addr >>= λ target. ok (record { proxy = proxy_addr; target = target })

  -- An empty proxy address stands for the default one.
  abbrev pub dial_by :
      Option Multiaddr → Multiaddr → Option Protocol → Outcome (TransportError E) DialPlan
  dial_by default addr (some (socks5 proxy)) =
      dial_through addr (if is_empty_addr proxy then default else some proxy)
  dial_by default addr p = err (multiaddr_not_supported addr)

  unfoldable pub do_dial : Socks5Transport → Multiaddr → Outcome (TransportError E) DialPlan
  do_dial t addr =
      let addr' = complete t addr in dial_by t.proxy_addr addr' (multiaddr_get addr' is_socks5)

  -- `dial` and `dial_as_listener` box the same future.
  abbrev pub dial : Socks5Transport → Multiaddr → Outcome (TransportError E) DialPlan
  dial = do_dial

  abbrev pub listen_on : Socks5Transport → Multiaddr → Outcome (TransportError E) ℕ
  listen_on t address = err (multiaddr_not_supported address)
