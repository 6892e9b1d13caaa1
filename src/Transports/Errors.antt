-- ===== src/Transports/Errors.antt =====
-- The error of a libp2p transport, and the tests on protocols that the transports search by.
use trithemius_p2p.Base.{Bool, true, false}
use trithemius_p2p.Util.{Protocol, ip4, ip6, tcp, dns, dns4, dns6, onion3, tor, socks5, Multiaddr}

pub data TransportError (E : Type 0) : Type 0 where
  multiaddr_not_supported : Multiaddr → TransportError E
  other_error : E → TransportError E

abbrev pub is_tcp : Protocol → Bool
is_tcp (tcp p) = true
is_tcp p = false

abbrev pub is_ip : Protocol → Bool
is_ip (ip4 a) = true
is_ip (ip6 a) = true
is_ip p = false

abbrev pub is_dns : Protocol → Bool
is_dns (dns name) = true
is_dns (dns4 name) = true
is_dns (dns6 name) = true
is_dns p = false

abbrev pub is_socks5 : Protocol → Bool
is_socks5 (socks5 a) = true
is_socks5 p = false

abbrev pub is_tor : Protocol → Bool
is_tor tor = true
is_tor p = false

abbrev pub is_onion3 : Protocol → Bool
is_onion3 (onion3 a) = true
is_onion3 p = false

abbrev pub is_tor_or_onion3 : Protocol → Bool
is_tor_or_onion3 tor = true
is_tor_or_onion3 (onion3 a) = true
is_tor_or_onion3 p = false
