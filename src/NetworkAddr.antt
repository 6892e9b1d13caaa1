-- ===== src/NetworkAddr.antt =====
-- src/network_addr.rs: addresses as `host:port` or as a multiaddress. The texts of IP addresses,
-- of multiaddresses and of base 32 are the parameter `F`.
pub mod Examples
pub mod Formats
pub mod RoundTrip
mod Tests
use trithemius_p2p.Base.{
  ℕ, Text, codes, ◌==◌, text_eq, Option, none, some, Bool, true, false, ◌||◌, List, [], ◌∷◌, ◌++◌,
  Outcome, ok, err, panic, ◌>>=◌, length, eqb, split, has_char, to_ascii_lowercase, if◌then◌else◌,
}
use trithemius_p2p.Base.Decimal.{parse_u16, show_ℕ}
use trithemius_p2p.Util.{
  Onion3Addr, Protocol, ip4, ip6, tcp, udp, dns, onion3, Multiaddr, nil, cons, iter, push,
}
use Formats.{AddrError, parsing_error, bad_integer, AddrFormats}

-- The host and the port that the loop of `as_network_string` has found so far.
pub record Found : Type 0 where
  pub host : Text
  pub port : Option ℕ

abbrev pub starts_with_slash : Text → Bool
starts_with_slash [] = false
starts_with_slash (c ∷ s) = eqb c b'/'

-- `ends_with`
abbrev pub ends_with : Text → Text → Bool
ends_with suffix [] = suffix == []
ends_with suffix (c ∷ s) = (c ∷ s) == suffix || ends_with suffix s

-- `"{}:{}"`
abbrev pub host_port : Text → ℕ → Text
host_port host port = host ++ (codes ":" ++ show_ℕ port)

module _ (F : AddrFormats) where
  -- The name of an onion service: `"{}.onion"` of the hash in base 32, without padding.
  abbrev pub onion_host : Text → Text
  onion_host hash = to_ascii_lowercase (F.encode_base32 hash) ++ codes ".onion"

  unfoldable pub note_protocol : Found → Protocol → Outcome AddrError Found
  note_protocol f (ip4 a) = ok (record f { host = F.show_ip4 a })
  note_protocol f (ip6 a) = ok (record f { host = F.show_ip6 a })
  note_protocol f (tcp p) = ok (record f { port = some p })
  note_protocol f (udp p) = ok (record f { port = some p })
  note_protocol f (dns name) = ok (record f { host = name })
  note_protocol f (onion3 a) = ok (record { host = onion_host a.hash; port = some a.port })
  note_protocol f p = err (
      parsing_error
        (codes "Unable to parse protocol " ++ (F.show_protocol p ++ codes " as network string")))

  unfoldable pub note_protocols : Found → List Protocol → Outcome AddrError Found
  unfolding note_protocol
  note_protocols f [] = ok f
  note_protocols f (p ∷ ps) = note_protocol f p >>= λ f'. note_protocols f' ps

  abbrev pub join_found : Found → Outcome AddrError Text
  join_found f = elim f.port [
    | none ↦ err (parsing_error (codes "No port specified"))
    | some port ↦ ok (host_port f.host port)
  ]

  unfoldable pub as_network_string : Multiaddr → Outcome AddrError Text
  unfolding note_protocols
  as_network_string addr =
      note_protocols (record { host = codes "<unknown>"; port = none }) (iter addr) >>= join_found

  -- The hash of an onion service's name: both `unwrap`s panic on a name that is no base 32 of 35
  -- bytes.
  abbrev pub hash_of : Option Text → Outcome AddrError Text
  hash_of none = panic
  hash_of (some bytes) = if eqb (length bytes) 35 then ok bytes else panic

  -- The protocols that a host and its port become.
  unfoldable pub from_host : Text → ℕ → Outcome AddrError Multiaddr
  from_host host port = elim (F.parse_ip4 host) [
    | some a ↦ ok (push (push nil (ip4 a)) (tcp port))
    | none ↦ elim (F.parse_ip6 host) [
      | some a ↦ ok (push (push nil (ip6 a)) (tcp port))
      | none ↦
          if ends_with (codes ".onion") host
          then (hash_of (F.decode_base32 (split b'.' host).0) >>= λ hash.
              ok (push nil (onion3 (record { hash = hash; port = port }))))
          else ok (push (push nil (dns host)) (tcp port))
    ]
  ]

  -- `parts[0]` and `parts[1]` of the text split at `:`, if there is one.
  unfoldable pub from_parts : Text × List Text → Outcome AddrError Multiaddr
  unfolding from_host
  from_parts (host, []) = panic
  from_parts (host, port_text ∷ rest) = elim (parse_u16 port_text) [
    | none ↦ err bad_integer
    | some port ↦ from_host host port
  ]

  unfoldable pub from_str : Text → Outcome AddrError Multiaddr
  unfolding from_parts
  from_str addr =
      if starts_with_slash addr
      then F.parse_multiaddr addr
      else if has_char b':' addr
      then from_parts (split b':' addr)
      else err (parsing_error (codes "No port specified"))
