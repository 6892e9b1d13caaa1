-- ===== src/NetworkAddr/RoundTrip.antt =====
-- Addresses written as `host:port` and read back.
use trithemius_p2p.Base.{
  ℕ, ◌≤◌, ◌≡◌, refl, ◌∙◌, Text, codes, text_eq, none, some, Bool, true, false, ◌||◌, List, [], ◌∷◌,
  ◌++◌, ok, Bool-cases, Option-cases, inl, inr, length, split, has_char, to_ascii_lowercase, arith,
}
use trithemius_p2p.Base.Decimal.{
  parse_u16, show_ℕ, max_u16, parse_unsigned-show_ℕ, IsDecimal, show_ℕ-IsDecimal,
}
use trithemius_p2p.Util.{Protocol, ip4, ip6, tcp, dns, onion3, Multiaddr, nil, push, multiaddr_get}
use trithemius_p2p.NetworkAddr.Formats.{AddrFormats, IsLawful, IsPlain}
use trithemius_p2p.NetworkAddr.{
  starts_with_slash, ends_with, host_port, onion_host, from_host, from_parts, from_str,
  as_network_string,
}

split_plain : (c : ℕ) (s : Text) → has_char c s ≡ false → split c s ≡ (s, [])
split_plain c [] h = refl
split_plain c (d ∷ s) h = ground (arith, split_plain c s)

split_first :
    (c : ℕ) (s t : Text)
    → has_char c s ≡ false
    → split c (s ++ c ∷ t) ≡ (s, (split c t).0 ∷ (split c t).1)
split_first c [] t h = ground arith
split_first c (d ∷ s) t h = ground (arith, split_first c s t)

has_char-append : (c : ℕ) (s t : Text) → has_char c (s ++ t) ≡ (has_char c s || has_char c t)
has_char-append c [] t = refl
has_char-append c (d ∷ s) t = ground (arith, has_char-append c s t)

decimal_plain : (s : Text) → IsDecimal s → has_char b':' s ≡ false
decimal_plain [] d = refl
decimal_plain (c ∷ s) d = ground (arith, decimal_plain s d.1)

no_slash : (s t : Text) → has_char b'/' s ≡ false → starts_with_slash (s ++ b':' ∷ t) ≡ false
no_slash [] t h = ground arith
no_slash (c ∷ s) t h = ground arith

abbrev pub is_ip6 : Protocol → Bool
is_ip6 (ip6 a) = true
is_ip6 p = false

module _ (F : AddrFormats) where
  -- A plain host with a port is taken apart at the colon.
  from_str-host_port :
      (host : Text) (port : ℕ)
      → IsPlain host
      → port ≤ max_u16
      → from_str F (host_port host port) ≡ from_host F host port
  unfolding from_str
  from_str-host_port host port plain le = ground (
    arith,
    no_slash host (show_ℕ port) plain.1,
    has_char-append b':' host (codes ":" ++ show_ℕ port),
    split_first b':' host (show_ℕ port) plain.0,
    split_plain b':' (show_ℕ port) (decimal_plain (show_ℕ port) (show_ℕ-IsDecimal port)),
    parse_unsigned-show_ℕ max_u16 port le,
  )

ends_with_suffix : (suffix s : Text) → ends_with suffix (s ++ suffix) ≡ true
ends_with_suffix [] [] = ground arith
ends_with_suffix (c ∷ t) [] = ground arith
ends_with_suffix suffix (c ∷ s) = ground (arith, ends_with_suffix suffix s)

pub onion-IsPlain : (s : Text) → IsPlain s → IsPlain (s ++ codes ".onion")
onion-IsPlain s h = (
  has_char-append b':' s (codes ".onion") ∙ ground arith,
  has_char-append b'/' s (codes ".onion") ∙ ground arith,
)

module _ (F : AddrFormats) (L : IsLawful F) where
  from_host_ip4 :
      (host : Text) (port : ℕ) {a : ℕ}
      → F.parse_ip4 host ≡ some a
      → from_host F host port ≡ ok (push (push nil (ip4 a)) (tcp port))
  unfolding from_host
  from_host_ip4 host port h = rw (h, from_host)

  from_host_dns :
      (host : Text) (port : ℕ)
      → F.parse_ip4 host ≡ none
      → F.parse_ip6 host ≡ none
      → ends_with (codes ".onion") host ≡ false
      → from_host F host port ≡ ok (push (push nil (dns host)) (tcp port))
  unfolding from_host
  from_host_dns host port h4 h6 h = rw (h4, from_host, h6, h)

  from_host_onion :
      (hash : Text) (port : ℕ)
      → length hash ≡ 35
      → from_host F (onion_host F hash) port
        ≡ ok (push nil (onion3 (record { hash = hash; port = port })))
  unfolding from_host
  from_host_onion hash port size =
      let name = to_ascii_lowercase (F.encode_base32 hash) in
      let plain : IsPlain (name ++ codes ".onion") = onion-IsPlain name (L.encode-IsPlain hash) in
      ground (
        arith,
        L.parse_ip4_onion name,
        L.parse_ip6_colon (name ++ codes ".onion") plain.0,
        ends_with_suffix (codes ".onion") name,
        split_first b'.' name (codes "onion") (L.encode_no_dot hash),
        L.decode-encode hash,
      )

  -- An IPv4 address with a TCP port below 65536 has a network string, and that string is read back
  -- as the address.
  pub from_str-as_network_string_ip4 :
      (a port : ℕ)
      → port ≤ max_u16
      → let addr = push (push nil (ip4 a)) (tcp port) in
        (text : Text) × (as_network_string F addr ≡ ok text) × (from_str F text ≡ ok addr)
  unfolding as_network_string
  from_str-as_network_string_ip4 a port le = (
    host_port (F.show_ip4 a) port,
    refl,
    from_str-host_port F (F.show_ip4 a) port (L.show_ip4-IsPlain a) le
        ∙ from_host_ip4 (F.show_ip4 a) port (L.parse-show_ip4 a),
  )

  -- An onion address of 35 bytes with a port below 65536 has a network string, and that string is
  -- read back as the address.
  pub from_str-as_network_string_onion3 :
      (hash : Text) (port : ℕ)
      → length hash ≡ 35
      → port ≤ max_u16
      → let addr = push nil (onion3 (record { hash = hash; port = port })) in
        (text : Text) × (as_network_string F addr ≡ ok text) × (from_str F text ≡ ok addr)
  unfolding as_network_string
  from_str-as_network_string_onion3 hash port size le = (
    host_port (onion_host F hash) port,
    refl,
    from_str-host_port F (onion_host F hash) port
          (onion-IsPlain (to_ascii_lowercase (F.encode_base32 hash)) (L.encode-IsPlain hash)) le
        ∙ from_host_onion hash port size,
  )

  -- A host name without colons and slashes that is neither the text of an IPv4 address nor ends in
  -- `.onion`, with a TCP port below 65536, has a network string, and that string is read back as
  -- the address.
  pub from_str-as_network_string_dns :
      (name : Text) (port : ℕ)
      → IsPlain name
      → F.parse_ip4 name ≡ none
      → ends_with (codes ".onion") name ≡ false
      → port ≤ max_u16
      → let addr = push (push nil (dns name)) (tcp port) in
        (text : Text) × (as_network_string F addr ≡ ok text) × (from_str F text ≡ ok addr)
  unfolding as_network_string
  from_str-as_network_string_dns name port plain not_ip not_onion le = (
    host_port name port,
    refl,
    from_str-host_port F name port plain le
        ∙ from_host_dns name port not_ip (L.parse_ip6_colon name plain.0) not_onion,
  )

  split_no_char : (c : ℕ) (s : Text) → has_char c (split c s).0 ≡ false
  split_no_char c [] = refl
  split_no_char c (d ∷ s) = ground (arith, split_no_char c s)

  from_host_no_ip6 :
      (host : Text) (port : ℕ) {addr : Multiaddr}
      → has_char b':' host ≡ false
      → from_host F host port ≡ ok addr
      → multiaddr_get addr is_ip6 ≡ none
  unfolding from_host multiaddr_get
  from_host_no_ip6 host port h e = ground (arith, L.parse_ip6_colon host h)

  -- Where the parser of IPv6 addresses wants a colon, no text that begins without a slash is read
  -- as an address with an IPv6 component.
  pub from_str_no_ip6 :
      (text : Text) {addr : Multiaddr}
      → starts_with_slash text ≡ false
      → from_str F text ≡ ok addr
      → multiaddr_get addr is_ip6 ≡ none
  unfolding from_str
  from_str_no_ip6 text {addr} h e = elim (Bool-cases (has_char b':' text)) [
    | inl colon ↦
        parts (split b':' text).0 (split b':' text).1 (split_no_char b':' text) (ground arith)
    | inr no_colon ↦ ground arith
  ]
    where
      parts :
          (host : Text) (rest : List Text)
          → has_char b':' host ≡ false
          → from_parts F (host, rest) ≡ ok addr
          → multiaddr_get addr is_ip6 ≡ none
      parts host [] plain e = cc
      parts host (port_text ∷ rest) plain e = elim (Option-cases (parse_u16 port_text)) [
        | inl bad ↦ cc (rw (bad, from_parts) at e)
        | inr (port, good) ↦ from_host_no_ip6 host port plain (rw (good, from_parts) at e)
      ]
