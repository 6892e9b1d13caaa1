-- ===== src/NetworkAddr/Formats.antt =====
-- The texts of addresses that other code defines: IP addresses, multiaddresses and base 32. The
-- laws are what the program relies on.
use trithemius_p2p.Base.{
  ℕ, ◌≡◌, Text, codes, Option, none, some, false, ◌++◌, Outcome, to_ascii_lowercase, has_char,
}
use trithemius_p2p.Util.{Protocol, Multiaddr}

-- The error of `libp2p::multiaddr`: `ParsingError` with a message, the same made of a
-- `ParseIntError`, or another.
pub data AddrError : Type 0 where
  parsing_error : Text → AddrError
  bad_integer : AddrError
  invalid_multiaddr : Text → AddrError

pub record AddrFormats : Type 0 where
  pub show_ip4 : ℕ → Text
  pub parse_ip4 : Text → Option ℕ
  pub show_ip6 : ℕ → Text
  pub parse_ip6 : Text → Option ℕ
  -- RFC 4648 without padding
  pub encode_base32 : Text → Text
  pub decode_base32 : Text → Option Text
  pub parse_multiaddr : Text → Outcome AddrError Multiaddr
  pub show_multiaddr : Multiaddr → Text
  pub show_protocol : Protocol → Text

-- No `:` and no `/` stands in the text.
abbrev pub IsPlain : Text → Type 0
IsPlain s = (has_char b':' s ≡ false) × (has_char b'/' s ≡ false)

-- What the documentation of the formats says.
pub record IsLawful (F : AddrFormats) : Type 0 where
  pub parse-show_ip4 : (a : ℕ) → F.parse_ip4 (F.show_ip4 a) ≡ some a
  pub show_ip4-IsPlain : (a : ℕ) → IsPlain (F.show_ip4 a)
  -- A text of an IPv6 address has a colon, one of an IPv4 address digits and dots alone.
  pub parse_ip6_colon : (s : Text) → has_char b':' s ≡ false → F.parse_ip6 s ≡ none
  pub parse_ip4_onion : (s : Text) → F.parse_ip4 (s ++ codes ".onion") ≡ none
  pub decode-encode :
      (bytes : Text) → F.decode_base32 (to_ascii_lowercase (F.encode_base32 bytes)) ≡ some bytes
  pub encode-IsPlain : (bytes : Text) → IsPlain (to_ascii_lowercase (F.encode_base32 bytes))
  pub encode_no_dot :
      (bytes : Text) → has_char b'.' (to_ascii_lowercase (F.encode_base32 bytes)) ≡ false
