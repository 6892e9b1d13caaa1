-- ===== src/NetworkAddr/Examples.antt =====
-- Formats that meet the laws, for the examples: numbers in unary, and a code of two letters in
-- place of base 32.
use trithemius_p2p.Base.{
  ℕ, zero, suc, ◌+◌, ◌≡◌, refl, ap, ◌∙◌, Text, codes, text_eq, ◌==◌, Option, none, some, false, [],
  ◌∷◌, ◌++◌, Outcome, ok, err, eqb, has_char, split_once, split_once_found, to_ascii_lowercase,
  if◌then◌else◌, drop, arith,
}
use trithemius_p2p.Base.Decimal.{parse_u16, max_u16, show_ℕ, parse_unsigned-show_ℕ}
use trithemius_p2p.Util.{dns, tcp, socks5, nil, cons, Multiaddr}
use trithemius_p2p.NetworkAddr.Formats.{AddrError, parsing_error, AddrFormats, IsLawful}
use trithemius_p2p.Transports.Route.{ParsesBuilt}

abbrev repeat : ℕ → ℕ → Text → Text
repeat zero c s = s
repeat (suc n) c s = c ∷ repeat n c s

abbrev count_ones : Text → Option ℕ
count_ones [] = some 0
count_ones (c ∷ s) =
    if eqb c b'1' then elim (count_ones s) [ none ↦ none | some n ↦ some (suc n) ] else none

abbrev encode_letters : Text → Text
encode_letters [] = []
encode_letters (b ∷ bytes) = repeat b b'a' (b'b' ∷ encode_letters bytes)

abbrev with_byte : ℕ → Option Text → Option Text
with_byte n none = none
with_byte n (some bytes) = some (n ∷ bytes)

abbrev decode_letters : ℕ → Text → Option Text
decode_letters n [] = if eqb n 0 then some [] else none
decode_letters n (c ∷ s) =
    if eqb c b'a' then decode_letters (suc n) s else with_byte n (decode_letters 0 s)

-- `/dns/HOST/tcp/PORT`, from behind the first name.
abbrev host_and_port : Text → Option ℕ → Outcome AddrError Multiaddr
host_and_port host none = err (parsing_error [])
host_and_port host (some port) = ok (cons (dns host) (cons (tcp port) nil))

abbrev after_dns : Option (Text × Text) → Outcome AddrError Multiaddr
after_dns none = err (parsing_error [])
after_dns (some (host, rest)) = host_and_port host (parse_u16 (drop 4 rest))

abbrev pub parse_some_multiaddr : Text → Outcome AddrError Multiaddr
parse_some_multiaddr s =
    if s == codes "/socks5"
    then ok (cons (socks5 nil) nil)
    else after_dns (split_once b'/' (drop 5 s))

abbrev pub example_formats : AddrFormats
example_formats = record {
  show_ip4 = λ a. repeat a b'1' [];
  parse_ip4 = count_ones;
  show_ip6 = λ a. codes "::";
  parse_ip6 = λ s. none;
  encode_base32 = encode_letters;
  decode_base32 = decode_letters 0;
  parse_multiaddr = parse_some_multiaddr;
  show_multiaddr = λ a. [];
  show_protocol = λ p. [];
}

count-repeat : (a : ℕ) → count_ones (repeat a b'1' []) ≡ some a
count-repeat zero = refl
count-repeat (suc a) = rw (count-repeat a) refl

repeat_no :
    (c d n : ℕ) (s : Text)
    → eqb d c ≡ false
    → has_char c s ≡ false
    → has_char c (repeat n d s) ≡ false
repeat_no c d zero s e h = h
repeat_no c d (suc n) s e h = rw e (repeat_no c d n s e h)

count_onion : (s : Text) → count_ones (s ++ codes ".onion") ≡ none
count_onion [] = refl
count_onion (c ∷ s) = ground (arith, count_onion s)

lower-repeat :
    (n : ℕ) (s : Text) → to_ascii_lowercase (repeat n b'a' s) ≡ repeat n b'a' (to_ascii_lowercase s)
lower-repeat zero s = refl
lower-repeat (suc n) s = ap (λ t. b'a' ∷ t) (lower-repeat n s)

lower-encode : (bytes : Text) → to_ascii_lowercase (encode_letters bytes) ≡ encode_letters bytes
lower-encode [] = refl
lower-encode (b ∷ bytes) =
    lower-repeat b (b'b' ∷ encode_letters bytes)
    ∙ ap (λ t. repeat b b'a' (b'b' ∷ t)) (lower-encode bytes)

decode-repeat :
    (k n : ℕ) (s : Text)
    → decode_letters k (repeat n b'a' (b'b' ∷ s)) ≡ with_byte (n + k) (decode_letters 0 s)
decode-repeat k zero s = ap (λ m. with_byte m (decode_letters 0 s)) (omega arith)
decode-repeat k (suc n) s =
    decode-repeat (suc k) n s ∙ ap (λ m. with_byte m (decode_letters 0 s)) (omega arith)

decode-encode : (bytes : Text) → decode_letters 0 (encode_letters bytes) ≡ some bytes
decode-encode [] = refl
decode-encode (b ∷ bytes) =
    decode-repeat 0 b (encode_letters bytes)
    ∙ rw (decode-encode bytes) (ap (λ m. some (m ∷ bytes)) (omega arith))

encode_no :
    (c : ℕ)
    → eqb b'a' c ≡ false
    → eqb b'b' c ≡ false
    → (bytes : Text) → has_char c (encode_letters bytes) ≡ false
encode_no c a b [] = refl
encode_no c a b (x ∷ bytes) =
    repeat_no c b'a' x (b'b' ∷ encode_letters bytes) a (rw b (encode_no c a b bytes))

lowered_no :
    (c : ℕ)
    → eqb b'a' c ≡ false
    → eqb b'b' c ≡ false
    → (bytes : Text) → has_char c (to_ascii_lowercase (encode_letters bytes)) ≡ false
lowered_no c a b bytes = rw (lower-encode bytes) (encode_no c a b bytes)

pub example_formats-IsLawful : IsLawful example_formats
example_formats-IsLawful = record {
  parse-show_ip4 = count-repeat;
  show_ip4-IsPlain = λ a. (repeat_no b':' b'1' a [] refl refl, repeat_no b'/' b'1' a [] refl refl);
  parse_ip6_colon = λ s h. refl;
  parse_ip4_onion = count_onion;
  decode-encode = λ bytes. ap (decode_letters 0) (lower-encode bytes) ∙ decode-encode bytes;
  encode-IsPlain = λ bytes. (lowered_no b':' refl refl bytes, lowered_no b'/' refl refl bytes);
  encode_no_dot = lowered_no b'.' refl refl;
}

pub example_formats-ParsesBuilt : ParsesBuilt example_formats
unfolding text_eq
example_formats-ParsesBuilt = record {
  parse_socks5 = refl;
  parse_dns_tcp = λ host port h le.
      ap after_dns (split_once_found b'/' host (codes "tcp/" ++ show_ℕ port) h)
      ∙ ap (host_and_port host) (parse_unsigned-show_ℕ max_u16 port le);
}
