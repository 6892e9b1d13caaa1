-- ===== src/Transports/Route.antt =====
-- Where the Tor transport dials: onion addresses by their name, all others as they stand, through
-- the proxy that it was given.
use trithemius_p2p.Base.{
  ℕ, to_ascii_lowercase, has_char, ◌≤◌, Text, codes, ◌≡◌, refl, ap, ◌∙◌, Option, none, some, Bool,
  true, false, List, [], ◌∷◌, ◌++◌, find, is_some, ok, err, arith,
}
use trithemius_p2p.Base.Decimal.{max_u16, show_ℕ}
use trithemius_p2p.Util.{
  Onion3Addr, Protocol, tcp, dns, onion3, tor, socks5, Multiaddr, nil, cons, push, iter, collect,
  multiaddr_get,
}
use trithemius_p2p.Util.Split.{
  find-none, iter-push, collect-iter, FirstMatch, NoMatch, multiaddr_get_first, multiaddr_get-none,
  multiaddr_replace_first, multiaddr_replace-none,
}
use trithemius_p2p.NetworkAddr.{onion_host}
use trithemius_p2p.NetworkAddr.Formats.{AddrFormats, IsLawful}
use trithemius_p2p.NetworkAddr.RoundTrip.{onion-IsPlain}
use trithemius_p2p.Transports.Errors.{
  multiaddr_not_supported, is_ip, is_socks5, is_tor, is_onion3, is_tor_or_onion3,
}
use trithemius_p2p.Transports.Socks5
use trithemius_p2p.Transports.Socks5.{
  Socks5Transport, SocketAddr, DialPlan, multiaddr_to_socketaddr, multiaddr_to_pair,
}
use trithemius_p2p.Transports.Dial.{push-FirstMatch, do_dial_default, do_dial_empty}
use trithemius_p2p.Transports.Tor.{
  Inbound, TorTransport, use_proxy_address, do_dial, dial_out, dial_replaced, dial_onion, complete,
}

-- What the library's parser makes of the addresses that are built as texts.
pub record ParsesBuilt (F : AddrFormats) : Type 0 where
  pub parse_socks5 : F.parse_multiaddr (codes "/socks5") ≡ ok (cons (socks5 nil) nil)
  pub parse_dns_tcp :
      (host : Text) (port : ℕ)
      → has_char b'/' host ≡ false
      → port ≤ max_u16
      → F.parse_multiaddr (codes "/dns/" ++ (host ++ (codes "/tcp/" ++ show_ℕ port)))
        ≡ ok (cons (dns host) (cons (tcp port) nil))

collect-push : (addr : Multiaddr) (p : Protocol) → collect (iter addr ++ p ∷ []) ≡ push addr p
collect-push nil p = refl
collect-push (cons q a) p = ap (cons q) (collect-push a p)

-- No protocol of the address is Tor's own.
not_tor : (ps : List Protocol) → NoMatch is_tor_or_onion3 ps → NoMatch is_tor ps
not_tor [] m = tt
not_tor (p ∷ ps) m = (head p m.0, not_tor ps m.1)
  where
    head : (q : Protocol) → is_tor_or_onion3 q ≡ false → is_tor q ≡ false
    head tor h = cc
    head q h = refl

not_onion : (ps : List Protocol) → NoMatch is_tor_or_onion3 ps → NoMatch is_onion3 ps
not_onion [] m = tt
not_onion (p ∷ ps) m = (head p m.0, not_onion ps m.1)
  where
    head : (q : Protocol) → is_tor_or_onion3 q ≡ false → is_onion3 q ≡ false
    head (onion3 a) h = cc
    head q h = refl

abbrev proxied : Multiaddr → Socks5Transport
proxied proxy_addr = Socks5.use_always (Socks5.default_proxy_address Socks5.new proxy_addr)

is_some-find_last :
    (test : Protocol → Bool) (ps : List Protocol) (p : Protocol)
    → test p ≡ true
    → is_some (find test (ps ++ p ∷ [])) ≡ true
is_some-find_last test [] p h = ground arith
is_some-find_last test (q ∷ ps) p h = ground (arith, is_some-find_last test ps p h)

is_some-get_last :
    (addr : Multiaddr) → is_some (multiaddr_get (push addr tor) is_tor_or_onion3) ≡ true
unfolding multiaddr_get
is_some-get_last addr =
    ap (λ ps. is_some (find is_tor_or_onion3 ps)) (iter-push addr tor)
    ∙ is_some-find_last is_tor_or_onion3 (iter addr) tor refl

module _ {Io : Type 0} (F : AddrFormats) (N : Inbound Io) (t : TorTransport N)
    (addr : Multiaddr) where
  complete_always :
      t.always_use ≡ true
      → NoMatch is_tor_or_onion3 (iter addr)
      → complete F N t addr ≡ push addr tor
  complete_always a m = ground (arith, multiaddr_get-none is_tor_or_onion3 addr m)

  complete_sometimes : t.always_use ≡ false → complete F N t addr ≡ addr
  complete_sometimes a = ground arith

  complete_tor : complete F N t (push addr tor) ≡ push addr tor
  complete_tor = ground (arith, is_some-get_last addr)

complete_onion :
    {Io : Type 0} (F : AddrFormats) (N : Inbound Io) (t : TorTransport N) (a : Onion3Addr)
    (rest : Multiaddr)
    → complete F N t (cons (onion3 a) rest) ≡ cons (onion3 a) rest
unfolding multiaddr_get
complete_onion F N t a rest = ground arith

abbrev named_host : Text → ℕ → Multiaddr → Multiaddr
named_host host port rest = cons (dns host) (cons (tcp port) rest)

multiaddr_to_pair_named :
    {E : Type 0} (F : AddrFormats) (host : Text) (port : ℕ) (rest : Multiaddr)
    → NoMatch is_ip (iter rest)
    → multiaddr_to_pair {E = E} F (named_host host port rest) ≡ ok (host, port)
unfolding multiaddr_to_pair multiaddr_get
multiaddr_to_pair_named F host port rest m = rw (find-none is_ip (iter rest) m)

module _ {Io Socks : Type 0} (F : AddrFormats) (P : ParsesBuilt F) (N : Inbound Io) where
  dial_out_tor :
      (outbound : Socks5Transport) (addr : Multiaddr)
      → NoMatch is_tor (iter addr)
      → dial_out F N {Socks = Socks} (some outbound) (push addr tor)
        ≡ Socks5.do_dial F outbound (push addr (socks5 nil))
  dial_out_tor outbound addr m =
      let r =
        multiaddr_replace_first is_tor (push addr tor) (cons (socks5 nil) nil)
          (push-FirstMatch is_tor addr tor refl m) in
      rw P.parse_socks5 (
        ap (dial_replaced F N outbound (push addr tor)) r
        ∙ ap (Socks5.do_dial F outbound) (collect-push addr (socks5 nil)))

  -- With a proxy, the Tor transport that is always used dials an address of a host and a port that
  -- names nothing of Tor and no SOCKS proxy through its proxy.
  pub do_dial_always :
      (t : TorTransport N) (addr proxy_addr : Multiaddr) {proxy : SocketAddr} {target : Text × ℕ}
      → t.always_use ≡ true
      → NoMatch is_tor_or_onion3 (iter addr)
      → NoMatch is_socks5 (iter addr)
      → multiaddr_to_socketaddr {E = Socks} proxy_addr ≡ ok proxy
      → multiaddr_to_pair {E = Socks} F addr ≡ ok target
      → do_dial F N {Socks = Socks} (use_proxy_address N t proxy_addr) addr
        ≡ ok (record { proxy = proxy; target = target })
  unfolding do_dial
  do_dial_always t addr proxy_addr a m ms s h =
      let t' = use_proxy_address N t proxy_addr in
      ap (dial_out F N t'.outbound) (complete_always F N t' addr a m)
      ∙ dial_out_tor (proxied proxy_addr) addr (not_tor (iter addr) m)
      ∙ do_dial_empty F (proxied proxy_addr) addr proxy_addr refl ms s h

  -- With a proxy, the Tor transport dials an address of a host and a port with `/tor` behind it
  -- through its proxy, whatever the setting, where the address names no other `/tor` and no SOCKS
  -- proxy.
  pub do_dial_tor :
      (t : TorTransport N) (addr proxy_addr : Multiaddr) {proxy : SocketAddr} {target : Text × ℕ}
      → NoMatch is_tor (iter addr)
      → NoMatch is_socks5 (iter addr)
      → multiaddr_to_socketaddr {E = Socks} proxy_addr ≡ ok proxy
      → multiaddr_to_pair {E = Socks} F addr ≡ ok target
      → do_dial F N {Socks = Socks} (use_proxy_address N t proxy_addr) (push addr tor)
        ≡ ok (record { proxy = proxy; target = target })
  unfolding do_dial
  do_dial_tor t addr proxy_addr m ms s h =
      let t' = use_proxy_address N t proxy_addr in
      ap (dial_out F N t'.outbound) (complete_tor F N t' addr)
      ∙ dial_out_tor (proxied proxy_addr) addr m
      ∙ do_dial_empty F (proxied proxy_addr) addr proxy_addr refl ms s h

  -- The Tor transport that is not always used refuses an address that names nothing of Tor, and
  -- the error has the address as it was.
  pub do_dial_refused :
      (t : TorTransport N) (addr : Multiaddr)
      → t.always_use ≡ false
      → NoMatch is_tor_or_onion3 (iter addr)
      → do_dial F N {Socks = Socks} t addr ≡ err (multiaddr_not_supported addr)
  unfolding do_dial
  do_dial_refused t addr a m =
      ap (dial_out F N t.outbound) (complete_sometimes F N t addr a) ∙ refused t.outbound
    where
      refused :
          (o : Option Socks5Transport)
          → dial_out F N {Socks = Socks} o addr ≡ err (multiaddr_not_supported addr)
      refused none = refl
      refused (some outbound) = rw P.parse_socks5 (
          ap (dial_replaced F N outbound addr)
            (multiaddr_replace-none is_tor addr (cons (socks5 nil) nil) (not_tor (iter addr) m))
          ∙ ap (dial_onion F N outbound addr)
              (multiaddr_get-none is_onion3 addr (not_onion (iter addr) m)))

  -- With a proxy, an onion address with a port below 65536 that is followed by nothing of Tor, of
  -- SOCKS or of IP is dialled through the proxy by its name and its port, whatever the setting.
  pub do_dial_onion :
      (L : IsLawful F) (t : TorTransport N) (a : Onion3Addr) (rest proxy_addr : Multiaddr)
      {proxy : SocketAddr}
      → a.port ≤ max_u16
      → NoMatch is_tor (iter rest)
      → NoMatch is_socks5 (iter rest)
      → NoMatch is_ip (iter rest)
      → multiaddr_to_socketaddr {E = Socks} proxy_addr ≡ ok proxy
      → do_dial F N {Socks = Socks} (use_proxy_address N t proxy_addr) (cons (onion3 a) rest)
        ≡ ok (record { proxy = proxy; target = (onion_host F a.hash, a.port) })
  unfolding do_dial
  do_dial_onion L t a rest proxy_addr le mt ms mi s =
      let t' = use_proxy_address N t proxy_addr in
      ap (dial_out F N t'.outbound) (complete_onion F N t' a rest)
      ∙ rw P.parse_socks5 (
          ap (dial_replaced F N (proxied proxy_addr) addr)
            (multiaddr_replace-none is_tor addr (cons (socks5 nil) nil) (refl, mt))
          ∙ ap (dial_onion F N (proxied proxy_addr) addr) (multiaddr_get_first is_onion3 addr first)
          ∙ rw
              (
                P.parse_dns_tcp (onion_host F a.hash) a.port no_slash le,
                multiaddr_replace_first is_onion3 addr named first,
                collect-iter rest,
              )
              (do_dial_default F (proxied proxy_addr) (named_host (onion_host F a.hash) a.port rest)
                proxy_addr refl refl (refl, (refl, ms)) s
                (multiaddr_to_pair_named F (onion_host F a.hash) a.port rest mi)))
    where
      addr : Multiaddr
      addr = cons (onion3 a) rest

      no_slash : has_char b'/' (onion_host F a.hash) ≡ false
      no_slash =
          (onion-IsPlain (to_ascii_lowercase (F.encode_base32 a.hash)) (L.encode-IsPlain a.hash)).1

      named : Multiaddr
      named = cons (dns (onion_host F a.hash)) (cons (tcp a.port) nil)

      first : FirstMatch is_onion3 (iter addr) [] (onion3 a) (iter rest)
      first = record { parts = refl; hit = refl; misses = tt }
