-- ===== src/Transports/Dial.antt =====
-- Where the two transports dial.
use trithemius_p2p.Base.{
  ℕ, Text, ◌≡◌, refl, ap, ◌∙◌, Option, none, some, Bool, true, false, List, [], ◌∷◌, ◌++◌, find,
  Outcome, ok, err, ◌>>=◌, >>=-eq-ok, if◌then◌else◌, arith,
}
use trithemius_p2p.Util.{
  Protocol, ip4, ip6, tcp, dns, dns4, dns6, socks5, Multiaddr, nil, push, iter, is_empty_addr,
  multiaddr_get,
}
use trithemius_p2p.Util.Split.{
  iter-push, FirstMatch, NoMatch, multiaddr_get_first, multiaddr_get-none,
}
use trithemius_p2p.NetworkAddr.Formats.{AddrFormats}
use trithemius_p2p.Transports.Errors.{
  TransportError, multiaddr_not_supported, is_tcp, is_ip, is_dns, is_socks5,
}
use trithemius_p2p.Transports.Socks5
use trithemius_p2p.Transports.Socks5.{
  Socks5Transport, DialPlan, SocketAddr, multiaddr_to_socketaddr, multiaddr_to_pair, do_dial,
  tcp_port, pair_host, dial_through, dial_by,
}

find-append_miss :
    (test : Protocol → Bool) (ps : List Protocol) (p : Protocol)
    → test p ≡ false
    → find test (ps ++ p ∷ []) ≡ find test ps
find-append_miss test [] p h = ground arith
find-append_miss test (q ∷ ps) p h = ground (arith, find-append_miss test ps p h)

multiaddr_get-push_miss :
    (test : Protocol → Bool) (addr : Multiaddr) (p : Protocol)
    → test p ≡ false
    → multiaddr_get (push addr p) test ≡ multiaddr_get addr test
unfolding multiaddr_get
multiaddr_get-push_miss test addr p h =
    ap (find test) (iter-push addr p) ∙ find-append_miss test (iter addr) p h

pub push-FirstMatch :
    (test : Protocol → Bool) (addr : Multiaddr) (p : Protocol)
    → test p ≡ true
    → NoMatch test (iter addr)
    → FirstMatch test (iter (push addr p)) (iter addr) p []
push-FirstMatch test addr p h m = record { parts = iter-push addr p; hit = h; misses = m }

-- The same host and port, or an error about the address.
abbrev pair_of :
    {E : Type 0}
    → AddrFormats
    → Multiaddr
    → Option Protocol
    → Option Protocol
    → Option Protocol
    → Outcome (TransportError E) (Text × ℕ)
pair_of F addr t i d = tcp_port addr t >>= λ port. pair_host F addr port i d

some_either : (b : Bool) (d : Multiaddr) → (if b then some d else some d) ≡ some d
some_either true d = refl
some_either false d = refl

pair_of-other_address :
    {E : Type 0} (F : AddrFormats) (addr addr' : Multiaddr) (t i d : Option Protocol) {r : Text × ℕ}
    → pair_of {E = E} F addr t i d ≡ ok r
    → pair_of {E = E} F addr' t i d ≡ ok r
pair_of-other_address F addr addr' (some (tcp p)) (some (ip4 a)) d h = h
pair_of-other_address F addr addr' (some (tcp p)) (some (ip6 a)) d h = h
pair_of-other_address F addr addr' (some (tcp p)) i (some (dns name)) h = ground arith
pair_of-other_address F addr addr' (some (tcp p)) i (some (dns4 name)) h = ground arith
pair_of-other_address F addr addr' (some (tcp p)) i (some (dns6 name)) h = ground arith
pair_of-other_address F addr addr' t i d h = ground arith

complete_named :
    (t : Socks5Transport) (addr : Multiaddr) {p : Protocol}
    → multiaddr_get addr is_socks5 ≡ some p
    → Socks5.complete t addr ≡ addr
unfolding Socks5.complete
complete_named t addr h = ground arith

complete_default :
    (t : Socks5Transport) (addr : Multiaddr) {d : Multiaddr}
    → t.always_use ≡ true
    → t.proxy_addr ≡ some d
    → multiaddr_get addr is_socks5 ≡ none
    → Socks5.complete t addr ≡ push addr (socks5 d)
unfolding Socks5.complete
complete_default t addr a d h = ground arith

module _ {E : Type 0} (F : AddrFormats) where
  multiaddr_to_pair-push :
      (addr : Multiaddr) (p : Protocol) {r : Text × ℕ}
      → is_tcp p ≡ false
      → is_ip p ≡ false
      → is_dns p ≡ false
      → multiaddr_to_pair {E = E} F addr ≡ ok r
      → multiaddr_to_pair {E = E} F (push addr p) ≡ ok r
  unfolding multiaddr_to_pair
  multiaddr_to_pair-push addr p {r} t i d h = pair_of-other_address F addr (push addr p) _ _ _ (
      rw
        (
          multiaddr_get-push_miss is_tcp addr p t,
          multiaddr_get-push_miss is_ip addr p i,
          multiaddr_get-push_miss is_dns addr p d,
        )
        h)

  dial_through-ok :
      (addr proxy : Multiaddr) {plan : DialPlan}
      → dial_through {E = E} F addr (some proxy) ≡ ok plan
      → (multiaddr_to_socketaddr {E = E} proxy ≡ ok plan.proxy)
        × (multiaddr_to_pair {E = E} F addr ≡ ok plan.target)
  dial_through-ok addr proxy {plan} h =
      let (sa, e, h') = >>=-eq-ok (multiaddr_to_socketaddr proxy) _ h in
      let (pair, e', h'') = >>=-eq-ok (multiaddr_to_pair F addr) _ h' in (cc, cc)

  do_dial_through :
      (t : Socks5Transport) (addr addr' proxy : Multiaddr)
      → Socks5.complete t addr ≡ addr'
      → multiaddr_get addr' is_socks5 ≡ some (socks5 proxy)
      → do_dial {E = E} F t addr
        ≡ dial_through F addr' (if is_empty_addr proxy then t.proxy_addr else some proxy)
  unfolding do_dial
  do_dial_through t addr addr' proxy c h =
      ap (λ a. dial_by F t.proxy_addr a (multiaddr_get a is_socks5)) c
      ∙ ap (dial_by F t.proxy_addr addr') h

  -- The SOCKS transport that is always used dials an address of a host and a port, which names no
  -- proxy, through its default proxy.
  pub do_dial_default :
      (t : Socks5Transport) (addr d : Multiaddr) {proxy : SocketAddr} {target : Text × ℕ}
      → t.always_use ≡ true
      → t.proxy_addr ≡ some d
      → NoMatch is_socks5 (iter addr)
      → multiaddr_to_socketaddr {E = E} d ≡ ok proxy
      → multiaddr_to_pair {E = E} F addr ≡ ok target
      → do_dial {E = E} F t addr ≡ ok (record { proxy = proxy; target = target })
  do_dial_default t addr d a p m s h =
      do_dial_through t addr (push addr (socks5 d)) d
        (complete_default t addr a p (multiaddr_get-none is_socks5 addr m))
        (multiaddr_get_first is_socks5 (push addr (socks5 d))
          (push-FirstMatch is_socks5 addr (socks5 d) refl m))
      ∙ ap (dial_through F (push addr (socks5 d)))
          (ap (λ o. if is_empty_addr d then o else some d) p ∙ some_either (is_empty_addr d) d)
      ∙ rw (s, multiaddr_to_pair-push addr (socks5 d) refl refl refl h)

  -- The SOCKS transport dials an address of a host and a port, with an empty proxy component
  -- behind it and no other, through its default proxy, whatever the setting.
  pub do_dial_empty :
      (t : Socks5Transport) (addr d : Multiaddr) {proxy : SocketAddr} {target : Text × ℕ}
      → t.proxy_addr ≡ some d
      → NoMatch is_socks5 (iter addr)
      → multiaddr_to_socketaddr {E = E} d ≡ ok proxy
      → multiaddr_to_pair {E = E} F addr ≡ ok target
      → do_dial {E = E} F t (push addr (socks5 nil))
        ≡ ok (record { proxy = proxy; target = target })
  do_dial_empty t addr d p m s h =
      let first : multiaddr_get (push addr (socks5 nil)) is_socks5 ≡ some (socks5 nil) =
        multiaddr_get_first is_socks5 (push addr (socks5 nil))
          (push-FirstMatch is_socks5 addr (socks5 nil) refl m) in
      do_dial_through t (push addr (socks5 nil)) (push addr (socks5 nil)) nil
        (complete_named t (push addr (socks5 nil)) first) first
      ∙ ap (dial_through F (push addr (socks5 nil))) p
      ∙ rw (s, multiaddr_to_pair-push addr (socks5 nil) refl refl refl h)

  -- An address that names no proxy is refused unless the transport is always used.
  pub do_dial_refused_alone :
      (t : Socks5Transport) (addr : Multiaddr)
      → t.always_use ≡ false
      → NoMatch is_socks5 (iter addr)
      → do_dial {E = E} F t addr ≡ err (multiaddr_not_supported addr)
  unfolding do_dial Socks5.complete
  do_dial_refused_alone t addr a m = ground (arith, multiaddr_get-none is_socks5 addr m)
