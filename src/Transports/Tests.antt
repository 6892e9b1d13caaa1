-- ===== src/Transports/Tests.antt =====
-- Examples of the transports.
use trithemius_p2p.Base.{
  ℕ, ◌≡◌, refl, codes, text_eq, some, Bool, true, false, List, [], ◌∷◌, ◌++◌, ok, find, arith,
  get_elem?,
}
use trithemius_p2p.Util.{
  Onion3Addr, ip4, tcp, dns, onion3, tor, Multiaddr, nil, cons, push, multiaddr_get,
}
use trithemius_p2p.NetworkAddr.Examples.{
  example_formats, example_formats-IsLawful, example_formats-ParsesBuilt,
}
use trithemius_p2p.NetworkAddr.{onion_host}
use trithemius_p2p.Control.Service.{OnionService}
use trithemius_p2p.Transports.Socks5.{
  Socks5Transport, SocketAddr, v4, multiaddr_to_socketaddr, multiaddr_to_pair,
}
use trithemius_p2p.Transports.Tor
use trithemius_p2p.Transports.Tor.{
  multiaddr_eq, Inbound, TorTransport, TransportEvent, new_address, incoming, Poll, ready, pending,
  use_proxy_address, listen_on, poll, transform_stdio_error,
}
use trithemius_p2p.Transports.Route.{do_dial_tor, do_dial_onion}
use trithemius_p2p.Transports.Listen.{at_address, listens, listens-poll, poll_reports}

-- A TCP transport whose state is what it has to report.
abbrev inbound : Inbound ℕ
inbound = record {
  State = List TransportEvent;
  listen_on = λ s addr. (s ++ new_address 1 addr ∷ [], ok 1);
  remove_listener = λ s id. (s, true);
  poll = λ s. elim s [ [] ↦ ([], pending) | e ∷ es ↦ (es, ready e) ];
}

abbrev proxy_addr : Multiaddr
proxy_addr = cons (ip4 127) (cons (tcp 9050) nil)

abbrev site : Multiaddr
site = cons (dns (codes "libp2p.io")) (cons (tcp 443) nil)

abbrev socks : Bool → Socks5Transport
socks always = record { proxy_addr = some proxy_addr; always_use = always }

abbrev service : OnionService
service = record {
  virt_port = 80;
  listen_address = cons (ip4 127) (cons (tcp 7000) nil);
  service_id = codes "id";
  address = push nil (onion3 (record { hash = codes "h"; port = 80 }));
}

abbrev tor_transport : Bool → List TransportEvent → TorTransport inbound
tor_transport always events = record {
  outbound = some (socks false);
  inbound = events;
  received = some [];
  onion_services = service ∷ [];
  always_use = always;
}

abbrev proxy : SocketAddr
proxy = record { ip = v4 127; port = 9050 }

proxy_is_read : multiaddr_to_socketaddr {E = ℕ} proxy_addr ≡ ok proxy
unfolding multiaddr_to_socketaddr multiaddr_get
proxy_is_read = refl

target_is_read : multiaddr_to_pair {E = ℕ} example_formats site ≡ ok (codes "libp2p.io", 443)
unfolding multiaddr_to_pair multiaddr_get
target_is_read = refl

do_dial_tor_example :
    Tor.do_dial example_formats inbound {Socks = ℕ}
      (use_proxy_address inbound (tor_transport false []) proxy_addr)
      (push site tor)
    ≡ ok (record { proxy = proxy; target = (codes "libp2p.io", 443) })
do_dial_tor_example =
    do_dial_tor example_formats example_formats-ParsesBuilt inbound (tor_transport false []) site
      proxy_addr (refl, (refl, tt)) (refl, (refl, tt)) proxy_is_read target_is_read

abbrev onion : Onion3Addr
onion = record { hash = codes "h"; port = 80 }

do_dial_onion_example :
    Tor.do_dial example_formats inbound {Socks = ℕ}
      (use_proxy_address inbound (tor_transport false []) proxy_addr)
      (cons (onion3 onion) nil)
    ≡ ok (record { proxy = proxy; target = (onion_host example_formats (codes "h"), 80) })
do_dial_onion_example =
    do_dial_onion example_formats example_formats-ParsesBuilt inbound example_formats-IsLawful
      (tor_transport false []) onion nil proxy_addr (omega arith) tt tt tt proxy_is_read

service_found : find (at_address service.listen_address) ([] ++ service ∷ []) ≡ some service
unfolding multiaddr_eq
service_found = refl

-- A service that waits on the channel.
abbrev waiting : TorTransport inbound
waiting = record (tor_transport false []) { received = some (service ∷ []); onion_services = [] }

tcp_reports :
    inbound.poll (listens ℕ inbound waiting (service.listen_address ∷ site ∷ [])).inbound
    ≡ ([], ready (new_address 1 service.listen_address))
unfolding listen_on multiaddr_eq
tcp_reports = refl

abbrev listened : TorTransport inbound
listened = listens ℕ inbound waiting (service.listen_address ∷ site ∷ [])

listens-poll_example :
    (listened.received ≡ some [])
    × (listened.onion_services ≡ [] ++ service ∷ [])
    × (poll inbound listened
        ≡ (record listened { inbound = [] }, ready (new_address 1 service.address)))
listens-poll_example =
    listens-poll inbound ℕ waiting service.listen_address (site ∷ []) (service ∷ []) 1
      service.listen_address refl service_found tcp_reports

abbrev listening : TorTransport inbound
listening = tor_transport false (new_address 1 service.listen_address ∷ [])

service_reported : (poll inbound listening).1 ≡ ready (new_address 1 service.address)
unfolding poll multiaddr_eq
service_reported = refl

poll_reports_example :
    (id : ℕ) × (listened : Multiaddr) × (i : ℕ) × (o : OnionService) × (ready
        (new_address 1 service.listen_address)
      ≡ ready (new_address id listened))
    × (get_elem? (service ∷ []) i ≡ some o)
    × (o.listen_address ≡ listened)
    × (new_address 1 service.address ≡ new_address id o.address)
poll_reports_example = poll_reports inbound listening service_reported
