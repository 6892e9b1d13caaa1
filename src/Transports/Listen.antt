-- ===== src/Transports/Listen.antt =====
-- What the Tor transport listens on, and what it reports when it is polled.
use trithemius_p2p.Base.{
  ℕ, ◌≡◌, refl, none, some, Bool, true, List, [], ◌∷◌, ◌++◌, err, ◌==◌, ==_iff, find, arith, suc,
  ap, append-nil, ◌∙◌, get_elem?, Option-cases, Bool-cases, inl, inr,
}
use trithemius_p2p.Util.{Multiaddr}
use trithemius_p2p.Control.Service.{OnionService}
use trithemius_p2p.Transports.Errors.{multiaddr_not_supported}
use trithemius_p2p.Transports.Tor.{
  Inbound, TorTransport, TransportEvent, new_address, Poll, ready, pending, listen_on, poll,
  on_poll, multiaddr_eq,
}

-- The element that is found passes the test, and stands in the list.
find-some {ℓ} : {A : Type ℓ} (p : A → Bool) (xs : List A) {a : A} → find p xs ≡ some a → p a ≡ true
find-some p [] h = cc
find-some p (x ∷ xs) h = elim (Bool-cases (p x)) [
  | inl hit ↦ ground arith
  | inr miss ↦ find-some p xs (ground arith)
]

find-get_elem? {ℓ} :
    {A : Type ℓ} (p : A → Bool) (xs : List A) {a : A}
    → find p xs ≡ some a
    → (i : ℕ) × (get_elem? xs i ≡ some a)
find-get_elem? p [] h = cc
find-get_elem? p (x ∷ xs) h = elim (Bool-cases (p x)) [
  | inl hit ↦ (0, ground arith)
  | inr miss ↦ (let (i, e) = find-get_elem? p xs (ground arith) in (suc i, e))
]

abbrev pub at_address : Multiaddr → OnionService → Bool
at_address addr o = o.listen_address == addr

module _ {Io Socks : Type 0} (N : Inbound Io) where
  -- Where no service that is known or on the channel listens on the address, it is refused, and
  -- the TCP transport stays as it is.
  pub listen_on_unknown :
      (t : TorTransport N) (addr : Multiaddr) (services : List OnionService)
      → t.received ≡ some services
      → find (at_address addr) (t.onion_services ++ services) ≡ none
      → ((listen_on {Socks = Socks} N t addr).1 ≡ err (multiaddr_not_supported addr))
        × ((listen_on {Socks = Socks} N t addr).0.inbound ≡ t.inbound)
  unfolding listen_on
  listen_on_unknown t addr services r f = (rw (r, listen_on, f), rw (r, listen_on, f))

module _ {Io : Type 0} (Socks : Type 0) (N : Inbound Io) where
  -- Whatever it answers, to listen moves the services from the channel behind those that are known.
  listen_on_stores :
      (t : TorTransport N) (addr : Multiaddr) (services : List OnionService)
      → t.received ≡ some services
      → ((listen_on {Socks = Socks} N t addr).0.received ≡ some [])
        × ((listen_on {Socks = Socks} N t addr).0.onion_services ≡ t.onion_services ++ services)
  unfolding listen_on
  listen_on_stores t addr services r =
      elim (Option-cases (find (at_address addr) (t.onion_services ++ services))) [
        | inl unknown ↦ (rw (r, listen_on, unknown), rw (r, listen_on, unknown))
        | inr (o, found) ↦ (rw (r, listen_on, found), rw (r, listen_on, found))
      ]

  -- The transport after it was asked to listen on each of the addresses.
  abbrev pub listens : TorTransport N → List Multiaddr → TorTransport N
  listens t [] = t
  listens t (addr ∷ addrs) = listens (listen_on {Socks = Socks} N t addr).0 addrs

  listens-stored :
      (t : TorTransport N) (addrs : List Multiaddr)
      → t.received ≡ some []
      → ((listens t addrs).received ≡ some [])
        × ((listens t addrs).onion_services ≡ t.onion_services)
  listens-stored t [] r = (r, refl)
  listens-stored t (addr ∷ addrs) r =
      let (r', e) = listen_on_stores t addr [] r in
      let (r'', e') = listens-stored (listen_on {Socks = Socks} N t addr).0 addrs r' in
      (r'', e' ∙ e ∙ append-nil t.onion_services)

  -- The services that wait on the channel are stored once, behind those that are known, however
  -- often and wherever the transport is asked to listen from then on, and whatever comes of it.
  pub listens-stores :
      (t : TorTransport N) (addr : Multiaddr) (addrs : List Multiaddr)
      (services : List OnionService)
      → t.received ≡ some services
      → ((listens t (addr ∷ addrs)).received ≡ some [])
        × ((listens t (addr ∷ addrs)).onion_services ≡ t.onion_services ++ services)
  listens-stores t addr addrs services r =
      let (r', e) = listen_on_stores t addr services r in
      let (r'', e') = listens-stored (listen_on {Socks = Socks} N t addr).0 addrs r' in
      (r'', e' ∙ e)

-- What `on_poll` makes of a report.
on_poll_ready :
    {Io : Type 0} (N : Inbound Io) (services : List OnionService) (p : Poll) {e : TransportEvent}
    → on_poll N services p ≡ ready e
    → (id : ℕ) × (listened : Multiaddr) × (i : ℕ) × (o : OnionService) × (p
        ≡ ready (new_address id listened))
      × (get_elem? services i ≡ some o)
      × (o.listen_address ≡ listened)
      × (e ≡ new_address id o.address)
on_poll_ready N services pending h = cc
on_poll_ready N services (ready (new_address id listened)) h =
    elim (Option-cases (find (at_address listened) services)) [
      | inl unknown ↦ cc (rw unknown at h)
      | inr (o, f) ↦
          let (i, there) = find-get_elem? (at_address listened) services f in
          (
            id,
            listened,
            i,
            o,
            refl,
            there,
            (==_iff o.listen_address listened).0 (find-some (at_address listened) services f),
            ground arith,
          )
    ]
on_poll_ready N services (ready e) h = cc

module _ {Io : Type 0} (N : Inbound Io) where
  -- All that the transport ever reports is a new address, and only where the TCP transport
  -- reported an address that a service in the transport's list listens on; it reports the onion
  -- address of that service.
  pub poll_reports :
      (t : TorTransport N) {e : TransportEvent}
      → (poll N t).1 ≡ ready e
      → (id : ℕ) × (listened : Multiaddr) × (i : ℕ) × (o : OnionService) × ((N.poll t.inbound).1
          ≡ ready (new_address id listened))
        × (get_elem? t.onion_services i ≡ some o)
        × (o.listen_address ≡ listened)
        × (e ≡ new_address id o.address)
  unfolding poll
  poll_reports t h = on_poll_ready N t.onion_services (N.poll t.inbound).1 h

  poll_known :
      (t : TorTransport N) (id : ℕ) (listened : Multiaddr) {o : OnionService} {s : N.State}
      → find (at_address listened) t.onion_services ≡ some o
      → N.poll t.inbound ≡ (s, ready (new_address id listened))
      → poll N t ≡ (record t { inbound = s }, ready (new_address id o.address))
  unfolding poll
  poll_known t id listened f p = rw p (rw f refl)

  -- Where services wait on the channel and the transport is asked to listen on one address or
  -- more, those services are stored once, behind the known ones, and none waits any more; and
  -- where the TCP transport then reports an address that one of all these services listens on, a
  -- poll reports the onion address of the first such service.
  pub listens-poll :
      (Socks : Type 0) (t : TorTransport N) (addr : Multiaddr) (addrs : List Multiaddr)
      (services : List OnionService) (id : ℕ) (listened : Multiaddr) {o : OnionService}
      {s : N.State}
      → let t' : TorTransport N = listens Socks N t (addr ∷ addrs) in
        t.received ≡ some services
        → find (at_address listened) (t.onion_services ++ services) ≡ some o
        → N.poll t'.inbound ≡ (s, ready (new_address id listened))
        → (t'.received ≡ some [])
          × (t'.onion_services ≡ t.onion_services ++ services)
          × (poll N t' ≡ (record t' { inbound = s }, ready (new_address id o.address)))
  listens-poll Socks t addr addrs services id listened r f p =
      let (none_wait, stored) = listens-stores Socks N t addr addrs services r in
      (
        none_wait,
        stored,
        poll_known (listens Socks N t (addr ∷ addrs)) id listened
            (ap (find (at_address listened)) stored ∙ f) p,
      )
