-- ===== src/Util/Tests.antt =====
-- Examples of the helpers on addresses.
use trithemius_p2p.Base.{◌≡◌, refl, Bool, true, false, some, [], ◌∷◌}
use trithemius_p2p.Util.{Protocol, ip4, tcp, tor, Multiaddr, nil, cons, iter, multiaddr_split}
use trithemius_p2p.Util.Split.{
  FirstMatch, on_protocol, multiaddr_split_first, multiaddr_split-FirstMatch,
}

abbrev test_tcp : Protocol → Bool
test_tcp (tcp p) = true
test_tcp p = false

abbrev address : Multiaddr
address = cons (ip4 1) (cons (tcp 80) (cons tor (cons (tcp 81) nil)))

first_tcp : FirstMatch test_tcp (iter address) (ip4 1 ∷ []) (tcp 80) (tor ∷ tcp 81 ∷ [])
first_tcp = record { parts = refl; hit = refl; misses = (refl, tt) }

address_is_split :
    multiaddr_split address (on_protocol test_tcp)
    ≡ some (cons (ip4 1) nil, tcp 80, cons tor (cons (tcp 81) nil))
address_is_split = multiaddr_split_first test_tcp address first_tcp

multiaddr_split-FirstMatch_example :
    FirstMatch test_tcp
      (iter address)
      (iter (cons (ip4 1) nil))
      (tcp 80)
      (iter (cons tor (cons (tcp 81) nil)))
multiaddr_split-FirstMatch_example =
    multiaddr_split-FirstMatch test_tcp address (cons (ip4 1) nil) (cons tor (cons (tcp 81) nil))
      (tcp 80) address_is_split
