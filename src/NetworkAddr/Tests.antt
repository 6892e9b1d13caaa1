-- ===== src/NetworkAddr/Tests.antt =====
-- Examples of the addresses.
use trithemius_p2p.Base.{◌≡◌, refl, Text, codes, ok, none, text_eq, arith}
use trithemius_p2p.Base.Decimal.{parse_unsigned}
use trithemius_p2p.Util.{tcp, dns, onion3, nil, cons, push, multiaddr_get}
use trithemius_p2p.NetworkAddr.{as_network_string, from_str}
use trithemius_p2p.NetworkAddr.Examples.{example_formats, example_formats-IsLawful}
use trithemius_p2p.NetworkAddr.RoundTrip.{
  from_str-as_network_string_onion3, from_str-as_network_string_dns, from_str_no_ip6, is_ip6,
}

abbrev hash35 : Text
hash35 = codes "abcdefghijklmnopqrstuvwxyz012345678"

from_str-as_network_string_onion3_example :
    (text : Text) × (as_network_string example_formats
        (push nil (onion3 (record { hash = hash35; port = 443 })))
      ≡ ok text)
    × (from_str example_formats text
        ≡ ok (push nil (onion3 (record { hash = hash35; port = 443 }))))
from_str-as_network_string_onion3_example =
    from_str-as_network_string_onion3 example_formats example_formats-IsLawful hash35 443 refl
      (omega arith)

from_str-as_network_string_dns_example :
    (text : Text) × (as_network_string example_formats
        (push (push nil (dns (codes "libp2p.io"))) (tcp 80))
      ≡ ok text)
    × (from_str example_formats text ≡ ok (push (push nil (dns (codes "libp2p.io"))) (tcp 80)))
unfolding text_eq
from_str-as_network_string_dns_example =
    from_str-as_network_string_dns example_formats example_formats-IsLawful (codes "libp2p.io") 80
      (refl, refl) refl refl (omega arith)

host_is_read :
    from_str example_formats (codes "libp2p.io:80")
    ≡ ok (cons (dns (codes "libp2p.io")) (cons (tcp 80) nil))
unfolding from_str parse_unsigned text_eq
host_is_read = refl

from_str_no_ip6_example :
    multiaddr_get (cons (dns (codes "libp2p.io")) (cons (tcp 80) nil)) is_ip6 ≡ none
from_str_no_ip6_example =
    from_str_no_ip6 example_formats example_formats-IsLawful (codes "libp2p.io:80") refl
      host_is_read
