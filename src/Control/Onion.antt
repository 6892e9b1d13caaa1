-- ===== src/Control/Onion.antt =====
-- The commands of `TorControlConnection` for onion services (src/tor/control_connection.rs).
use trithemius_p2p.Base.{
  ℕ, Text, codes, Option, none, some, [], ◌∷◌, ◌++◌, eqb, length, join, Outcome, ok, err, panic,
  on_ok, if◌then◌else◌, split_once, has_char,
}
use trithemius_p2p.Base.Decimal.{show_ℕ}
use trithemius_p2p.Util.{Protocol, ip4, ip6, tcp, onion3, Multiaddr, nil, push, multiaddr_get}
use trithemius_p2p.NetworkAddr.Formats.{AddrFormats}
use trithemius_p2p.Transports.Errors.{is_ip, is_tcp}
use trithemius_p2p.Control.Error.{TorError, protocol_error}
use trithemius_p2p.Control.Service.{OnionService}
use trithemius_p2p.Control.Response.{ControlResponse}
use trithemius_p2p.Control.Connection.{TorControlConnection, Environment, After, send_command}

module _ (F : AddrFormats) where
  abbrev pub ip_string : Option Protocol → Option Text
  ip_string (some (ip4 a)) = some (F.show_ip4 a)
  ip_string (some (ip6 a)) = some (F.show_ip6 a)
  ip_string p = none

  abbrev pub tcp_port : Option Protocol → Option ℕ
  tcp_port (some (tcp port)) = some port
  tcp_port p = none

  abbrev pub join_address :
      {Io Socks : Type 0} → Multiaddr → Option Text → Option ℕ → Outcome (TorError Io Socks) Text
  join_address addr (some ip) (some port) = ok (ip ++ (codes ":" ++ show_ℕ port))
  join_address addr ip port = err (protocol_error (codes "Bad address: " ++ F.show_multiaddr addr))

  unfoldable pub get_listen_address_string :
      {Io Socks : Type 0} → Multiaddr → Outcome (TorError Io Socks) Text
  get_listen_address_string addr =
      join_address addr (ip_string (multiaddr_get addr is_ip))
        (tcp_port (multiaddr_get addr is_tcp))

-- `^[^=]*=(?P<value>.*)$`: what follows the first `=`, if it has no newline.
abbrev pub value_regex : Text → Option Text
value_regex s = elim (split_once b'=' s) [
  | none ↦ none
  | some (key, value) ↦ if has_char b'\n' value then none else some value
]

module _ {Io Socks : Type 0} (F : AddrFormats) (X : Environment Io Socks) where
  abbrev pub add_onion_arguments : ℕ → Text → Text
  add_onion_arguments virt_port listen_address =
      codes "NEW:BEST Flags=DiscardPK Port=" ++ (show_ℕ virt_port ++ (codes "," ++ listen_address))

  -- Both `unwrap`s of the hash panic unless it is the base 32 of 35 bytes.
  abbrev pub service_of :
      ℕ → Multiaddr → Text → Option Text → Outcome (TorError Io Socks) OnionService
  service_of virt_port listen_address hash_string none = panic
  service_of virt_port listen_address hash_string (some hash) =
      if eqb (length hash) 35
      then ok (record {
        virt_port = virt_port;
        listen_address = listen_address;
        service_id = hash_string;
        address = push nil (onion3 (record { hash = hash; port = virt_port }));
      })
      else panic

  abbrev pub service_from_value :
      ℕ → Multiaddr → ControlResponse → Option Text → Outcome (TorError Io Socks) OnionService
  service_from_value virt_port listen_address r (some hash_string) =
      service_of virt_port listen_address hash_string (F.decode_base32 hash_string)
  service_from_value virt_port listen_address r none = err (
      protocol_error (
        codes "Unexpected response: "
        ++ (show_ℕ r.code ++ (codes " " ++ join (codes " ") r.response))))

  -- The reply's first line names the service, `ServiceID=…`.
  unfoldable pub parse_service :
      ℕ → Multiaddr → ControlResponse → Outcome (TorError Io Socks) OnionService
  parse_service virt_port listen_address r = elim r.response [
    | [] ↦ panic
    | first ∷ others ↦ service_from_value virt_port listen_address r (value_regex first)
  ]

  unfoldable pub create_transient_onion_service :
      ℕ → Multiaddr → TorControlConnection Io → After X OnionService
  create_transient_onion_service virt_port listen_address c =
      on_ok (c, get_listen_address_string F listen_address)
        λ c1 text.
          on_ok (send_command X (codes "ADD_ONION") (some (add_onion_arguments virt_port text)) c1)
            λ c2 response. (c2, parse_service virt_port listen_address response)
