-- ===== src/Control/Ports.antt =====
-- `get_hidden_service_port_mappings` of src/tor/control_connection.rs. `parse_socket` is
-- `SocketAddr::from_str`, as the protocol of the IP address and the port.
use trithemius_p2p.Base.{
  ℕ, ◌≡◌, refl, ap, ◌∙◌, Text, codes, Bool, true, false, ◌&&◌, Option, none, some, List, [], ◌∷◌,
  ◌++◌, Outcome, ok, err, panic, ◌>>=◌, on_ok, All, has_char, starts_with, split_once,
  split_once_found, drop, join, if◌then◌else◌, arith, ◌≤◌,
}
use trithemius_p2p.Base.Decimal.{
  parse_u16, max_u16, show_ℕ, is_digit, IsDecimal, show_ℕ-IsDecimal, parse_unsigned-show_ℕ,
}
use trithemius_p2p.Util.{Protocol, tcp, unix, Multiaddr, nil, push}
use trithemius_p2p.Control.Error.{TorError, protocol_error}
use trithemius_p2p.Control.Response.{ControlResponse}
use trithemius_p2p.Control.Reader.{line, Reader, read_control_response}
use trithemius_p2p.Control.Connection.{TorControlConnection, Environment, After, send_command}
use trithemius_p2p.Control.Framing.{HasAscii, IsOneLine, reply_line, mid_lines, read_lines}
use trithemius_p2p.Control.Session.{send_command_reply}

abbrev pub prefix : Text
prefix = codes "HiddenServicePort="

abbrev pub all_chars : (ℕ → Bool) → Text → Bool
all_chars p [] = true
all_chars p (c ∷ s) = p c && all_chars p s

module _ {Io Socks : Type 0} (X : Environment Io Socks)
    (parse_socket : Text → Option (Protocol × ℕ)) where
  -- `^HiddenServicePort=(?P<virtual_port>\d*) (?P<target_addr>.*)$`: the port ends at the first
  -- space, since no digit is one.
  abbrev pub captures_of : Option (Text × Text) → Option (Text × Text)
  captures_of none = none
  captures_of (some (virtual_port, target_addr)) =
      if has_char b'\n' target_addr
      then none
      else if all_chars X.decimal_digit virtual_port
      then some (virtual_port, target_addr)
      else none

  abbrev pub mapping_regex : Text → Option (Text × Text)
  mapping_regex s = if starts_with prefix s then captures_of (split_once b' ' (drop 18 s)) else none

  abbrev pub socket_address : Option (Protocol × ℕ) → Option Multiaddr
  socket_address none = none
  socket_address (some (ip, port)) = some (push (push nil ip) (tcp port))

  abbrev pub target_of : Text → Option Multiaddr
  target_of target_addr =
      if starts_with (codes "unix:") target_addr
      then some (push nil (unix (drop 5 target_addr)))
      else socket_address (parse_socket target_addr)

  -- Both `unwrap`s panic.
  abbrev pub mapping : Option Multiaddr → Option ℕ → Outcome (TorError Io Socks) (ℕ × Multiaddr)
  mapping (some target) (some virtual_port) = ok (virtual_port, target)
  mapping target virtual_port = panic

  abbrev pub mapping_of :
      ControlResponse → Option (Text × Text) → Outcome (TorError Io Socks) (ℕ × Multiaddr)
  mapping_of r (some (virtual_port, target_addr)) =
      mapping (target_of target_addr) (parse_u16 virtual_port)
  mapping_of r none = err (
      protocol_error (
        codes "Unexpected response: "
        ++ (show_ℕ r.code ++ (codes " " ++ join (codes " ") r.response))))

  -- The loop over the lines of the response.
  unfoldable pub mappings :
      ControlResponse → List Text → Outcome (TorError Io Socks) (List (ℕ × Multiaddr))
  mappings r [] = ok []
  mappings r (s ∷ ss) = mapping_of r (mapping_regex s) >>= λ m. mappings r ss >>= λ ms. ok (m ∷ ms)

  unfoldable pub get_hidden_service_port_mappings :
      TorControlConnection Io → After X (List (ℕ × Multiaddr))
  unfolding mappings
  get_hidden_service_port_mappings c =
      on_ok (send_command X (codes "GETCONF") (some (codes "HiddenServicePort")) c)
        λ c' response. (c', mappings response response.response)

  -- A line of the controller's configuration, and the mapping that it stands for.
  pub record Configured : Type 0 where
    pub virtual_port : ℕ
    pub target : Text
    pub address : Multiaddr
    pub in_range : virtual_port ≤ max_u16
    pub one_line : has_char b'\n' target ≡ false
    pub parses : target_of target ≡ some address

  abbrev pub configured_line : Configured → Text
  configured_line m = prefix ++ (show_ℕ m.virtual_port ++ b' ' ∷ m.target)

  abbrev pub configured_lines : List Configured → List Text
  configured_lines [] = []
  configured_lines (m ∷ ms) = configured_line m ∷ configured_lines ms

  abbrev pub configured_mappings : List Configured → List (ℕ × Multiaddr)
  configured_mappings [] = []
  configured_mappings (m ∷ ms) = (m.virtual_port, m.address) ∷ configured_mappings ms

  no_space : (s : Text) → IsDecimal s → has_char b' ' s ≡ false
  no_space [] d = refl
  no_space (c ∷ s) d = ground (arith, no_space s d.1)

  module _ (digits : (c : ℕ) → is_digit c ≡ true → X.decimal_digit c ≡ true) where
    all_digits : (s : Text) → IsDecimal s → all_chars X.decimal_digit s ≡ true
    all_digits [] d = refl
    all_digits (c ∷ s) d = ground (arith, all_digits s d.1, digits c d.0)

    regex_line :
        (m : Configured)
        → mapping_regex (configured_line m) ≡ some (show_ℕ m.virtual_port, m.target)
    regex_line m =
        let d = show_ℕ-IsDecimal m.virtual_port in
        rw
          (split_once_found b' ' (show_ℕ m.virtual_port) m.target
            (no_space (show_ℕ m.virtual_port) d))
          (rw (m.one_line, all_digits (show_ℕ m.virtual_port) d) refl)

    mappings-configured :
        (r : ControlResponse) (ms : List Configured)
        → mappings r (configured_lines ms) ≡ ok (configured_mappings ms)
    unfolding mappings
    mappings-configured r [] = refl
    mappings-configured r (m ∷ ms) = rw (regex_line m) (
        rw (m.parses, parse_unsigned-show_ℕ max_u16 m.virtual_port m.in_range)
          (rw (mappings-configured r ms) refl))

    -- Where digits are digits to the regular expression, the controller answers for two mappings
    -- or more with one line for each, all with code 250, each with a port below 65536 and a target
    -- that parses and has no newline, and the command can be written, all mappings but that of the
    -- last line are returned, in their order.
    pub last_mapping_lost :
        (D : HasAscii X.decimal_digit) (m : Configured) (ms : List Configured) (last : Configured)
        (rest : Reader Io) (c : TorControlConnection Io)
        → X.send_result c.written (codes "GETCONF HiddenServicePort") ≡ none
        → c.reader
          ≡ mid_lines X.texts X.decimal_digit D (configured_lines (m ∷ ms))
            ++ line (reply_line b' ' (configured_line last)) ∷ rest
        → IsOneLine (configured_line m)
        → All IsOneLine (configured_lines ms)
        → IsOneLine (configured_line last)
        → get_hidden_service_port_mappings c ≡ (
          record { reader = rest; written = c.written ++ codes "GETCONF HiddenServicePort" ∷ [] },
          ok (configured_mappings (m ∷ ms)),
        )
    unfolding get_hidden_service_port_mappings
    last_mapping_lost D m ms last rest c w reads one all final =
        rw
          (send_command_reply X (codes "GETCONF") (some (codes "HiddenServicePort")) c w (
            ap (read_control_response X.texts X.decimal_digit) reads
            ∙ read_lines X.texts X.decimal_digit D (configured_line m) (configured_line last)
                (configured_lines ms) rest one all final))
          (rw (mappings-configured _ (m ∷ ms)) refl)
