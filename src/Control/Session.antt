-- ===== src/Control/Session.antt =====
-- Commands and the replies that they get.
use trithemius_p2p.Base.{
  ℕ, ◌≡◌, refl, ap, ◌∙◌, Text, codes, text_eq, ◌==◌, false, Option, none, some, List, [], ◌∷◌, ◌++◌,
  ok, err, All, arith, has_char, length, split_once_found, join, eqb, ◌||◌, if◌then◌else◌,
}
use trithemius_p2p.Base.Decimal.{show_ℕ}
use trithemius_p2p.Util.{ip4, tcp, onion3, Multiaddr, nil, push, multiaddr_get}
use trithemius_p2p.NetworkAddr.Formats.{AddrFormats}
use trithemius_p2p.Control.Error.{authentication_error}
use trithemius_p2p.Control.Response.{ControlResponse}
use trithemius_p2p.Control.Reader.{line, Reader, read_control_response}
use trithemius_p2p.Control.Connection.{
  TorControlConnection, Environment, After, null, write, send_command, authenticate, check_code,
  command_line, rename_error,
}
use trithemius_p2p.Control.Onion.{
  get_listen_address_string, create_transient_onion_service, parse_service, add_onion_arguments,
  value_regex, service_of, service_from_value,
}
use trithemius_p2p.Control.Framing.{
  HasAscii, IsOneLine, reply_line, reply, mid_lines, data_lines, read_single, read_lines, read_data,
}

module _ {Io Socks : Type 0} (X : Environment Io Socks) where
  -- Where the line can be written, a command returns the next reply, if its code is good.
  pub send_command_reply :
      (command : Text) (arguments : Option Text) (c : TorControlConnection Io) {r : Reader Io}
      {response : ControlResponse}
      → X.send_result c.written (command_line X command arguments) ≡ none
      → read_control_response X.texts X.decimal_digit c.reader ≡ (r, ok response)
      → send_command X command arguments c ≡ (
        record { reader = r; written = c.written ++ command_line X command arguments ∷ [] },
        check_code X response,
      )
  unfolding send_command
  send_command_reply command arguments c s h = rw (s, send_command, write, h)

  -- Where the command can be written and a reply is read, the null method writes one command, and
  -- succeeds if the reply's code is 250 or 251; otherwise it fails with an authentication error
  -- that has the reply's text.
  pub authenticate_reply :
      (c : TorControlConnection Io) {r : Reader Io} {response : ControlResponse}
      → X.send_result c.written (codes "AUTHENTICATE") ≡ none
      → read_control_response X.texts X.decimal_digit c.reader ≡ (r, ok response)
      → authenticate X null c ≡ (
        record { reader = r; written = c.written ++ codes "AUTHENTICATE" ∷ [] },
        (if eqb response.code 250 || eqb response.code 251
            then ok tt
            else err (authentication_error (join (codes " ") response.response))),
      )
  unfolding authenticate
  authenticate_reply c {r} {response} s h =
      ap (λ (p : After X ControlResponse). (p.0, rename_error X p.1))
        (send_command_reply (codes "AUTHENTICATE") none c s h)
      ∙ ap (λ o. (record { reader = r; written = c.written ++ codes "AUTHENTICATE" ∷ [] }, o))
          (renamed response)
    where
      renamed :
          (a : ControlResponse)
          → rename_error X (check_code X a) ≡ (
              if eqb a.code 250 || eqb a.code 251
              then ok tt
              else err (authentication_error (join (codes " ") a.response)))
      renamed a = ground arith

  module _ (D : HasAscii X.decimal_digit) where
    -- Where the controller ends a reply with data by a line with code 250 behind the dot, and both
    -- commands can be written, the command after that one is given this line as its reply, and its
    -- own reply is left unread.
    pub next_command_gets_old_reply :
        (command next : Text) (first final : Text) (texts : List Text) (own_reply : Reader Io)
        (c : TorControlConnection Io)
        → IsOneLine first
        → IsOneLine final
        → All (λ t. (t == codes ".") ≡ false) texts
        → c.reader
          ≡ line (reply_line b'+' first)
            ∷ (data_lines X.texts X.decimal_digit D texts
                ++ line (codes ".") ∷ line (reply_line b' ' final) ∷ own_reply)
        → X.send_result c.written command ≡ none
        → X.send_result (c.written ++ command ∷ []) next ≡ none
        → let c' = (send_command X command none c).0 in
          ((send_command X next none c').1 ≡ ok (reply b' ' final))
          × ((send_command X next none c').0.reader ≡ own_reply)
    next_command_gets_old_reply command next first final texts own_reply c hf hl ht e s s' =
        let step = send_command_reply command none c s (
          ap (read_control_response X.texts X.decimal_digit) e
          ∙ read_data X.texts X.decimal_digit D first texts
              (line (reply_line b' ' final) ∷ own_reply) hf ht) in
        let c1 : TorControlConnection Io = record {
          reader = line (reply_line b' ' final) ∷ own_reply;
          written = c.written ++ command ∷ [];
        } in
        let again =
          send_command_reply next none c1 s'
            (read_single X.texts X.decimal_digit D final own_reply hl) in
        rw step (rw again (refl, refl))

value_found :
    (key id : Text)
    → has_char b'=' key ≡ false
    → has_char b'\n' id ≡ false
    → value_regex (key ++ b'=' ∷ id) ≡ some id
value_found key id k n = rw (split_once_found b'=' key id k, value_regex) (rw n refl)

module _ {Io Socks : Type 0} (F : AddrFormats) (X : Environment Io Socks) where
  parse_service_ok :
      (virt_port : ℕ) (listen_address : Multiaddr) (key id hash : Text) (texts : List Text)
      → has_char b'=' key ≡ false
      → has_char b'\n' id ≡ false
      → F.decode_base32 id ≡ some hash
      → length hash ≡ 35
      → parse_service F X virt_port listen_address
          (record (reply b'-' (key ++ b'=' ∷ id)) { response = (key ++ b'=' ∷ id) ∷ texts })
        ≡ ok (record {
          virt_port = virt_port;
          listen_address = listen_address;
          service_id = id;
          address = push nil (onion3 (record { hash = hash; port = virt_port }));
        })
  unfolding parse_service
  parse_service_ok virt_port listen_address key id hash texts k n d size =
      ap
        (service_from_value F X virt_port listen_address
          (record (reply b'-' (key ++ b'=' ∷ id)) { response = (key ++ b'=' ∷ id) ∷ texts }))
        (value_found key id k n)
      ∙ ap (service_of F X virt_port listen_address id) d
      ∙ sized hash size
    where
      sized :
          (h : Text)
          → length h ≡ 35
          → service_of F X virt_port listen_address id (some h)
            ≡ ok (record {
              virt_port = virt_port;
              listen_address = listen_address;
              service_id = id;
              address = push nil (onion3 (record { hash = h; port = virt_port }));
            })
      sized h e = ground (arith, e)

  -- Where a line with code 250 of the form KEY=ID, KEY without an equals sign, begins a reply that
  -- lines with code 250 go on with and end, the command can be written, and ID is the base 32 of
  -- 35 bytes, creating a service for an IPv4 address and a port writes the one command with the
  -- virtual port and that address, reads exactly the reply, and returns the service: its name ID,
  -- and an onion address of those bytes and the virtual port.
  pub create_service :
      (D : HasAscii X.decimal_digit) (virt_port ip port : ℕ) (key id hash final : Text)
      (texts : List Text) (rest : Reader Io) (c : TorControlConnection Io)
      → X.send_result c.written (
          command_line X (codes "ADD_ONION") (
            some (add_onion_arguments F X virt_port (F.show_ip4 ip ++ (codes ":" ++ show_ℕ port)))))
        ≡ none
      → c.reader
        ≡ mid_lines X.texts X.decimal_digit D ((key ++ b'=' ∷ id) ∷ texts)
          ++ line (reply_line b' ' final) ∷ rest
      → has_char b'=' key ≡ false
      → has_char b'\n' id ≡ false
      → IsOneLine (key ++ b'=' ∷ id)
      → All IsOneLine texts
      → IsOneLine final
      → F.decode_base32 id ≡ some hash
      → length hash ≡ 35
      → create_transient_onion_service F X virt_port (push (push nil (ip4 ip)) (tcp port)) c ≡ (
        record {
          reader = rest;
          written =
              c.written
              ++ command_line X (codes "ADD_ONION") (
                  some (
                    add_onion_arguments F X virt_port
                      (F.show_ip4 ip ++ (codes ":" ++ show_ℕ port))))
                ∷ [];
        },
        ok (record {
          virt_port = virt_port;
          listen_address = push (push nil (ip4 ip)) (tcp port);
          service_id = id;
          address = push nil (onion3 (record { hash = hash; port = virt_port }));
        }),
      )
  unfolding create_transient_onion_service get_listen_address_string multiaddr_get
  create_service D virt_port ip port key id hash final texts rest c s e k n one ts f d size =
      rw
        (send_command_reply X (codes "ADD_ONION")
          (some (add_onion_arguments F X virt_port (F.show_ip4 ip ++ (codes ":" ++ show_ℕ port)))) c
          s
          (ap (read_control_response X.texts X.decimal_digit) e
            ∙ read_lines X.texts X.decimal_digit D (key ++ b'=' ∷ id) final texts rest one ts f))
        (rw
          (parse_service_ok virt_port (push (push nil (ip4 ip)) (tcp port)) key id hash texts k n d
            size)
          refl)
