-- ===== src/Control/Tests.antt =====
-- Examples of the connection to the controller: every line can be written, and `\d` is a digit
-- of ASCII.
use trithemius_p2p.Base.{
  Option, arith, ℕ, ◌≡◌, refl, inl, Text, codes, text_eq, none, some, List, [], ◌∷◌, ◌++◌, ok,
  panic,
}
use trithemius_p2p.Base.Decimal.{is_digit, show_ℕ}
use trithemius_p2p.Util.{Protocol, ip4, tcp, onion3, nil, push}
use trithemius_p2p.NetworkAddr.Examples.{example_formats}
use trithemius_p2p.Control.Error.{ErrorTexts}
use trithemius_p2p.Control.Response.{parse_line}
use trithemius_p2p.Control.Reader.{line, Reader, read_control_response}
use trithemius_p2p.Control.Connection.{
  TorControlConnection, Environment, null, send_command, authenticate, command_line,
}
use trithemius_p2p.Control.Onion.{create_transient_onion_service, add_onion_arguments}
use trithemius_p2p.Control.Framing.{
  HasAscii, reply_line, reply, async_line_panics, mid_lines, data_lines, read_lines, read_data,
  read_single,
}
use trithemius_p2p.Control.Ports.{
  Configured, configured_line, configured_lines, get_hidden_service_port_mappings,
  last_mapping_lost,
}
use trithemius_p2p.Control.Session.{authenticate_reply, next_command_gets_old_reply, create_service}

abbrev texts : ErrorTexts ℕ ℕ
texts = record { show_io = λ e. []; show_socks = λ e. []; show_lines_codec = λ e. [] }

abbrev environment : Environment ℕ ℕ
environment = record { texts = texts; decimal_digit = is_digit; send_result = λ written text. none }

digits : HasAscii is_digit
digits = record { two = refl; five = refl; zero_digit = refl }

abbrev two_texts : List Text
two_texts = codes "one" ∷ codes "two" ∷ []

read_lines_example :
    read_control_response {Socks = ℕ} texts is_digit (
      mid_lines texts is_digit digits two_texts
      ++ line (reply_line b' ' (codes "OK")) ∷ line (codes "more") ∷ [])
    ≡ (line (codes "more") ∷ [], ok (record (reply b'-' (codes "one")) { response = two_texts }))
read_lines_example =
    read_lines texts is_digit digits (codes "one") (codes "OK") (codes "two" ∷ [])
      (line (codes "more") ∷ []) refl (refl, tt) refl

read_data_example :
    read_control_response {Socks = ℕ} texts is_digit (
      line (reply_line b'+' (codes "data="))
      ∷ (data_lines texts is_digit digits two_texts ++ line (codes ".") ∷ []))
    ≡ ([], ok (record (reply b'+' (codes "data=")) { response = codes "data=" ∷ two_texts }))
unfolding text_eq
read_data_example =
    read_data texts is_digit digits (codes "data=") two_texts [] refl (refl, (refl, tt))

async_line_panics_example : parse_line {Io = ℕ} {Socks = ℕ} is_digit (codes "650 OK") ≡ panic
async_line_panics_example =
    async_line_panics is_digit b'5' b'0' b' ' (codes "OK") refl refl refl (inl refl) refl refl

abbrev connection : Reader ℕ → TorControlConnection ℕ
connection reader = record { reader = reader; written = [] }

authenticate_reply_example :
    authenticate environment null (connection (line (reply_line b' ' (codes "OK")) ∷ []))
    ≡ (record { reader = []; written = codes "AUTHENTICATE" ∷ [] }, ok tt)
authenticate_reply_example =
    authenticate_reply environment (connection (line (reply_line b' ' (codes "OK")) ∷ [])) refl
      (read_single texts is_digit digits (codes "OK") [] refl)

-- Two commands, each answered in full.
abbrev answers : Reader ℕ
answers =
    line (reply_line b'+' (codes "info="))
    ∷ (data_lines texts is_digit digits two_texts
        ++ line (codes ".")
          ∷ line (reply_line b' ' (codes "OK"))
          ∷ line (reply_line b' ' (codes "version"))
          ∷ [])

next_command_gets_old_reply_example :
    ((send_command environment
        (codes "VERSION")
        none
        (send_command environment (codes "INFO") none (connection answers)).0).1
      ≡ ok (reply b' ' (codes "OK")))
    × ((send_command environment
          (codes "VERSION")
          none
          (send_command environment (codes "INFO") none (connection answers)).0).0.reader
        ≡ line (reply_line b' ' (codes "version")) ∷ [])
unfolding text_eq
next_command_gets_old_reply_example =
    next_command_gets_old_reply environment digits (codes "INFO") (codes "VERSION") (codes "info=")
      (codes "OK") two_texts (line (reply_line b' ' (codes "version")) ∷ []) (connection answers)
      refl refl (refl, (refl, tt)) refl refl refl

-- A name that the example formats decode to 35 bytes.
abbrev service_id : Text
service_id = codes "bbbbbbbbbbbbbbbbbbbbbbbbbbbbbbbbbbb"

abbrev zeros : Text
zeros =
    0 ∷ 0 ∷ 0 ∷ 0 ∷ 0 ∷ 0 ∷ 0 ∷ 0 ∷ 0 ∷ 0 ∷ 0 ∷ 0 ∷ 0 ∷ 0 ∷ 0 ∷ 0 ∷ 0 ∷ 0 ∷ 0 ∷ 0 ∷ 0 ∷ 0 ∷ 0 ∷ 0
    ∷ 0 ∷ 0 ∷ 0 ∷ 0 ∷ 0 ∷ 0 ∷ 0 ∷ 0 ∷ 0 ∷ 0 ∷ 0 ∷ []

abbrev service_reply : Reader ℕ
service_reply =
    mid_lines texts is_digit digits ((codes "ServiceID" ++ b'=' ∷ service_id) ∷ [])
    ++ line (reply_line b' ' (codes "OK")) ∷ []

create_service_example :
    create_transient_onion_service example_formats environment 80
      (push (push nil (ip4 1)) (tcp 7000))
      (connection service_reply)
    ≡ (
      record {
        reader = [];
        written =
            command_line environment (codes "ADD_ONION") (
              some (
                add_onion_arguments example_formats environment 80
                  (codes "1" ++ (codes ":" ++ show_ℕ 7000))))
            ∷ [];
      },
      ok (record {
        virt_port = 80;
        listen_address = push (push nil (ip4 1)) (tcp 7000);
        service_id = service_id;
        address = push nil (onion3 (record { hash = zeros; port = 80 }));
      }),
    )
create_service_example =
    create_service example_formats environment digits 80 1 7000 (codes "ServiceID") service_id zeros
      (codes "OK") [] [] (connection service_reply) refl refl refl refl refl tt refl refl refl

abbrev socket : Text → Option (Protocol × ℕ)
socket s = some (ip4 1, 7000)

abbrev web : Configured environment socket
web = record {
  virtual_port = 80;
  target = codes "1:7000";
  address = push (push nil (ip4 1)) (tcp 7000);
  in_range = omega arith;
  one_line = refl;
  parses = refl;
}

abbrev two_ports : Reader ℕ
two_ports =
    mid_lines texts is_digit digits (configured_lines environment socket (web ∷ []))
    ++ line (reply_line b' ' (configured_line environment socket web)) ∷ []

last_mapping_lost_example :
    get_hidden_service_port_mappings environment socket (connection two_ports) ≡ (
      record { reader = []; written = codes "GETCONF HiddenServicePort" ∷ [] },
      ok ((80, push (push nil (ip4 1)) (tcp 7000)) ∷ []),
    )
unfolding show_ℕ
last_mapping_lost_example =
    last_mapping_lost environment socket (λ c h. h) digits web [] web [] (connection two_ports) refl
      refl refl tt refl
