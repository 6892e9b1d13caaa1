-- ===== src/Engine/Service.antt =====
-- The engine's onion service: the connection is made once, the two commands go over it, and the
-- service is sent to the Tor transport before it is listened for.
use trithemius_p2p.Base.{
  ℕ, ◌≡◌, refl, Text, codes, none, some, true, false, List, [], ◌∷◌, ◌++◌, Eq, Outcome, ok, All,
  inr, has_char, length,
}
use trithemius_p2p.Base.Decimal.{show_ℕ}
use trithemius_p2p.Base.Map.{insert}
use trithemius_p2p.Util.{ip4, tcp, onion3, Multiaddr, nil, push}
use trithemius_p2p.NetworkAddr.Formats.{AddrFormats}
use trithemius_p2p.Control.Error.{TorError}
use trithemius_p2p.Control.Service.{OnionService}
use trithemius_p2p.Control.Reader.{Reader, line}
use trithemius_p2p.Control.Connection.{
  TorControlConnection, Environment, null, authenticate, command_line,
}
use trithemius_p2p.Control.Onion
use trithemius_p2p.Control.Onion.{add_onion_arguments}
use trithemius_p2p.Control.Framing.{HasAscii, IsOneLine, reply_line, mid_lines, read_single}
use trithemius_p2p.Control.Session.{authenticate_reply, create_service}
use trithemius_p2p.Engine.Events.{PackageTypes}
use trithemius_p2p.Engine.Run.{Swarm, Engine}
use trithemius_p2p.Engine.Ops.{
  Connects, get_tor_connection, on_connection, create_transient_onion_service,
}

module _ {T : PackageTypes} (S : Swarm T) ⦃query_eq : Eq T.QueryId⦄ (F : AddrFormats)
    (X : Environment T.IoError T.SocksError) (connects : Connects T) where
  on_connection_first :
      {A : Type 0}
      (command : TorControlConnection T.IoError
        → TorControlConnection T.IoError × Outcome (TorError T.IoError T.SocksError) A)
      (e : Engine S) {reader : Reader T.IoError} {c : TorControlConnection T.IoError} {a : A}
      → e.tor_connection ≡ none
      → connects (codes "127.0.0.1:9051") ≡ inr reader
      → command (record { reader = reader; written = [] }) ≡ (c, ok a)
      → on_connection S F X connects command e ≡ (record e { tor_connection = some c }, ok a)
  unfolding get_tor_connection
  on_connection_first command e n r s = rw (n, r) (rw s refl)

  on_connection_again :
      {A : Type 0}
      (command : TorControlConnection T.IoError
        → TorControlConnection T.IoError × Outcome (TorError T.IoError T.SocksError) A)
      (e : Engine S) (c : TorControlConnection T.IoError) {c' : TorControlConnection T.IoError}
      {a : A}
      → command c ≡ (c', ok a)
      → on_connection S F X connects command (record e { tor_connection = some c })
        ≡ (record e { tor_connection = some c' }, ok a)
  unfolding get_tor_connection
  on_connection_again command e c s = rw s refl

  abbrev pub add_onion_line : ℕ → ℕ → ℕ → Text
  add_onion_line virt_port ip port =
      command_line X (codes "ADD_ONION")
        (some (add_onion_arguments F X virt_port (F.show_ip4 ip ++ (codes ":" ++ show_ℕ port))))

  abbrev pub created : ℕ → Multiaddr → Text → Text → OnionService
  created virt_port listen_address id hash = record {
    virt_port = virt_port;
    listen_address = listen_address;
    service_id = id;
    address = push nil (onion3 (record { hash = hash; port = virt_port }));
  }

  -- Where there is no connection to Tor yet and the controller sends a reply of one line and then
  -- the reply of a service with a proper name, all commands can be written, no service waits on
  -- the channel to the transport, the swarm listens once the service is there, and Kademlia is on
  -- and bootstraps, the engine connects once, authenticates, creates the service, sends it on the
  -- channel before it listens for it, notes the bootstrap's query, and gives the service's
  -- address.
  pub first_service :
      (D : HasAscii X.decimal_digit) (virt_port ip port : ℕ) (greeting key id hash final : Text)
      (texts : List Text) (rest : Reader T.IoError) (e : Engine S) {swarm swarm' : S.State}
      {listener : T.ListenerId} {query : T.QueryId}
      → let listen_address = push (push nil (ip4 ip)) (tcp port) in
        ((written : List Text) (text : Text) → X.send_result written text ≡ none)
        → e.tor_connection ≡ none
        → connects (codes "127.0.0.1:9051")
          ≡ inr (
              line (reply_line b' ' greeting)
              ∷ (mid_lines X.texts X.decimal_digit D ((key ++ b'=' ∷ id) ∷ texts)
                  ++ line (reply_line b' ' final) ∷ rest))
        → IsOneLine greeting
        → has_char b'=' key ≡ false
        → has_char b'\n' id ≡ false
        → IsOneLine (key ++ b'=' ∷ id)
        → All IsOneLine texts
        → IsOneLine final
        → F.decode_base32 id ≡ some hash
        → length hash ≡ 35
        → S.waiting_services e.swarm ≡ some []
        → S.listen_on
            (S.queue_service e.swarm (created virt_port listen_address id hash))
            listen_address
          ≡ (swarm, inr listener)
        → S.with_kademlia swarm ≡ true
        → S.bootstrap swarm ≡ (swarm', inr query)
        → create_transient_onion_service S F X connects virt_port listen_address e ≡ (
          record e {
            swarm = swarm';
            tor_connection = some (record {
              reader = rest;
              written = codes "AUTHENTICATE" ∷ add_onion_line virt_port ip port ∷ [];
            });
            query_map = insert query e.peer_id e.query_map;
          },
          ok (created virt_port listen_address id hash).address,
        )
  unfolding create_transient_onion_service
  first_service D virt_port ip port greeting key id hash final texts rest e w n r g k i one ts f d
        size ch l kad b =
      let c1 : TorControlConnection T.IoError = record {
        reader =
            mid_lines X.texts X.decimal_digit D ((key ++ b'=' ∷ id) ∷ texts)
            ++ line (reply_line b' ' final) ∷ rest;
        written = codes "AUTHENTICATE" ∷ [];
      } in
      let first = on_connection_first (authenticate X null) e n r (
        authenticate_reply X _ (w [] (codes "AUTHENTICATE"))
          (read_single X.texts X.decimal_digit D greeting c1.reader g)) in
      let again =
        on_connection_again
          (Onion.create_transient_onion_service F X virt_port (push (push nil (ip4 ip)) (tcp port)))
          e c1
          (create_service F X D virt_port ip port key id hash final texts rest c1 (w c1.written _)
            refl k i one ts f d size) in
      rw first (rw again (rw ch (rw l (rw kad (rw b refl)))))
