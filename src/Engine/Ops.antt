-- ===== src/Engine/Ops.antt =====
-- The calls of `Engine` that pass on to the swarm, and the onion service (src/engine.rs).
use trithemius_p2p.Base.{
  ltb, length, stuck, ℕ, Text, codes, Option, none, some, Bool, List, [], Eq, Outcome, ok, err,
  map_err, on_ok, ◌⊎◌, inl, inr, if◌then◌else◌,
}
use trithemius_p2p.Base.Map.{insert}
use trithemius_p2p.Util.{Multiaddr}
use trithemius_p2p.NetworkAddr.Formats.{AddrFormats}
use trithemius_p2p.Control.Error.{TorError, io_error}
use trithemius_p2p.Control.Service.{OnionService}
use trithemius_p2p.Control.Reader.{Reader}
use trithemius_p2p.Control.Connection.{TorControlConnection, Environment, null, authenticate}
use trithemius_p2p.Control.Onion
use trithemius_p2p.Engine.Events.{PackageTypes}
use trithemius_p2p.Engine.Run.{Swarm, Engine}

abbrev pub result : {E A : Type 0} → E ⊎ A → Outcome E A
result (inl e) = err e
result (inr a) = ok a

module _ {T : PackageTypes} (S : Swarm T) where
  -- The engine after a call, and how it ended.
  abbrev pub Call : Type 0 → Type 0 → Type 0
  Call E A = Engine S × Outcome E A

  abbrev pub on_swarm : {E A : Type 0} → Engine S → S.State × (E ⊎ A) → Call E A
  on_swarm e (swarm, r) = (record e { swarm = swarm }, result r)

  unfoldable pub dial : Multiaddr → Engine S → Call T.DialError (Unit {0})
  dial addr e = on_swarm e (S.dial e.swarm addr)

  unfoldable pub listen : Multiaddr → Engine S → Call S.ListenError T.ListenerId
  listen addr e = on_swarm e (S.listen_on e.swarm addr)

  unfoldable pub subscribe : Text → Engine S → Call S.SubscriptionError Bool
  subscribe topic e = on_swarm e (S.subscribe e.swarm topic)

  unfoldable pub unsubscribe : Text → Engine S → Call S.PublishError Bool
  unsubscribe topic e = on_swarm e (S.unsubscribe e.swarm topic)

-- The errors that `create_transient_onion_service` boxes.
pub data ServiceError {T : PackageTypes} (S : Swarm T) : Type 0 where
  tor_error : TorError T.IoError T.SocksError → ServiceError S
  send_error : OnionService → ServiceError S
  listen_error : S.ListenError → ServiceError S
  bootstrap_error : S.BootstrapError → ServiceError S

-- The services that the channel has room for.
abbrev pub channel_capacity : ℕ
channel_capacity = 1

-- What the world answers to a connection: an error, or a stream of lines.
abbrev pub Connects : PackageTypes → Type 0
Connects T = Text → T.IoError ⊎ Reader T.IoError

module _ {T : PackageTypes} (S : Swarm T) ⦃query_eq : Eq T.QueryId⦄ (F : AddrFormats)
    (X : Environment T.IoError T.SocksError) (connects : Connects T) where
  -- `TorControlConnection::connect`, and the field that keeps the connection.
  abbrev pub keep_connection :
      Engine S
      → T.IoError ⊎ Reader T.IoError
      → Call S (TorError T.IoError T.SocksError) (TorControlConnection T.IoError)
  keep_connection e (inl error) = (e, err (io_error error))
  keep_connection e (inr reader) =
      let c : TorControlConnection T.IoError = record { reader = reader; written = [] } in
      (record e { tor_connection = some c }, ok c)

  abbrev pub known_connection :
      Engine S
      → Option (TorControlConnection T.IoError)
      → Call S (TorError T.IoError T.SocksError) (TorControlConnection T.IoError)
  known_connection e (some c) = (e, ok c)
  known_connection e none = keep_connection e (connects (codes "127.0.0.1:9051"))

  unfoldable pub get_tor_connection :
      Engine S → Call S (TorError T.IoError T.SocksError) (TorControlConnection T.IoError)
  get_tor_connection e = known_connection e e.tor_connection

  -- The engine after a command on its connection.
  abbrev pub after_command :
      {A : Type 0}
      → Engine S
      → TorControlConnection T.IoError × Outcome (TorError T.IoError T.SocksError) A
      → Call S (ServiceError S) A
  after_command e (c, o) = (record e { tor_connection = some c }, map_err tor_error o)

  abbrev pub on_connection :
      {A : Type 0}
      → (TorControlConnection T.IoError
          → TorControlConnection T.IoError × Outcome (TorError T.IoError T.SocksError) A)
      → Engine S
      → Call S (ServiceError S) A
  on_connection command e =
      let (e1, o) = get_tor_connection e in
      on_ok (e1, map_err tor_error o) λ e2 c. after_command e2 (command c)

  -- `onion_service_channel.send(…).await`: with no room it waits for a receiver that only this task
  -- can run.
  abbrev pub sent :
      Engine S → OnionService → Option (List OnionService) → Call S (ServiceError S) (Unit {0})
  sent e service none = (e, err (send_error service))
  sent e service (some services) =
      if ltb (length services) channel_capacity
      then (record e { swarm = S.queue_service e.swarm service }, ok tt)
      else (e, stuck)

  abbrev pub noted :
      Engine S → S.State × (S.BootstrapError ⊎ T.QueryId) → Call S (ServiceError S) (Unit {0})
  noted e (swarm, inl error) = (record e { swarm = swarm }, err (bootstrap_error error))
  noted e (swarm, inr query_id) =
      (record e { swarm = swarm; query_map = insert query_id e.peer_id e.query_map }, ok tt)

  abbrev pub bootstrapped : Engine S → Call S (ServiceError S) (Unit {0})
  bootstrapped e = if S.with_kademlia e.swarm then noted e (S.bootstrap e.swarm) else (e, ok tt)

  abbrev pub listened :
      Engine S × Outcome S.ListenError T.ListenerId → Call S (ServiceError S) T.ListenerId
  listened (e, o) = (e, map_err listen_error o)

  unfoldable pub create_transient_onion_service :
      ℕ → Multiaddr → Engine S → Call S (ServiceError S) Multiaddr
  unfolding get_tor_connection listen
  create_transient_onion_service virt_port listen_address e =
      on_ok (on_connection (authenticate X null) e) λ e1 _.
        on_ok (on_connection (Onion.create_transient_onion_service F X virt_port listen_address) e1)
          λ e2 service. on_ok (sent e2 service (S.waiting_services e2.swarm)) λ e3 _.
            on_ok (listened (listen S service.listen_address e3))
              λ e4 _. on_ok (bootstrapped e4) λ e5 _. (e5, ok service.address)
