-- ===== src/Ui/InSync/Network.antt =====
-- What reaches the network apart from subscriptions leaves the topics alone.
use trithemius_p2p.Base.{
  ltb, length, stuck, ℕ, ◌≡◌, refl, ◌∙◌, Text, codes, Option, none, some, Eq, ◌⊎◌, inl, inr, List,
  Outcome, ok, err, panic, on_ok, map_err, arith, Bool-cases,
}
use trithemius_p2p.Util.{Multiaddr}
use trithemius_p2p.NetworkAddr.Formats.{AddrFormats}
use trithemius_p2p.Control.Service.{OnionService}
use trithemius_p2p.Control.Error.{TorError}
use trithemius_p2p.Control.Connection.{TorControlConnection, Environment, null, authenticate}
use trithemius_p2p.Control.Onion
use trithemius_p2p.Control.Reader.{Reader}
use trithemius_p2p.Engine.Events.{PackageTypes}
use trithemius_p2p.Engine.Run.{Swarm, Engine, EngineError, error}
use trithemius_p2p.Engine.Run
use trithemius_p2p.Engine.Ops.{
  channel_capacity, ServiceError, tor_error, listen_error, Connects, Call, on_swarm,
  keep_connection, known_connection, get_tor_connection, after_command, on_connection, sent, noted,
  bootstrapped, listened, create_transient_onion_service,
}
use trithemius_p2p.Engine.Ops
use trithemius_p2p.Ui.InSync.{Gossipsub}

-- The engine after a call has joined the topics that it had joined before.
pub record Quietly {T : PackageTypes} {S : Swarm T} (G : Gossipsub S) {E A : Type 0} (e : Engine S)
    (r : Engine S × Outcome E A) : Type 0 where
  pub same : (t : Text) → G.joined r.0.swarm t ≡ G.joined e.swarm t

module _ {T : PackageTypes} {S : Swarm T} (G : Gossipsub S) where
  unchanged : {E A : Type 0} (e : Engine S) (o : Outcome E A) → Quietly G e (e, o)
  unchanged e o = record { same = λ t. refl }

  on_ok-Quietly :
      {E A B : Type 0} {e : Engine S} {r : Engine S × Outcome E A}
      {k : Engine S → A → Engine S × Outcome E B}
      → Quietly G e r
      → ((e' : Engine S) (a : A) → Quietly G e' (k e' a))
      → Quietly G e (on_ok r k)
  on_ok-Quietly {r = (e', ok a)} h g = record { same = λ t. (g e' a).same t ∙ h.same t }
  on_ok-Quietly {r = (e', err x)} h g = record { same = h.same }
  on_ok-Quietly {r = (e', panic)} h g = record { same = h.same }
  on_ok-Quietly {r = (e', stuck)} h g = record { same = h.same }

  map_err-Quietly :
      {E F A : Type 0} {e : Engine S} {r : Engine S × Outcome E A} (box : E → F)
      → Quietly G e r
      → Quietly G e (r.0, map_err box r.1)
  map_err-Quietly box h = record { same = h.same }

  on_swarm-Quietly :
      {E A : Type 0} (e : Engine S) (r : S.State × (E ⊎ A))
      → ((t : Text) → G.joined r.0 t ≡ G.joined e.swarm t)
      → Quietly G e (on_swarm S e r)
  on_swarm-Quietly e (swarm, r) h = record { same = h }

  pub listen-Quietly : (a : Multiaddr) (e : Engine S) → Quietly G e (Ops.listen S a e)
  unfolding Ops.listen
  listen-Quietly a e = on_swarm-Quietly e (S.listen_on e.swarm a) (G.listen_on_keeps e.swarm a)

  pub dial-Quietly : (a : Multiaddr) (e : Engine S) → Quietly G e (Ops.dial S a e)
  unfolding Ops.dial
  dial-Quietly a e = on_swarm-Quietly e (S.dial e.swarm a) (G.dial_keeps e.swarm a)

  module _ ⦃query_eq : Eq T.QueryId⦄ where
    pub register-Quietly :
        (n : T.Namespace) (p : T.PeerId) (e : Engine S) → Quietly G e (Run.register S n p e)
    unfolding Run.register
    register-Quietly n p e = record { same = λ t. ground (arith, G.register_keeps e.swarm n p t) }

    pub discover-Quietly :
        (n : Option T.Namespace) (c : Option T.Cookie) (l : Option ℕ) (p : T.PeerId) (e : Engine S)
        → Quietly G e (Run.discover S n c l p e)
    unfolding Run.discover
    discover-Quietly n c l p e = record {
      same = λ t. ground (arith, G.discover_keeps e.swarm n c l p t);
    }

    pub find_peer-joined :
        (p : T.PeerId) (e : Engine S) (t : Text)
        → G.joined (Run.find_peer S p e).swarm t ≡ G.joined e.swarm t
    unfolding Run.find_peer
    find_peer-joined p e t =
        ground (arith, G.get_closest_peers_keeps e.swarm p t, G.addresses_of_peer_keeps e.swarm p t)

    module _ (F : AddrFormats) (X : Environment T.IoError T.SocksError)
        (connects : Connects T) where
      keep_connection-Quietly :
          (e : Engine S) (r : T.IoError ⊎ Reader T.IoError)
          → Quietly G e (keep_connection S F X connects e r)
      keep_connection-Quietly e (inl x) = unchanged e _
      keep_connection-Quietly e (inr reader) = record { same = λ t. refl }

      known_connection-Quietly :
          (e : Engine S) (c : Option (TorControlConnection T.IoError))
          → Quietly G e (known_connection S F X connects e c)
      known_connection-Quietly e (some c) = unchanged e _
      known_connection-Quietly e none =
          keep_connection-Quietly e (connects (codes "127.0.0.1:9051"))

      on_connection-Quietly :
          {A : Type 0}
          (command : TorControlConnection T.IoError
            → TorControlConnection T.IoError × Outcome (TorError T.IoError T.SocksError) A)
          (e : Engine S)
          → Quietly G e (on_connection S F X connects command e)
      unfolding get_tor_connection
      on_connection-Quietly command e =
          on_ok-Quietly (map_err-Quietly tor_error (known_connection-Quietly e e.tor_connection))
            λ e' c. record { same = λ t. refl }

      sent-Quietly :
          (e : Engine S) (service : OnionService) (services : Option (List OnionService))
          → Quietly G e (sent S F X connects e service services)
      sent-Quietly e service none = unchanged e _
      sent-Quietly e service (some services) =
          elim (Bool-cases (ltb (length services) channel_capacity)) [
            | inl room ↦ rw room (record { same = λ t. G.queue_service_keeps e.swarm service t })
            | inr full ↦ rw full (unchanged e _)
          ]

      noted-Quietly :
          (e : Engine S) (r : S.State × (S.BootstrapError ⊎ T.QueryId))
          → ((t : Text) → G.joined r.0 t ≡ G.joined e.swarm t)
          → Quietly G e (noted S F X connects e r)
      noted-Quietly e (swarm, inl x) h = record { same = h }
      noted-Quietly e (swarm, inr q) h = record { same = h }

      bootstrapped-Quietly : (e : Engine S) → Quietly G e (bootstrapped S F X connects e)
      bootstrapped-Quietly e = elim (Bool-cases (S.with_kademlia e.swarm)) [
        | inl on ↦ rw on (noted-Quietly e (S.bootstrap e.swarm) (G.bootstrap_keeps e.swarm))
        | inr off ↦ rw off (unchanged e _)
      ]

      -- The onion service joins and leaves no topic, however it ends.
      pub create-Quietly :
          (virt_port : ℕ) (a : Multiaddr) (e : Engine S)
          → Quietly G e (create_transient_onion_service S F X connects virt_port a e)
      unfolding create_transient_onion_service
      create-Quietly virt_port a e =
          on_ok-Quietly (on_connection-Quietly (authenticate X null) e) λ e1 _.
            on_ok-Quietly
              (on_connection-Quietly (Onion.create_transient_onion_service F X virt_port a) e1)
              λ e2 service.
                on_ok-Quietly (sent-Quietly e2 service (S.waiting_services e2.swarm)) λ e3 _.
                  on_ok-Quietly
                    (map_err-Quietly listen_error (listen-Quietly service.listen_address e3))
                    λ e4 _. on_ok-Quietly (bootstrapped-Quietly e4) λ e5 _. unchanged e5 _
