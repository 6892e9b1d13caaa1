-- ===== src/Engine/Tests.antt =====
-- Examples of the engine, with peers, queries and texts for the types of other packages.
use trithemius_p2p.Base.{
  sym, ◌↔◌, ℕ, ◌≡◌, refl, Text, codes, text_eq, true, false, none, some, List, [], ◌∷◌, ◌++◌, ok,
  on_ok, inr, inl, arith,
}
use trithemius_p2p.Base.Map.{insert, erase}
use trithemius_p2p.Base.Decimal.{is_digit}
use trithemius_p2p.NetworkAddr.Examples.{example_formats}
use trithemius_p2p.Control.Error.{ErrorTexts}
use trithemius_p2p.Control.Reader.{line}
use trithemius_p2p.Control.Connection.{Environment}
use trithemius_p2p.Control.Framing.{HasAscii, reply_line, mid_lines}
use trithemius_p2p.Engine.Ops.{Connects, create_transient_onion_service}
use mathlib.Core.Option.{some-injective}
use trithemius_p2p.Engine.Conversions.{BehaviourEvent, gossipsub, gossip_message, from_behaviour}
use trithemius_p2p.Engine.Conversions.Laws.{
  origin, Decodes, origin-from_behaviour, from_behaviour_panics,
}
use trithemius_p2p.Engine.Service.{first_service, add_onion_line}
use trithemius_p2p.Util.{Multiaddr, ip4, tcp, onion3, nil, cons, push}
use trithemius_p2p.Transports.Tor.{multiaddr_eq}
use trithemius_p2p.Engine.Config.{
  kademlia, rendezvous, circuit_relay, dcutr, Cli, Defaults, from_cli, discovery_types,
  nat_traversal_types,
}
use trithemius_p2p.Engine.Events.{
  PackageTypes, EngineEvent, shutdown, peer_addresses, kad_outbound_query_completed,
}
use trithemius_p2p.Engine.Run.{
  Swarm, Engine, Handler, message, find_peer, initiating, drain, on_swarm_event, turn, input,
  goes_on,
}
use trithemius_p2p.Engine.Namespace.{Parsers}
use trithemius_p2p.Engine.Options.{discovery_eq, nat_traversal_eq, from_cli-types}
use trithemius_p2p.Engine.Queue.{IsObserver, drain_all, find_peer_lem, publish_fails}

abbrev defaults : Defaults
defaults = record {
  Gossipsub = ℕ;
  Autonat = ℕ;
  Kademlia = ℕ;
  Mdns = ℕ;
  gossipsub_default = 1;
  autonat_default = 2;
  kademlia_default = 3;
  mdns_default = 4;
}

abbrev options : Cli
options = record {
  discovery = some (rendezvous ∷ kademlia ∷ rendezvous ∷ []);
  nat_traversal = some (circuit_relay ∷ dcutr ∷ []);
  rendezvous_server = true;
  use_tor = false;
  tor_proxy_address = none;
  tor_control_address = none;
}

from_cli-types_example :
    (discovery_types defaults (from_cli defaults options) ≡ kademlia ∷ rendezvous ∷ [])
    × (nat_traversal_types defaults (from_cli defaults options) ≡ dcutr ∷ [])
unfolding discovery_eq nat_traversal_eq
from_cli-types_example = from_cli-types defaults options

abbrev packages : PackageTypes
packages = record {
  PeerId = Text;
  TopicHash = ℕ;
  MessageId = ℕ;
  ConnectedPoint = ℕ;
  DialFault = ℕ;
  ConnectionError = ℕ;
  PendingConnectionError = ℕ;
  DialError = ℕ;
  ListenerId = ℕ;
  IoError = ℕ;
  SocksError = ℕ;
  PingEvent = ℕ;
  IdentifyInfo = ℕ;
  IdentifyFault = ℕ;
  DcutrUpgradeError = ℕ;
  InboundProbeEvent = ℕ;
  OutboundProbeEvent = ℕ;
  NatStatus = ℕ;
  InboundRequest = ℕ;
  QueryId = Text;
  QueryResult = ℕ;
  QueryStats = ℕ;
  Addresses = ℕ;
  Distance = ℕ;
  Registration = ℕ;
  Cookie = ℕ;
  Namespace = Text;
  ErrorCode = ℕ;
  RegisterError = ℕ;
}

abbrev home : Multiaddr
home = cons (ip4 1) (cons (tcp 80) nil)

-- A swarm that counts its queries and can publish nothing; its transport takes every service at
-- once.
abbrev swarm : Swarm packages
swarm = record {
  State = Text;
  PublishError = Text;
  SubscriptionError = Text;
  ListenError = Text;
  BootstrapError = Text;
  with_kademlia = λ s. true;
  with_rendezvous = λ s. false;
  addresses_of_peer = λ s peer. (s, home ∷ []);
  get_closest_peers = λ s peer. (b'q' ∷ s, b'q' ∷ s);
  add_external_address = λ s address. s;
  publish = λ s topic text. (s, inl (codes "no peers"));
  register = λ s namespace peer. s;
  discover = λ s namespace cookie limit peer. s;
  dial = λ s address. (s, inr tt);
  listen_on = λ s address. (s, inr 1);
  subscribe = λ s topic. (s, inr true);
  unsubscribe = λ s topic. (s, inr true);
  waiting_services = λ s. some [];
  queue_service = λ s service. s;
  bootstrap = λ s. (s, inr (codes "b"));
  show_peer = λ peer. peer;
  show_publish_error = λ e. e;
}

abbrev engine : List (EngineEvent packages) → Engine swarm
engine events = record {
  swarm = [];
  tor_connection = none;
  peer_id = codes "me";
  query_map = [];
  event_queue = events;
  discovery_types = kademlia ∷ [];
  nat_traversal_types = [];
  listen_address_map = [];
}

-- A handler that keeps what it is told, the last first.
pub data Told : Type 0 where
  told_event : EngineEvent packages → Told
  told_error : Text → Told

abbrev handler : Handler swarm Text ℕ
handler = record {
  State = List Told;
  handle_input = λ he item. (he, ok (some (message (codes "chat") item)));
  handle_event = λ he event. ((told_event event ∷ he.0, he.1), ok none);
  handle_error = λ h text. told_error text ∷ h;
  update = λ h. (h, ok tt);
}

abbrev observes : IsObserver handler
observes = record { see = λ h event. told_event event ∷ h; handle_event_see = λ h e event. refl }

drain_all_example :
    drain swarm handler 3 ([], engine (shutdown ∷ initiating swarm (codes "p") ∷ []))
    ≡ ((told_event (initiating swarm (codes "p")) ∷ told_event shutdown ∷ [], engine []), ok true)
drain_all_example =
    drain_all swarm handler observes 3 [] (engine (shutdown ∷ initiating swarm (codes "p") ∷ []))
      (omega arith)

find_peer_lem_example :
    on_ok
      (drain swarm handler 2 ([], find_peer swarm (codes "p") (engine [])))
      (λ he _. on_swarm_event swarm handler he (kad_outbound_query_completed (codes "q") 1 2))
    ≡ (
      (
        told_event (kad_outbound_query_completed (codes "q") 1 2)
            ∷ told_event (peer_addresses (codes "p") (home ∷ []))
            ∷ told_event (initiating swarm (codes "p"))
            ∷ [],
        record (engine []) {
          swarm = codes "q";
          query_map = erase (codes "q") (insert (codes "q") (codes "p") []);
        },
      ),
      ok tt,
    )
find_peer_lem_example =
    find_peer_lem swarm handler observes (codes "p") 1 2 [] (engine []) refl refl

abbrev parsers : Parsers
parsers = record {
  Namespace = Text;
  PeerId = Text;
  ParseError = Text;
  namespace_new = some;
  peer_from_str = inr;
  show_parse_error = λ e. e;
}

publish_fails_example :
    turn swarm handler 2 (input (codes "hello")) ([], engine (shutdown ∷ [])) ≡ (
      (
        told_event shutdown ∷ told_error (codes "Error publishing message: no peers") ∷ [],
        engine [],
      ),
      ok goes_on,
    )
publish_fails_example =
    publish_fails swarm handler observes 2 (codes "hello") (codes "chat") (codes "hello") []
      (engine (shutdown ∷ [])) refl refl refl (omega arith)

abbrev texts : ErrorTexts ℕ ℕ
texts = record { show_io = λ e. []; show_socks = λ e. []; show_lines_codec = λ e. [] }

abbrev environment : Environment ℕ ℕ
environment = record { texts = texts; decimal_digit = is_digit; send_result = λ written text. none }

digits : HasAscii is_digit
digits = record { two = refl; five = refl; zero_digit = refl }

-- 35 bytes 0, and their text.
abbrev zeros : Text
zeros =
    0 ∷ 0 ∷ 0 ∷ 0 ∷ 0 ∷ 0 ∷ 0 ∷ 0 ∷ 0 ∷ 0 ∷ 0 ∷ 0 ∷ 0 ∷ 0 ∷ 0 ∷ 0 ∷ 0 ∷ 0 ∷ 0 ∷ 0 ∷ 0 ∷ 0 ∷ 0 ∷ 0
    ∷ 0 ∷ 0 ∷ 0 ∷ 0 ∷ 0 ∷ 0 ∷ 0 ∷ 0 ∷ 0 ∷ 0 ∷ 0 ∷ []

abbrev service_id : Text
service_id = codes "bbbbbbbbbbbbbbbbbbbbbbbbbbbbbbbbbbb"

abbrev controller : Connects packages
controller address = inr (
    line (reply_line b' ' (codes "OK"))
    ∷ (mid_lines texts is_digit digits ((codes "ServiceID" ++ b'=' ∷ service_id) ∷ [])
        ++ line (reply_line b' ' (codes "OK")) ∷ []))

first_service_example :
    create_transient_onion_service swarm example_formats environment controller 80
      (push (push nil (ip4 1)) (tcp 7000))
      (engine [])
    ≡ (
      record (engine []) {
        tor_connection = some (record {
          reader = [];
          written =
              codes "AUTHENTICATE"
              ∷ add_onion_line swarm example_formats environment controller 80 1 7000
              ∷ [];
        });
        query_map = insert (codes "b") (codes "me") [];
      },
      ok (push nil (onion3 (record { hash = zeros; port = 80 }))),
    )
first_service_example =
    first_service swarm example_formats environment controller digits 80 1 7000 (codes "OK")
      (codes "ServiceID") service_id zeros (codes "OK") [] [] (engine []) (λ written text. refl)
      refl refl refl refl refl refl tt refl refl refl refl refl refl refl

abbrev greeting : BehaviourEvent packages
greeting = gossipsub (
    gossip_message (codes "relay") 7 (record {
      source = some (codes "you");
      bytes = codes "hello";
      sequence_number = some 1;
      topic = 3;
    }))

origin-from_behaviour_example :
    (e : EngineEvent packages) × (from_behaviour some greeting ≡ some e)
    × (origin (λ text. text) e ≡ some greeting)
origin-from_behaviour_example =
    origin-from_behaviour some (λ text. text) (λ bytes text h. sym (some-injective _ _ h)) greeting
      λ h. cc

from_behaviour_panics_example :
    (from_behaviour (λ bytes. none) greeting ≡ none) ↔ ¬ Decodes (λ bytes. none) greeting
from_behaviour_panics_example = from_behaviour_panics (λ bytes. none) greeting
