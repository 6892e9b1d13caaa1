-- ===== src/Ui/Examples.antt =====
-- A swarm that meets gossipsub's documentation, with its topics as its state, and a world for the
-- examples: every peer id and every namespace parses, and no connection can be made.
use trithemius_p2p.Base.{
  zero, suc, ◌⊎◌, sym, ℕ, ◌≡◌, refl, ◌∙◌, ap, Text, text_eq, codes, Bool, true, not, none, some,
  is_some, List, [], ◌∷◌, inl, inr, eqb, arith,
}
use trithemius_p2p.Base.Decimal.{is_digit}
use trithemius_p2p.Base.Map.{Map, lookup, insert, erase, lookup-insert, lookup-erase}
use trithemius_p2p.NetworkAddr.Examples.{example_formats}
use trithemius_p2p.Control.Error.{ErrorTexts}
use trithemius_p2p.Control.Connection.{Environment}
use trithemius_p2p.Engine.Config.{kademlia}
use trithemius_p2p.Engine.Events.{PackageTypes, EngineEvent}
use trithemius_p2p.Engine.Run.{Swarm, Engine}
use mathlib.Core.Option.{some-injective}
use trithemius_p2p.Subscriptions.Queue.{list_queue}
use trithemius_p2p.Subscriptions.{Subscription, new_subscription}
use trithemius_p2p.TopicList.Membership.{IsDistinct}
use trithemius_p2p.View
use trithemius_p2p.Ui.{World, Ui}
use trithemius_p2p.Ui.InSync.{Gossipsub, InSync}

abbrev pub packages : PackageTypes
packages = record {
  PeerId = Text;
  TopicHash = Text;
  MessageId = ℕ;
  ConnectedPoint = ℕ;
  DialFault = ℕ;
  ConnectionError = ℕ;
  PendingConnectionError = ℕ;
  DialError = ℕ;
  ListenerId = ℕ;
  IoError = ℕ;
  SocksError = ℕ;
  PingEvent = ℕ;
  IdentifyInfo = ℕ;
  IdentifyFault = ℕ;
  DcutrUpgradeError = ℕ;
  InboundProbeEvent = ℕ;
  OutboundProbeEvent = ℕ;
  NatStatus = ℕ;
  InboundRequest = ℕ;
  QueryId = Text;
  QueryResult = ℕ;
  QueryStats = ℕ;
  Addresses = ℕ;
  Distance = ℕ;
  Registration = ℕ;
  Cookie = ℕ;
  Namespace = Text;
  ErrorCode = ℕ;
  RegisterError = ℕ;
}

abbrev pub Topics : Type 0
Topics = Map Text (Unit {0})

abbrev pub has_joined : Topics → Text → Bool
has_joined topics topic = is_some (lookup topic topics)

abbrev pub swarm : Swarm packages
swarm = record {
  State = Topics;
  PublishError = Text;
  SubscriptionError = Text;
  ListenError = Text;
  BootstrapError = Text;
  with_kademlia = λ s. true;
  with_rendezvous = λ s. true;
  addresses_of_peer = λ s peer. (s, []);
  get_closest_peers = λ s peer. (s, peer);
  add_external_address = λ s address. s;
  publish = λ s topic text. (s, inr 7);
  register = λ s namespace peer. s;
  discover = λ s namespace cookie limit peer. s;
  dial = λ s address. (s, inr tt);
  listen_on = λ s address. (s, inr 1);
  subscribe = λ s topic. (insert topic tt s, inr (not (has_joined s topic)));
  unsubscribe = λ s topic. (erase topic s, inr (has_joined s topic));
  waiting_services = λ s. some [];
  queue_service = λ s service. s;
  bootstrap = λ s. (s, inr (codes "b"));
  show_peer = λ peer. peer;
  show_publish_error = λ e. e;
}

pub inr-injective {ℓ κ} :
    {A : Type ℓ} {B : Type κ} {a b : B} → ◌≡◌ {A = A ⊎ B} (inr a) (inr b) → a ≡ b
inr-injective h = cc

abbrev pub gossipsub : Gossipsub swarm
gossipsub = record {
  joined = has_joined;
  subscribe_lem = λ s topic h.
      (sym (inr-injective h), λ t. ap is_some (lookup-insert t topic tt s) ∙ ground arith);
  subscribe_fails = λ s topic h. cc;
  unsubscribe_lem =
      λ s topic h. (sym (inr-injective h), λ t. ap is_some (lookup-erase t topic s) ∙ ground arith);
  unsubscribe_fails = λ s topic h. cc;
  publish_keeps = λ s topic text t. refl;
  add_external_address_keeps = λ s a t. refl;
  dial_keeps = λ s a t. refl;
  listen_on_keeps = λ s a t. refl;
  queue_service_keeps = λ s o t. refl;
  bootstrap_keeps = λ s t. refl;
  register_keeps = λ s n p t. refl;
  discover_keeps = λ s n c l p t. refl;
  get_closest_peers_keeps = λ s p t. refl;
  addresses_of_peer_keeps = λ s p t. refl;
}

abbrev texts : ErrorTexts ℕ ℕ
texts = record { show_io = λ e. []; show_socks = λ e. []; show_lines_codec = λ e. [] }

abbrev environment : Environment ℕ ℕ
environment = record { texts = texts; decimal_digit = is_digit; send_result = λ written text. none }

abbrev pub world : World swarm
world = record {
  formats = example_formats;
  environment = environment;
  connects = λ address. inl 0;
  peer_from_str = inr;
  namespace_new = inr;
  local_now = λ reading. reading;
  into_bytes = λ text. text;
  is_whitespace = λ c. eqb c b' ';
  show_addr_error = λ e. [];
  show_int_error = λ text. [];
  show_subscription_error = λ e. e;
  show_service_error = λ e. [];
}

abbrev pub engine : List (EngineEvent packages) → Topics → Engine swarm
engine events topics = record {
  swarm = topics;
  tor_connection = none;
  peer_id = codes "me";
  query_map = [];
  event_queue = events;
  discovery_types = kademlia ∷ [];
  nat_traversal_types = [];
  listen_address_map = [];
}

-- The interface with a tab for one topic and a line.
abbrev pub chatting : Text → Ui packages list_queue
chatting input = record {
  my_identity = codes "me";
  view = View.new list_queue;
  clock_reads = 0;
  subscriptions = (codes "chat", new_subscription list_queue (codes "chat")) ∷ [];
  subscription_list = record { list = codes "chat" ∷ []; current_index = some 0 };
  line = record { input = input; input_cursor = 0 };
  discovery_methods = [];
  nat_traversal_methods = [];
}

abbrev pub joined_chat : List (EngineEvent packages) → Engine swarm
joined_chat events = engine events ((codes "chat", tt) ∷ [])

pub chatting-InSync :
    (input : Text) (events : List (EngineEvent packages))
    → InSync swarm list_queue gossipsub (chatting input, joined_chat events)
unfolding lookup
chatting-InSync input events = record {
  entries = λ t. ground arith;
  own_topic = own;
  tabs_of = λ t. ground arith;
  tabs_IsDistinct = one_tab;
  tabs_IsValid = omega arith;
  line_IsValid = omega arith;
}
  where
    own :
        (t : Text) (s : Subscription list_queue)
        → lookup t ((codes "chat", new_subscription list_queue (codes "chat")) ∷ []) ≡ some s
        → s.topic ≡ t
    own t s h = elim (text_eq.dec t (codes "chat")) [
      | yes same ↦
          let k : some (new_subscription list_queue (codes "chat")) ≡ some s = ground arith in
          ap (λ r. r.topic) (sym (some-injective _ _ k)) ∙ sym same
      | no differ ↦ (let k : none ≡ some s = ground arith in cc)
    ]

    one_tab : IsDistinct (codes "chat" ∷ [])
    one_tab zero zero t h k = refl
    one_tab zero (suc j) t h k = cc
    one_tab (suc i) j t h k = cc
