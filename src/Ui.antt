-- ===== src/Ui.antt =====
-- `UI` of src/bin/trithemius-term/ui.rs: its state, which its
-- methods change together with the engine. What
-- other packages parse and print is the parameter `W`, and the channel's texts are code points.
pub mod Actions
pub mod Topics
pub mod Network
pub mod Commands
pub mod Keys
pub mod InSync
pub mod Drawing
pub mod Examples
mod Tests
use trithemius_p2p.Base.{
  ℕ, ◌+◌, Text, codes, Bool, true, false, Option, none, some, List, [], ◌∷◌, ◌++◌, Eq, Outcome, ok,
  err, panic, map_err, ◌⊎◌, inl, inr, text_eq,
}
use trithemius_p2p.Base.Decimal.{parse_u16, show_ℕ}
use trithemius_p2p.Util.{Multiaddr}
use trithemius_p2p.NetworkAddr.Formats.{AddrError, AddrFormats}
use trithemius_p2p.NetworkAddr
use trithemius_p2p.Subscriptions.Queue.{CircularQueue}
use trithemius_p2p.Subscriptions.{
  SubscriptionError, no_such_topic, Subscription, Subscriptions, ChatMessage, add, remove,
}
use trithemius_p2p.TopicList
use trithemius_p2p.TopicList.{SubscriptionList}
use trithemius_p2p.InputLine.{InputLine}
use trithemius_p2p.View
use trithemius_p2p.View.{View}
use trithemius_p2p.Control.Connection.{Environment}
use trithemius_p2p.Engine.Events.{PackageTypes}
use trithemius_p2p.Engine.Run.{Swarm, Engine, EngineError, error}
use trithemius_p2p.Engine.Run
use trithemius_p2p.Engine.Ops.{ServiceError, Connects}
use trithemius_p2p.Engine.Ops
use Actions.{Action, ◌>>=◌, ◌>>◌, pure, raise, panicked, gets, modify, tried}

-- What the program takes from other packages and from the world. A peer id that does not parse
-- gives the error's text; the clock gives a time for each reading.
pub record World {T : PackageTypes} (S : Swarm T) : Type 0 where
  pub formats : AddrFormats
  pub environment : Environment T.IoError T.SocksError
  pub connects : Connects T
  pub peer_from_str : Text → Text ⊎ T.PeerId
  pub namespace_new : Text → Text ⊎ T.Namespace
  pub local_now : ℕ → ℕ
  pub is_whitespace : ℕ → Bool
  -- the bytes of a text in UTF-8
  pub into_bytes : Text → List ℕ
  pub show_addr_error : AddrError → Text
  -- of a text that is no number
  pub show_int_error : Text → Text
  pub show_subscription_error : S.SubscriptionError → Text
  pub show_service_error : ServiceError S → Text

-- The errors that the methods box.
pub data UiError {T : PackageTypes} (S : Swarm T) : Type 0 where
  addr_error : AddrError → UiError S
  listen_error : S.ListenError → UiError S
  dial_error : T.DialError → UiError S
  peer_error namespace_error : Text → UiError S
  engine_error : EngineError → UiError S
  input_error : T.IoError → UiError S

-- The fields of `UI`, less its constant colours; `clock_reads` counts the readings of the clock.
pub record Ui (T : PackageTypes) (Q : CircularQueue) : Type 0 where
  pub my_identity : T.PeerId
  pub view : View Q T.PeerId
  pub clock_reads : ℕ
  pub subscriptions : Subscriptions Q
  pub subscription_list : SubscriptionList
  pub line : InputLine
  pub discovery_methods : Text
  pub nat_traversal_methods : Text

-- `"Not subscribed to topic {}"`
abbrev pub show_no_topic : SubscriptionError → Text
show_no_topic (no_such_topic topic) = codes "Not subscribed to topic " ++ topic

module _ {T : PackageTypes} (S : Swarm T) (Q : CircularQueue) (W : World S) ⦃peer_eq : Eq T.PeerId⦄
    ⦃query_eq : Eq T.QueryId⦄ where
  abbrev pub State : Type 0
  State = Ui T Q × Engine S

  abbrev pub Act : Type 0 → Type 0
  Act A = Action State (UiError S) A

  abbrev pub on_ui : (Ui T Q → Ui T Q) → Act (Unit {0})
  on_ui f = modify λ (u, e). (f u, e)

  abbrev pub ui : Act (Ui T Q)
  ui = gets λ s. s.0

  abbrev pub on_engine : {E A : Type 0} → (Engine S → Engine S × Outcome E A) → Action State E A
  on_engine f (u, e) = let (e', o) = f e in ((u, e'), o)

  -- `?`, which boxes the error
  abbrev pub passing : {E A : Type 0} → (E → UiError S) → Action State E A → Act A
  passing box m s = let (s', o) = m s in (s', map_err box o)

  abbrev pub logging : (ℕ → View Q T.PeerId → View Q T.PeerId) → Ui T Q → Ui T Q
  logging entry u = record u {
    view = entry (W.local_now u.clock_reads) u.view;
    clock_reads = u.clock_reads + 1;
  }

  abbrev pub log_info : Text → Act (Unit {0})
  log_info text = on_ui (logging λ now. View.log_info Q now text)

  abbrev pub log_error : Text → Act (Unit {0})
  log_error text = on_ui (logging λ now. View.log_error Q now text)
