-- ===== src/Terminal.antt =====
-- `MyHandler` of src/bin/trithemius-term/main.rs: the handler that connects `UI` to the engine's
-- loop. What other packages print, and the renderer, are the parameter `P`.
pub mod Events
pub mod Handler
pub mod Startup
pub mod InSync
pub mod Program
pub mod Chat
pub mod Commands
pub mod Progress
mod Tests
use trithemius_p2p.Base.{
  ℕ, ◌+◌, Text, codes, Bool, Option, none, some, List, [], ◌∷◌, ◌++◌, Eq, Outcome, ok, err, panic,
  ◌⊎◌, inl, inr, map, join, is_empty, if◌then◌else◌, text_eq,
}
use trithemius_p2p.Base.Decimal.{show_ℕ}
use trithemius_p2p.Base.Map.{lookup, insert}
use trithemius_p2p.Util.{Multiaddr, nil}
use trithemius_p2p.Subscriptions.Queue.{CircularQueue}
use trithemius_p2p.Subscriptions.{Subscription, Subscriptions, ChatMessage, push_message}
use trithemius_p2p.TopicList.{has_topic}
use trithemius_p2p.View.{connecting_to, disconnected_from}
use trithemius_p2p.View
use trithemius_p2p.Transports.Tor.{multiaddr_eq}
use trithemius_p2p.Engine.Events.{PackageTypes, DiscoveredPeer, EngineEvent}
use trithemius_p2p.Engine.Run.{Swarm, Engine}
use trithemius_p2p.Ui.{World, UiError, input_error, Ui, State, logging}
use trithemius_p2p.Ui.Keys.{Event, handle_input_event}

-- `ConnectedPoint` of libp2p, as far as the program takes it apart.
pub data Point : Type 0 where
  dialer : (address : Multiaddr) → Point
  listener : (local_addr send_back_addr : Multiaddr) → Point

-- What the events carry as texts (`show_` is `Display`, `debug_` is `Debug`), and the screen.
pub record Packages {T : PackageTypes} (S : Swarm T) (Q : CircularQueue) : Type 1 where
  pub Renderer : Type 0
  pub render : Renderer → Ui T Q → Renderer × (T.IoError ⊎ Unit {0})
  pub point : T.ConnectedPoint → Point
  pub debug_point : T.ConnectedPoint → Text
  pub debug_cause : Option T.ConnectionError → Text
  pub debug_listener : T.ListenerId → Text
  pub show_topic : T.TopicHash → Text
  pub namespace_of : T.Registration → T.Namespace
  pub show_namespace : T.Namespace → Text
  pub debug_namespace : Option T.Namespace → Text
  pub debug_error_code : T.ErrorCode → Text
  pub show_register_error : T.RegisterError → Text
  pub debug_event : EngineEvent T → Text
