-- ===== src/View.antt =====
-- The parts of `UI` in src/bin/trithemius-term/ui.rs that are neither tabs nor input: the scrolling,
-- the addresses that are being connected to, the numbers of users, and the log. Peers are of
-- another package, with an equality; the clock's reading is an argument.
pub mod Users
mod Tests
use trithemius_p2p.Base.{
  ℕ, ◌+◌, ◌-◌, Text, codes, Bool, Option, none, some, List, [], ◌∷◌, ◌++◌, Eq, ◌==◌, contains,
  position, ltb, if◌then◌else◌,
}
use trithemius_p2p.Base.Map.{Map, lookup, insert}
use trithemius_p2p.Util.{Multiaddr}
use trithemius_p2p.Subscriptions.Queue.{CircularQueue}
use trithemius_p2p.TopicList.{swap_remove}
use trithemius_p2p.Transports.Tor.{multiaddr_eq}

pub data Level : Type 0 where
  info warning error : Level

pub record LogMessage : Type 0 where
  pub date : ℕ
  pub level : Level
  pub message : Text

pub data ScrollMovement : Type 0 where
  up down start : ScrollMovement

pub record View (Q : CircularQueue) (PeerId : Type 0) : Type 0 where
  pub log_messages : Q.Queue LogMessage
  pub connect_list : List Multiaddr
  pub scroll_messages_view : ℕ
  pub user_ids : Map PeerId ℕ
  pub last_user_id : ℕ

-- The list without the entry that was found.
abbrev pub without : List Multiaddr → Option ℕ → List Multiaddr
without list (some index) = swap_remove list index
without list none = list

module _ (Q : CircularQueue) {PeerId : Type 0} ⦃peer_eq : Eq PeerId⦄ where
  -- The fields of `UI::new`.
  abbrev pub new : View Q PeerId
  new = record {
    log_messages = Q.with_capacity 200;
    connect_list = [];
    scroll_messages_view = 0;
    user_ids = [];
    last_user_id = 0;
  }

  unfoldable pub messages_scroll : ScrollMovement → View Q PeerId → View Q PeerId
  messages_scroll up v =
      if ltb 0 v.scroll_messages_view
      then record v { scroll_messages_view = v.scroll_messages_view - 1 }
      else v
  messages_scroll down v = record v { scroll_messages_view = v.scroll_messages_view + 1 }
  messages_scroll start v = record v { scroll_messages_view = v.scroll_messages_view + 0 }

  unfoldable pub connecting_to : Multiaddr → View Q PeerId → Bool
  connecting_to address v = contains v.connect_list address

  unfoldable pub disconnected_from : Multiaddr → View Q PeerId → View Q PeerId
  disconnected_from address v = record v {
    connect_list = without v.connect_list (position (λ a. a == address) v.connect_list);
  }

  unfoldable pub new_user : PeerId → View Q PeerId → View Q PeerId
  new_user peer_id v = record v {
    user_ids = insert peer_id v.last_user_id v.user_ids;
    last_user_id = v.last_user_id + 1;
  }

  unfoldable pub get_user_id : Option PeerId → View Q PeerId → Option ℕ
  get_user_id (some peer_id) v = lookup peer_id v.user_ids
  get_user_id none v = none

  abbrev pub log_message : ℕ → Level → Text → View Q PeerId → View Q PeerId
  log_message now level message v = record v {
    log_messages = Q.push v.log_messages (record { date = now; level = level; message = message });
  }

  unfoldable pub log_error : ℕ → Text → View Q PeerId → View Q PeerId
  log_error now message v = log_message now error (codes "ERROR: " ++ message) v

  unfoldable pub log_warning : ℕ → Text → View Q PeerId → View Q PeerId
  log_warning now message v = log_message now warning (codes "WARNING: " ++ message) v

  unfoldable pub log_info : ℕ → Text → View Q PeerId → View Q PeerId
  log_info now message v = log_message now info (codes "INFO: " ++ message) v
