-- ===== src/Ui/Keys.antt =====
-- `UI::handle_input_event` of src/bin/trithemius-term/ui.rs: what each key does. The events are
-- those of the package crossterm.
use trithemius_p2p.Base.{
  ℕ, ◌+◌, Text, codes, Bool, not, ◌&&◌, Option, none, some, List, [], ◌∷◌, Eq, text_eq, eqb,
  is_empty, if◌then◌else◌, strip_char,
}
use trithemius_p2p.Base.Map.{lookup, insert}
use trithemius_p2p.Subscriptions.Queue.{CircularQueue}
use trithemius_p2p.Subscriptions.{Subscription, ChatMessage, push_message}
use trithemius_p2p.TopicList
use trithemius_p2p.TopicList.{SubscriptionList}
use trithemius_p2p.InputLine.{
  InputLine, CursorMovement, input_write, input_remove, input_remove_previous, input_move_cursor,
  clear_input_to_cursor, reset_input,
}
use trithemius_p2p.InputLine
use trithemius_p2p.View
use trithemius_p2p.View.{ScrollMovement, messages_scroll}
use trithemius_p2p.Engine.Events.{PackageTypes}
use trithemius_p2p.Engine.Run.{Swarm, message, shutdown}
use trithemius_p2p.Ui.Actions.{◌>>=◌, ◌>>◌, pure, unwrap, panicked}
use trithemius_p2p.Ui.{World, Ui, on_ui, ui}
use trithemius_p2p.Ui.Commands.{Done, nothing_more, complain, handle_command}

pub data KeyCode : Type 0 where
  esc enter delete backspace left right home end up down page_up : KeyCode
  char : ℕ → KeyCode
  other : KeyCode

-- The bit of `CONTROL`, and whether any other bit is set.
pub record KeyModifiers : Type 0 where
  pub control : Bool
  pub others : Bool

pub data Event : Type 0 where
  mouse resize : Event
  key : KeyCode → KeyModifiers → Event

-- `modifiers == KeyModifiers::CONTROL`
abbrev pub is_control : KeyModifiers → Bool
is_control modifiers = modifiers.control && not modifiers.others

-- `split(p)`, as the first piece and the others.
abbrev pub split_on : (ℕ → Bool) → Text → Text × List Text
split_on p [] = ([], [])
split_on p (c ∷ s) =
    let (first, others) = split_on p s in if p c then ([], first ∷ others) else (c ∷ first, others)

abbrev pub non_empty : List Text → List Text
non_empty [] = []
non_empty (s ∷ ss) = let rest = non_empty ss in if is_empty s then rest else s ∷ rest

-- `split_whitespace`
unfoldable pub split_whitespace : (ℕ → Bool) → Text → List Text
split_whitespace is_whitespace s =
    let (first, others) = split_on is_whitespace s in non_empty (first ∷ others)

module _ {T : PackageTypes} (S : Swarm T) (Q : CircularQueue) (W : World S) ⦃peer_eq : Eq T.PeerId⦄
    ⦃query_eq : Eq T.QueryId⦄ where
  abbrev pub with_line : Option InputLine → Done S Q W
  with_line none = panicked
  with_line (some l) = nothing_more S Q W (on_ui S Q W λ u. record u { line = l })

  -- An edit of the input line, which may panic.
  abbrev pub edit_line : (InputLine → Option InputLine) → Done S Q W
  edit_line f = do u ← ui S Q W; with_line (f u.line)

  abbrev pub move_cursor : CursorMovement → Done S Q W
  move_cursor m =
      nothing_more S Q W (on_ui S Q W λ u. record u { line = input_move_cursor m u.line })

  abbrev pub with_moved : Option SubscriptionList → Done S Q W
  with_moved none = panicked
  with_moved (some tabs) =
      nothing_more S Q W (on_ui S Q W λ u. record u { subscription_list = tabs })

  abbrev pub move_tab : (SubscriptionList → Option SubscriptionList) → Done S Q W
  move_tab f = do u ← ui S Q W; with_moved (f u.subscription_list)

  abbrev pub scroll : ScrollMovement → Done S Q W
  scroll m = nothing_more S Q W (on_ui S Q W λ u. record u { view = messages_scroll Q m u.view })

  -- `ChatMessage::new(Some(self.my_identity), …)`
  abbrev pub my_message : Ui T Q → Text → Text → ChatMessage
  my_message u topic input = record {
    date = W.local_now u.clock_reads;
    topic = topic;
    user = some (S.show_peer u.my_identity);
    message = input;
  }

  -- The message goes into the queue of the topic that `get_mut` found.
  abbrev pub send_to : Text → Text → Option (Subscription Q) → Done S Q W
  send_to input topic (some subscription) = do
    on_ui S Q W λ u. record u {
      subscriptions =
          insert topic (push_message Q subscription (my_message u subscription.topic input))
            u.subscriptions;
      clock_reads = u.clock_reads + 1;
    }
    pure (some (message subscription.topic (W.into_bytes input)))
  send_to input topic none = complain S Q W (codes "Not currently subscribed to anything")

  abbrev pub send_current : Text → Option ℕ → Done S Q W
  send_current input (some _) = do
    u ← ui S Q W
    topic ← unwrap (TopicList.current u.subscription_list)
    send_to input topic (lookup topic u.subscriptions)
  send_current input none = complain S Q W (codes "Not currently subscribed to anything")

  unfoldable pub send_message : Text → Done S Q W
  send_message input = do u ← ui S Q W; send_current input u.subscription_list.current_index

  abbrev pub entered_line : Text → Option Text → Done S Q W
  entered_line input (some command) =
      handle_command S Q W (split_whitespace W.is_whitespace command)
  entered_line input none = send_message input

  abbrev pub entered : Option Text → Done S Q W
  entered (some input) = entered_line input (strip_char b'/' input)
  entered none = pure none

  unfoldable pub enter_key : Done S Q W
  enter_key = do
    u ← ui S Q W
    on_ui S Q W λ u. record u { line = (reset_input u.line).0 }
    entered (reset_input u.line).1

  unfoldable pub on_char : ℕ → KeyModifiers → Done S Q W
  on_char character modifiers =
      if eqb character b'c' && modifiers.control
      then pure (some shutdown)
      else if eqb character b'u' && modifiers.control
      then edit_line clear_input_to_cursor
      else edit_line (input_write character)

  unfoldable pub handle_key : KeyCode → KeyModifiers → Done S Q W
  handle_key esc modifiers = pure (some shutdown)
  handle_key (char character) modifiers = on_char character modifiers
  handle_key enter modifiers = enter_key
  handle_key delete modifiers = edit_line input_remove
  handle_key backspace modifiers = edit_line input_remove_previous
  handle_key left modifiers =
      if is_control modifiers then move_tab TopicList.prev else move_cursor InputLine.left
  handle_key right modifiers =
      if is_control modifiers then move_tab TopicList.next else move_cursor InputLine.right
  handle_key home modifiers = move_cursor InputLine.start
  handle_key end modifiers = move_cursor InputLine.end
  handle_key up modifiers = scroll View.up
  handle_key down modifiers = scroll View.down
  handle_key page_up modifiers = scroll View.start
  handle_key other modifiers = pure none

  unfoldable pub handle_input_event : Event → Done S Q W
  handle_input_event mouse = pure none
  handle_input_event resize = pure none
  handle_input_event (key code modifiers) = handle_key code modifiers
