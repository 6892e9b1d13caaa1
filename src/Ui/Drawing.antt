-- ===== src/Ui/Drawing.antt =====
-- `UI::draw` and what it draws (src/bin/trithemius-term/ui.rs): the widgets with their text, their
-- scrolling and their place, in the order in which they are rendered. The layout and the rendering
-- are of the package tui, the widths of characters of `unicode-width`. Alignments, wrapping and the
-- backgrounds, which never change, are left out.
pub mod Panels
pub mod Succeeds
mod Tests
use trithemius_p2p.Base.{
  ℕ, ◌+◌, ◌-◌, ◌%◌, Text, text_eq, codes, Option, none, some, List, [], ◌∷◌, ◌++◌, map, drop,
  length, get_elem?, ltb, ◌==◌, if◌then◌else◌,
}
use trithemius_p2p.Base.Map.{Map, lookup}
use trithemius_p2p.Subscriptions.Queue.{CircularQueue}
use trithemius_p2p.Subscriptions.{Subscription, ChatMessage}
use trithemius_p2p.TopicList.{current}
use trithemius_p2p.InputLine.{InputLine}
use trithemius_p2p.View.{Level, info, warning, error, LogMessage}
use trithemius_p2p.Wrap.{split_each, ui_input_cursor}
use trithemius_p2p.Engine.Events.{PackageTypes}
use trithemius_p2p.Engine.Run.{Swarm}
use trithemius_p2p.Ui.{Ui}

infixl 5 ◌>>=◌
abbrev pub ◌>>=◌ {ℓ κ} : {A : Type ℓ} {B : Type κ} → Option A → (A → Option B) → Option B
none >>= next = none
some value >>= next = next value

pub record Rect : Type 0 where
  pub x : ℕ
  pub y : ℕ
  pub width : ℕ
  pub height : ℕ

-- `Constraint::Length`, `Percentage` and `Min`.
pub data Constraint : Type 0 where
  rows percentage at_least : ℕ → Constraint

pub data Color : Type 0 where
  blue yellow cyan magenta green dark_gray white gray red : Color
  rgb : ℕ → ℕ → ℕ → Color

-- A text, with a colour of its own if it is styled.
pub record Span : Type 0 where
  pub content : Text
  pub color : Option Color

pub data Widget : Type 0 where
  -- its title, its lines, how far it is scrolled, and its place
  paragraph : Option Text → List (List Span) → ℕ → Rect → Widget
  -- the titles, the one that is selected, and the place
  tabs : List Text → ℕ → Rect → Widget
  cursor : ℕ → ℕ → Widget

-- What other packages compute: the layout of a vertical split, the text of a time of day, and the
-- width of a character.
pub record Display : Type 0 where
  pub split : List Constraint → Rect → List Rect
  pub time_text : ℕ → Text
  pub char_width : ℕ → ℕ

-- `none` is a panic.
abbrev pub Drawn : Type 0
Drawn = Option (List Widget)

abbrev pub chat_layout : List Constraint
chat_layout = rows 1 ∷ percentage 20 ∷ rows 3 ∷ at_least 1 ∷ rows 1 ∷ rows 1 ∷ []

abbrev pub no_chat_layout : List Constraint
no_chat_layout = rows 1 ∷ at_least 1 ∷ rows 1 ∷ rows 1 ∷ []

abbrev pub raw : Text → Span
raw text = record { content = text; color = none }

abbrev pub styled : Text → Color → Span
styled text color = record { content = text; color = some color }

abbrev pub message_colors : List Color
message_colors = blue ∷ yellow ∷ cyan ∷ magenta ∷ []

abbrev pub level_color : Level → Color
level_color info = gray
level_color warning = rgb 255 127 0
level_color error = red

-- The last seven characters of a user's name; base 58 is ASCII. A shorter name is a panic.
unfoldable pub short_username : Text → Option Text
short_username name = if ltb (length name) 7 then none else some (drop (length name - 7) name)

-- `message_colors[id % message_colors.len()]`, or the colour of the program's own user.
abbrev pub user_color : Option ℕ → Option Color
user_color (some id) = elim (get_elem? message_colors (id % length message_colors)) [
  | some color ↦ some color
  | none ↦ none
]
user_color none = some green

abbrev pub long_username : Option Text → Text
long_username (some name) = name
long_username none = codes "<unknown>"

-- `u16 + u16`, checked.
abbrev pub add_u16 : ℕ → ℕ → Option ℕ
add_u16 a b = if ltb (a + b) 65536 then some (a + b) else none

module _ (D : Display) where
  abbrev pub log_line : LogMessage → List Span
  log_line message =
      styled (D.time_text message.date) dark_gray
      ∷ styled message.message (level_color message.level)
      ∷ []

  unfoldable pub draw_input_panel : InputLine → Rect → Drawn
  draw_input_panel line chunk = if ltb chunk.width 2 then none else (do
    input ← split_each D.char_width line.input (chunk.width - 2)
    input_cursor ← ui_input_cursor D.char_width line (chunk.width - 2)
    x ← add_u16 chunk.x input_cursor.0
    y ← add_u16 chunk.y input_cursor.1
    some (paragraph none (map (λ row. raw row ∷ []) input) 0 chunk ∷ cursor x y ∷ []))

  abbrev pub draw_status_bar : Rect → Widget
  draw_status_bar chunk = paragraph none ((raw (codes "Input") ∷ []) ∷ []) 0 chunk

module _ {T : PackageTypes} (S : Swarm T) (Q : CircularQueue) (D : Display) where
  -- The number of the user whose peer id, in base 58, is the message's: `get_user_id`, for messages
  -- that keep the text of the id.
  abbrev pub number_of : Text → Map T.PeerId ℕ → Option ℕ
  number_of name [] = none
  number_of name ((peer, id) ∷ users) =
      if S.show_peer peer == name then some id else number_of name users

  abbrev pub user_number : Option Text → Map T.PeerId ℕ → Option ℕ
  user_number (some name) users = number_of name users
  user_number none users = none

  unfoldable pub chat_line : Map T.PeerId ℕ → ChatMessage → Option (List Span)
  chat_line users message = do
    color ← user_color (user_number message.user users)
    name ← short_username (long_username message.user)
    some (
        styled (D.time_text message.date) dark_gray
        ∷ styled name color
        ∷ styled (codes ": ") color
        ∷ raw message.message
        ∷ [])

  unfoldable pub chat_lines : Map T.PeerId ℕ → List ChatMessage → Option (List (List Span))
  chat_lines users [] = some []
  chat_lines users (message ∷ messages) = do
    line ← chat_line users message
    lines ← chat_lines users messages
    some (line ∷ lines)

  -- The scrolling is cast to `u16`.
  unfoldable pub draw_chat_panel : Text → Ui T Q → Rect → Drawn
  draw_chat_panel topic u chunk = do
    subscription ← lookup topic u.subscriptions
    lines ← chat_lines u.view.user_ids (Q.asc_iter subscription.messages)
    some
        (paragraph (some subscription.topic) lines (u.view.scroll_messages_view % 65536) chunk ∷ [])

  unfoldable pub draw_chat_tabs : Ui T Q → Rect → Drawn
  draw_chat_tabs u chunk = do
    index ← u.subscription_list.current_index
    some (tabs u.subscription_list.list index chunk ∷ [])

  abbrev pub draw_system_messages_panel : Ui T Q → Rect → Widget
  draw_system_messages_panel u chunk =
      paragraph (some (codes "System Messages")) (map (log_line D) (Q.asc_iter u.view.log_messages))
        (u.view.scroll_messages_view % 65536) chunk

  -- `name_and_version` is what the build puts in for the crate's name and version.
  abbrev pub draw_title_bar : Text → Ui T Q → Rect → Widget
  draw_title_bar name_and_version u chunk =
      let text =
        name_and_version
        ++ (codes "  |  Discovery methods: "
            ++ (u.discovery_methods
                ++ (codes "  |  Nat traversal methods: " ++ u.nat_traversal_methods))) in
      paragraph none ((raw text ∷ []) ∷ []) 0 chunk

  -- With a tab selected. An index beyond the chunks is a panic.
  unfoldable pub draw_chat : Text → Text → Ui T Q → List Rect → Drawn
  draw_chat name_and_version topic u (c0 ∷ c1 ∷ c2 ∷ c3 ∷ c4 ∷ c5 ∷ more) = do
    chats ← draw_chat_tabs u c2
    chat ← draw_chat_panel topic u c3
    input ← draw_input_panel D u.line c5
    some (
        draw_title_bar name_and_version u c0
        ∷ draw_system_messages_panel u c1
        ∷ (chats ++ (chat ++ (draw_status_bar D c4 ∷ input))))
  draw_chat name_and_version topic u chunks = none

  unfoldable pub draw_no_chat : Text → Ui T Q → List Rect → Drawn
  draw_no_chat name_and_version u (c0 ∷ c1 ∷ c2 ∷ c3 ∷ more) = do
    input ← draw_input_panel D u.line c3
    some (
        draw_title_bar name_and_version u c0
        ∷ draw_system_messages_panel u c1
        ∷ draw_status_bar D c2
        ∷ input)
  draw_no_chat name_and_version u chunks = none

  abbrev pub draw_with : Option Text → Text → Ui T Q → Rect → Drawn
  draw_with (some topic) name_and_version u chunk =
      draw_chat name_and_version topic u (D.split chat_layout chunk)
  draw_with none name_and_version u chunk =
      draw_no_chat name_and_version u (D.split no_chat_layout chunk)

  unfoldable pub draw : Text → Ui T Q → Rect → Drawn
  draw name_and_version u chunk = draw_with (current u.subscription_list) name_and_version u chunk
