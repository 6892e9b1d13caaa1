-- ===== src/InputLine.antt =====
-- The input line of `UI` in src/bin/trithemius-term/ui.rs: the characters, and the cursor as an
-- index into them. `none` is a panic of `Vec::insert`, `Vec::remove` or `Vec::drain`.
pub mod Zipper
mod Tests
use trithemius_p2p.Base.{
  ℕ, suc, ◌-◌, ◌+◌, Text, Option, none, some, List, [], ◌∷◌, ◌++◌, length, take, drop, is_empty,
  ltb, leb, if◌then◌else◌,
}

pub record InputLine : Type 0 where
  pub input : Text
  pub input_cursor : ℕ

pub data CursorMovement : Type 0 where
  left right start end : CursorMovement

abbrev pub vec_insert : Text → ℕ → ℕ → Option Text
vec_insert xs i c = if leb i (length xs) then some (take i xs ++ c ∷ drop i xs) else none

abbrev pub vec_remove : Text → ℕ → Option Text
vec_remove xs i = if ltb i (length xs) then some (take i xs ++ drop (suc i) xs) else none

-- `drain(..i)`
abbrev pub vec_drain_to : Text → ℕ → Option Text
vec_drain_to xs i = if leb i (length xs) then some (drop i xs) else none

abbrev pub line_at : ℕ → Option Text → Option InputLine
line_at cursor none = none
line_at cursor (some input) = some (record { input = input; input_cursor = cursor })

unfoldable pub input_write : ℕ → InputLine → Option InputLine
input_write character l = line_at (l.input_cursor + 1) (vec_insert l.input l.input_cursor character)

unfoldable pub input_remove : InputLine → Option InputLine
input_remove l =
    if ltb l.input_cursor (length l.input)
    then line_at l.input_cursor (vec_remove l.input l.input_cursor)
    else some l

unfoldable pub input_remove_previous : InputLine → Option InputLine
input_remove_previous l =
    if ltb 0 l.input_cursor
    then line_at (l.input_cursor - 1) (vec_remove l.input (l.input_cursor - 1))
    else some l

unfoldable pub input_move_cursor : CursorMovement → InputLine → InputLine
input_move_cursor left l =
    if ltb 0 l.input_cursor then record l { input_cursor = l.input_cursor - 1 } else l
input_move_cursor right l =
    if ltb l.input_cursor (length l.input)
    then record l { input_cursor = l.input_cursor + 1 }
    else l
input_move_cursor start l = record l { input_cursor = 0 }
input_move_cursor end l = record l { input_cursor = length l.input }

unfoldable pub clear_input_to_cursor : InputLine → Option InputLine
clear_input_to_cursor l =
    if is_empty l.input then some l else line_at 0 (vec_drain_to l.input l.input_cursor)

-- The new line, and the text that was entered.
unfoldable pub reset_input : InputLine → InputLine × Option Text
reset_input l =
    if is_empty l.input then (l, none) else (record { input = []; input_cursor = 0 }, some l.input)

-- The edits that keys make.
pub data Edit : Type 0 where
  write : ℕ → Edit
  remove remove_previous clear_to_cursor reset : Edit
  move : CursorMovement → Edit

unfoldable pub edit : Edit → InputLine → Option InputLine
unfolding input_write input_remove input_remove_previous input_move_cursor clear_input_to_cursor
    reset_input
edit (write c) l = input_write c l
edit remove l = input_remove l
edit remove_previous l = input_remove_previous l
edit clear_to_cursor l = clear_input_to_cursor l
edit reset l = some (reset_input l).0
edit (move m) l = some (input_move_cursor m l)
