-- ===== src/Wrap.antt =====
-- `split_each` and `UI::ui_input_cursor` of src/bin/trithemius-term/ui.rs: the input text cut into
-- rows of the panel, and the place of the cursor. The widths of characters come from the package
-- `unicode-width`: `char_width c` is `c.width().unwrap_or(0)`, `text_width` that of a text.
pub mod Rows
pub mod Cursor
mod Tests
use trithemius_p2p.Base.{
  ℕ, ◌-◌, ◌+◌, ◌%◌, Text, Bool, Option, none, some, true, false, List, [], ◌∷◌, ◌++◌, take,
  is_empty, ltb, eqb, not, ◌&&◌, ◌||◌, if◌then◌else◌,
}
use trithemius_p2p.InputLine.{InputLine}

-- `position.0 -= width - (char_width - 1)`, each subtraction checked.
abbrev pub wrapped : ℕ → ℕ → ℕ → Option ℕ
wrapped width sum w =
    if ltb w 1
    then none
    else if ltb width (w - 1)
    then none
    else if ltb sum (width - (w - 1))
    then none
    else some (sum - (width - (w - 1)))

abbrev pub on_next_row : ℕ → Option ℕ → Option (ℕ × ℕ)
on_next_row y none = none
on_next_row y (some x) = some (x, y + 1)

-- The casts to `u16`.
abbrev pub as_u16 : Option (ℕ × ℕ) → Option (ℕ × ℕ)
as_u16 none = none
as_u16 (some (x, y)) = some (x % 65536, y % 65536)

module _ (char_width : ℕ → ℕ) where
  -- The test for a new row.
  abbrev pub is_full : ℕ → ℕ → ℕ → Bool
  is_full width index c = (not (eqb index 0) && eqb index width) || ltb width (index + char_width c)

  -- The loop over the characters, from the row so far and its width.
  unfoldable pub split_loop : ℕ → Text → Text → ℕ → List Text
  split_loop width [] row index = if is_empty row then [] else row ∷ []
  split_loop width (c ∷ cs) row index = elim (is_full width index c) [
    | true ↦ row ∷ split_loop width cs (c ∷ []) (char_width c)
    | false ↦ split_loop width cs (row ++ c ∷ []) (index + char_width c)
  ]

  -- `none` is the panic of the division by `width` for the capacity.
  unfoldable pub split_each : Text → ℕ → Option (List Text)
  unfolding split_loop
  split_each input width = if eqb width 0 then none else some (split_loop width input [] 0)

  -- One character of the prefix before the cursor.
  unfoldable pub cursor_step : ℕ → ℕ → ℕ → ℕ → Option (ℕ × ℕ)
  cursor_step width x y c =
      let sum = x + char_width c in
      if eqb sum width
      then some (0, y + 1)
      else if ltb width sum
      then on_next_row y (wrapped width sum (char_width c))
      else some (sum, y)

  unfoldable pub cursor_loop : ℕ → Text → ℕ → ℕ → Option (ℕ × ℕ)
  unfolding cursor_step
  cursor_loop width [] x y = some (x, y)
  cursor_loop width (c ∷ cs) x y = elim (cursor_step width x y c) [
    | none ↦ none
    | some (x', y') ↦ cursor_loop width cs x' y'
  ]

  unfoldable pub ui_input_cursor : InputLine → ℕ → Option (ℕ × ℕ)
  unfolding cursor_loop
  ui_input_cursor l width = as_u16 (cursor_loop width (take l.input_cursor l.input) 0 0)
