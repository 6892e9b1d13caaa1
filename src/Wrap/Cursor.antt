-- ===== src/Wrap/Cursor.antt =====
-- The cursor that `ui_input_cursor` computes stands where `split_each` leaves off.
use trithemius_p2p.Base.{
  ℕ, ◌+◌, ◌≤◌, ◌≡◌, refl, sym, ap, ◌∙◌, Text, some, true, false, List, [], ◌∷◌, ◌++◌, arith, All,
  Bool-cases, inl, inr, is_empty, eqb, if◌then◌else◌, take,
}
use trithemius_p2p.Wrap.{
  is_full, split_loop, split_each, cursor_step, cursor_loop, as_u16, ui_input_cursor,
}
use trithemius_p2p.InputLine.{InputLine}
use trithemius_p2p.Wrap.Rows.{row_width, row_width-append}

-- Where text goes on after `rows` full rows and a row of width `index`: at the start of the next
-- row, if this one is full.
abbrev pub place : ℕ → ℕ → ℕ → ℕ × ℕ
place width rows index = if eqb index width then (0, rows + 1) else (index, rows)

place_start : (width : ℕ) → 3 ≤ width → place width 0 0 ≡ (0, 0)
place_start width h = ground arith

module _ (char_width : ℕ → ℕ) where
  -- The end of the text in rows: the number of rows before the last, and the width of that.
  abbrev pub ends : List Text → ℕ → ℕ × ℕ
  ends [] rows = (rows, 0)
  ends (row ∷ []) rows = (rows, row_width char_width row)
  ends (row ∷ row' ∷ more) rows = ends (row' ∷ more) (rows + 1)

  -- One character moves the cursor as it moves the end of the rows.
  cursor_step-place :
      (width rows index c : ℕ)
      → 3 ≤ width
      → char_width c ≤ 2
      → index ≤ width
      → cursor_step char_width width (place width rows index).0 (place width rows index).1 c
        ≡ some (
            if is_full char_width width index c
            then place width (rows + 1) (char_width c)
            else place width rows (index + char_width c))
  unfolding cursor_step
  cursor_step-place width rows index c h w i = ground arith

  ends-cons :
      (row : Text) (rows : List Text) (n : ℕ)
      → is_empty rows ≡ false
      → ends (row ∷ rows) n ≡ ends rows (n + 1)
  ends-cons row [] n h = cc
  ends-cons row (row' ∷ rows) n h = refl

  split_loop-not_empty :
      (width : ℕ) (cs : Text) (row : Text) (index : ℕ)
      → is_empty row ≡ false
      → is_empty (split_loop char_width width cs row index) ≡ false
  unfolding split_loop
  split_loop-not_empty width [] row index h = rw h
  split_loop-not_empty width (c ∷ cs) row index h =
      elim (Bool-cases (is_full char_width width index c)) [
        | inl full ↦ rw (full, split_loop)
        | inr room ↦
            rw (room, split_loop)
              (split_loop-not_empty width cs (row ++ c ∷ []) (index + char_width c) (snoc row))
      ]
    where
      snoc : (r : Text) → is_empty (r ++ c ∷ []) ≡ false
      snoc [] = refl
      snoc (d ∷ r) = refl

  abbrev pub place_of : ℕ → ℕ × ℕ → ℕ × ℕ
  place_of width e = place width e.0 e.1

  split_loop_full :
      (width c : ℕ) (cs row : Text) (index : ℕ)
      → is_full char_width width index c ≡ true
      → split_loop char_width width (c ∷ cs) row index
        ≡ row ∷ split_loop char_width width cs (c ∷ []) (char_width c)
  unfolding split_loop
  split_loop_full width c cs row index full = rw (full, split_loop)

  split_loop_room :
      (width c : ℕ) (cs row : Text) (index : ℕ)
      → is_full char_width width index c ≡ false
      → split_loop char_width width (c ∷ cs) row index
        ≡ split_loop char_width width cs (row ++ c ∷ []) (index + char_width c)
  unfolding split_loop
  split_loop_room width c cs row index room = rw (room, split_loop)

  pub cursor_loop_step :
      (width c : ℕ) (cs : Text) (x y : ℕ) {x' y' : ℕ}
      → cursor_step char_width width x y c ≡ some (x', y')
      → cursor_loop char_width width (c ∷ cs) x y ≡ cursor_loop char_width width cs x' y'
  unfolding cursor_loop
  cursor_loop_step width c cs x y h = rw (h, cursor_loop)

  cursor_loop-place :
      (width : ℕ) (cs row : Text) (index n : ℕ)
      → 3 ≤ width
      → All (λ c. char_width c ≤ 2) cs
      → index ≡ row_width char_width row
      → index ≤ width
      → cursor_loop char_width width cs (place width n index).0 (place width n index).1
        ≡ some (place_of width (ends (split_loop char_width width cs row index) n))
  cursor_loop-place width [] [] index n h ws e i = unfold cursor_loop split_loop in rw e
  cursor_loop-place width [] (c ∷ row) index n h ws e i = unfold cursor_loop split_loop in rw e
  cursor_loop-place width (c ∷ cs) row index n h ws e i =
      elim (Bool-cases (is_full char_width width index c)) [
        | inl full ↦
            cursor_loop_step width c cs _ _ (cursor_step-place width n index c h ws.0 i ∙ rw full)
            ∙ cursor_loop-place width cs (c ∷ []) (char_width c) (n + 1) h ws.1 (omega arith)
                (omega arith)
            ∙ ap (λ e. some (place_of width e))
                (sym (
                  ap (λ rows. ends rows n) (split_loop_full width c cs row index full)
                  ∙ ends-cons row _ n (split_loop-not_empty width cs (c ∷ []) (char_width c) refl)))
        | inr room ↦
            cursor_loop_step width c cs _ _ (cursor_step-place width n index c h ws.0 i ∙ rw room)
            ∙ cursor_loop-place width cs (row ++ c ∷ []) (index + char_width c) n h ws.1
                (omega (arith, row_width-append char_width row (c ∷ []))) (ground arith)
            ∙ ap (λ rows. some (place_of width (ends rows n)))
                (sym (split_loop_room width c cs row index room))
      ]

  -- In a panel of three columns or more, where no character before the cursor is wider than two
  -- columns, the cursor is where the text before it ends when that text is cut into rows: behind
  -- the last row, or at the start of the next row if the last is full. Both coordinates are cast
  -- to `u16`.
  pub ui_input_cursor-split_each :
      (l : InputLine) (width : ℕ) {rows : List Text}
      → 3 ≤ width
      → All (λ c. char_width c ≤ 2) (take l.input_cursor l.input)
      → split_each char_width (take l.input_cursor l.input) width ≡ some rows
      → ui_input_cursor char_width l width ≡ as_u16 (some (place_of width (ends rows 0)))
  unfolding ui_input_cursor split_each
  ui_input_cursor-split_each l width {rows} h ws e =
      let q : split_loop char_width width (take l.input_cursor l.input) [] 0 ≡ rows =
        ground arith in
      let input = take l.input_cursor l.input in
      ap as_u16 (
        ap (λ (p : ℕ × ℕ). cursor_loop char_width width input p.0 p.1) (sym (place_start width h))
        ∙ cursor_loop-place width input [] 0 0 h ws refl (omega arith)
        ∙ ap (λ rs. some (place_of width (ends rs 0))) q)
