-- ===== src/Wrap/Rows.antt =====
-- What `split_each` gives: the rows put together are the text, and they fit the panel.
use trithemius_p2p.Base.{
  ℕ, ◌+◌, ◌≤◌, ◌<◌, ◌≡◌, refl, ap, ◌∙◌, Text, none, some, List, [], ◌∷◌, ◌++◌, arith, All,
  Bool-cases, inl, inr, append_assoc,
}
use mathlib.Core.Path.{subst}
use native.Mathlib.Decide.{ℕ_discrete}
use trithemius_p2p.Wrap.{is_full, split_loop, split_each}

abbrev pub concat : List Text → Text
concat [] = []
concat (row ∷ rows) = row ++ concat rows

module _ (char_width : ℕ → ℕ) where
  abbrev pub row_width : Text → ℕ
  row_width [] = 0
  row_width (c ∷ s) = char_width c + row_width s

  pub row_width-append : (s t : Text) → row_width (s ++ t) ≡ row_width s + row_width t
  row_width-append [] t = omega arith
  row_width-append (c ∷ s) t = omega (arith, row_width-append s t)

  concat-split_loop :
      (width : ℕ) (cs row : Text) (index : ℕ)
      → concat (split_loop char_width width cs row index) ≡ row ++ cs
  unfolding split_loop
  concat-split_loop width [] [] index = refl
  concat-split_loop width [] (d ∷ row) index = refl
  concat-split_loop width (c ∷ cs) row index =
      elim (Bool-cases (is_full char_width width index c)) [
        | inl full ↦
            rw (full, split_loop)
              (ap (row ++◌) (concat-split_loop width cs (c ∷ []) (char_width c)))
        | inr room ↦
            rw (room, split_loop)
              (concat-split_loop width cs (row ++ c ∷ []) (index + char_width c)
                ∙ append_assoc row (c ∷ []) cs)
      ]

  split_loop-fits :
      (width : ℕ) (cs row : Text) (index : ℕ)
      → All (λ c. char_width c ≤ width) cs
      → index ≡ row_width row
      → index ≤ width
      → All (λ r. row_width r ≤ width) (split_loop char_width width cs row index)
  unfolding split_loop
  split_loop-fits width [] [] index fits e h = tt
  split_loop-fits width [] (d ∷ row) index fits e h = (omega arith, tt)
  split_loop-fits width (c ∷ cs) row index fits e h =
      elim (Bool-cases (is_full char_width width index c)) [
        | inl full ↦
            rw (full, split_loop)
              (
                omega arith,
                split_loop-fits width cs (c ∷ []) (char_width c) fits.1 (omega arith) fits.0,
              )
        | inr room ↦
            rw (room, split_loop)
              (split_loop-fits width cs (row ++ c ∷ []) (index + char_width c) fits.1
                (omega (arith, row_width-append row (c ∷ []))) (ground arith))
      ]

  -- For a panel that has a width, any text is cut into rows which put together are the text.
  pub concat-split_each :
      (input : Text) (width : ℕ)
      → 0 < width
      → (rows : List Text) × (split_each char_width input width ≡ some rows) × (concat rows ≡ input)
  unfolding split_each
  concat-split_each input width h =
      (split_loop char_width width input [] 0, ground arith, concat-split_loop width input [] 0)

  -- If no character of the text is wider than the panel, no row that the text is cut into is.
  pub split_each-fits :
      (input : Text) (width : ℕ) {rows : List Text}
      → All (λ c. char_width c ≤ width) input
      → split_each char_width input width ≡ some rows
      → All (λ r. row_width r ≤ width) rows
  unfolding split_each
  split_each-fits input width {rows} fits h = elim (ℕ_discrete width 0) [
    | yes zero_ ↦ ground arith
    | no pos ↦
        let e : split_loop char_width width input [] 0 ≡ rows = ground arith in
        subst (All (λ r. row_width r ≤ width)) e
          (split_loop-fits width input [] 0 fits refl (omega arith))
  ]

  -- A panel without width: the division for the capacity panics.
  pub split_each_zero : (input : Text) → split_each char_width input 0 ≡ none
  unfolding split_each
  split_each_zero input = refl
