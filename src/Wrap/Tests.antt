-- ===== src/Wrap/Tests.antt =====
-- Examples of the rows and the cursor, with characters of one column.
use trithemius_p2p.Base.{ℕ, ◌≡◌, ◌≤◌, refl, Text, codes, some, List, [], ◌∷◌, All, arith}
use trithemius_p2p.Wrap.{split_each, ui_input_cursor}
use trithemius_p2p.Wrap.Rows.{concat, row_width, concat-split_each, split_each-fits}
use trithemius_p2p.Wrap.Cursor.{ui_input_cursor-split_each}

abbrev one : ℕ → ℕ
one c = 1

concat-split_each_example :
    (rows : List Text) × (split_each one (codes "abcd") 3 ≡ some rows)
    × (concat rows ≡ codes "abcd")
concat-split_each_example = concat-split_each one (codes "abcd") 3 (omega arith)

two_rows : split_each one (codes "abcd") 3 ≡ some (codes "abc" ∷ codes "d" ∷ [])
unfolding split_each
two_rows = refl

split_each-fits_example : All (λ r. row_width one r ≤ 3) (codes "abc" ∷ codes "d" ∷ [])
split_each-fits_example =
    split_each-fits one (codes "abcd") 3
      (omega arith, (omega arith, (omega arith, (omega arith, tt)))) two_rows

ui_input_cursor-split_each_example :
    ui_input_cursor one (record { input = codes "abcde"; input_cursor = 4 }) 3 ≡ some (1, 1)
ui_input_cursor-split_each_example =
    ui_input_cursor-split_each one (record { input = codes "abcde"; input_cursor = 4 }) 3
      (omega arith) (omega arith, (omega arith, (omega arith, (omega arith, tt)))) two_rows
