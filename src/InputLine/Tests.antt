-- ===== src/InputLine/Tests.antt =====
-- Examples of the input line.
use trithemius_p2p.Base.{◌≡◌, refl, codes, some, List, [], ◌∷◌}
use trithemius_p2p.InputLine.{Edit, write, remove, remove_previous, move, left, start, end, edit}
use trithemius_p2p.InputLine.Zipper.{Zipper, line, act, edit-line, edits}

abbrev zipper : Zipper
zipper = record { before = codes "ba"; behind = codes "c" }

edit-line_example :
    edit remove_previous (line zipper)
    ≡ some (line (record { before = codes "a"; behind = codes "c" }))
unfolding act
edit-line_example = edit-line remove_previous zipper

abbrev keys : List Edit
keys = write b'd' ∷ move left ∷ remove_previous ∷ move start ∷ remove ∷ move end ∷ write b'e' ∷ []

keys_typed : edits keys (line zipper) ≡ some (record { input = codes "dce"; input_cursor = 3 })
unfolding edit mathlib.Core.Option.bind
keys_typed = refl
