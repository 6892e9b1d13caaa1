-- ===== src/InputLine/Zipper.antt =====
-- The input line refines a zipper: what stands before the cursor, nearest first, and what stands
-- behind it.
use trithemius_p2p.Base.{
  ℕ, suc, ◌-◌, ◌+◌, ◌≤◌, ◌<◌, ◌≡◌, refl, sym, ap, ◌∙◌, Text, Option, some, List, [], ◌∷◌, ◌++◌,
  arith, length, length-append, take, drop, is_empty, append-nil, append_assoc, length-take, false,
  take-append-drop,
}
use mathlib.Core.Path.{subst}
use mathlib.Core.Option
use mathlib.Core.List.{reverse, reverse-cons, reverse-append, reverse-reverse}
use trithemius_p2p.InputLine.{
  InputLine, CursorMovement, left, right, start, end, Edit, write, remove, remove_previous,
  clear_to_cursor, reset, move, edit,
}

pub record Zipper : Type 0 where
  pub before : Text
  pub behind : Text

abbrev pub zipper : Text → Text → Zipper
zipper a b = record { before = a; behind = b }

abbrev pub line : Zipper → InputLine
line z = record { input = reverse z.before ++ z.behind; input_cursor = length z.before }

-- What each edit means on the zipper.
unfoldable pub act : Edit → Text → Text → Zipper
act (write c) a b = zipper (c ∷ a) b
act remove a [] = zipper a []
act remove a (c ∷ b) = zipper a b
act remove_previous [] b = zipper [] b
act remove_previous (c ∷ a) b = zipper a b
act clear_to_cursor a b = zipper [] b
act reset a b = zipper [] []
act (move left) [] b = zipper [] b
act (move left) (c ∷ a) b = zipper a (c ∷ b)
act (move right) a [] = zipper a []
act (move right) a (c ∷ b) = zipper (c ∷ a) b
act (move start) a b = zipper [] (reverse a ++ b)
act (move end) a b = zipper (reverse b ++ a) []

length-reverse : (xs : Text) → length (reverse xs) ≡ length xs
length-reverse [] = refl
length-reverse (x ∷ xs) =
    rw reverse-cons (omega (arith, length-append (reverse xs) (x ∷ []), length-reverse xs))

take_front : (xs ys : Text) (n : ℕ) → n ≡ length xs → take n (xs ++ ys) ≡ xs
take_front [] ys n h = rw h
take_front (x ∷ xs) ys n h = rw h (ap (x ∷◌) (take_front xs ys (length xs) refl))

drop_front : (xs ys : Text) (n : ℕ) → n ≡ length xs → drop n (xs ++ ys) ≡ ys
drop_front [] ys n h = rw h
drop_front (x ∷ xs) ys n h = rw h (drop_front xs ys (length xs) refl)

module _ (a b : Text) where
  front : length a ≡ length (reverse a)
  front = sym (length-reverse a)

  size : length (reverse a ++ b) ≡ length a + length b
  size = omega (arith, length-append (reverse a) b, length-reverse a)

  take_at : take (length a) (reverse a ++ b) ≡ reverse a
  take_at = take_front (reverse a) b (length a) front

  drop_at : drop (length a) (reverse a ++ b) ≡ b
  drop_at = drop_front (reverse a) b (length a) front

drop-suc_at : (a : Text) (c : ℕ) (b : Text) → drop (suc (length a)) (reverse a ++ c ∷ b) ≡ b
drop-suc_at a c b =
    let e : length (reverse a ++ c ∷ []) ≡ suc (length a) = omega (arith, size a (c ∷ [])) in
    ap (drop (suc (length a))) (sym (append_assoc (reverse a) (c ∷ []) b))
    ∙ drop_front (reverse a ++ c ∷ []) b (suc (length a)) (sym e)

is_empty-eq-false : (xs : Text) → 0 < length xs → is_empty xs ≡ false
is_empty-eq-false [] h = absurd (omega arith)
is_empty-eq-false (x ∷ xs) h = refl

edit-write :
    (c : ℕ) (a b : Text) → edit (write c) (line (zipper a b)) ≡ some (line (zipper (c ∷ a) b))
unfolding edit
edit-write c a b =
    rw (reverse-cons, append_assoc) (ground (arith, size a b, take_at a b, drop_at a b))

edit-remove : (a b : Text) → edit remove (line (zipper a b)) ≡ some (line (act remove a b))
unfolding edit act
edit-remove a [] = ground (arith, size a [])
edit-remove a (c ∷ b) = ground (arith, size a (c ∷ b), take_at a (c ∷ b), drop-suc_at a c b)

edit_remove_previous :
    (a b : Text) → edit remove_previous (line (zipper a b)) ≡ some (line (act remove_previous a b))
unfolding edit act
edit_remove_previous [] b = refl
edit_remove_previous (c ∷ a) b =
    let e : suc (length a) - 1 ≡ length a = omega arith in
    rw (reverse-cons, append_assoc)
      (ground (arith, e, size a (c ∷ b), take_at a (c ∷ b), drop-suc_at a c b))

edit_clear :
    (a b : Text) → edit clear_to_cursor (line (zipper a b)) ≡ some (line (act clear_to_cursor a b))
unfolding edit act
edit_clear [] [] = refl
edit_clear [] (c ∷ b) = ground arith
edit_clear (c ∷ a) b = ground (
  arith,
  size (c ∷ a) b,
  drop_at (c ∷ a) b,
  is_empty-eq-false (reverse (c ∷ a) ++ b) (omega (arith, size (c ∷ a) b)),
)

edit_move :
    (m : CursorMovement) (a b : Text)
    → edit (move m) (line (zipper a b)) ≡ some (line (act (move m) a b))
unfolding edit act
edit_move left [] b = refl
edit_move left (c ∷ a) b = rw (reverse-cons, append_assoc) (ground arith)
edit_move right a [] = ground (arith, size a [])
edit_move right a (c ∷ b) = rw (reverse-cons, append_assoc) (ground (arith, size a (c ∷ b)))
edit_move start a b = refl
edit_move end a b =
    let n : length (reverse a ++ b) ≡ length (reverse b ++ a) = omega (arith, size a b, size b a) in
    rw (reverse-append, reverse-reverse, append-nil, n)

edit_reset : (a b : Text) → edit reset (line (zipper a b)) ≡ some (line (act reset a b))
unfolding edit act
edit_reset [] [] = refl
edit_reset [] (c ∷ b) = refl
edit_reset (c ∷ a) b =
    ground (arith, is_empty-eq-false (reverse (c ∷ a) ++ b) (omega (arith, size (c ∷ a) b)))

-- Every edit of a line whose cursor is within it succeeds, and does to the text before the cursor
-- and to the text behind it what the zipper says.
pub edit-line : (e : Edit) (z : Zipper) → edit e (line z) ≡ some (line (act e z.before z.behind))
edit-line (write c) z = unfold act in edit-write c z.before z.behind
edit-line remove z = edit-remove z.before z.behind
edit-line remove_previous z = edit_remove_previous z.before z.behind
edit-line clear_to_cursor z = edit_clear z.before z.behind
edit-line reset z = edit_reset z.before z.behind
edit-line (move m) z = edit_move m z.before z.behind

abbrev pub IsValid : InputLine → Type 0
IsValid l = l.input_cursor ≤ length l.input

-- Every line with its cursor within it is the line of a zipper.
pub line_of : (l : InputLine) → IsValid l → (z : Zipper) × (line z ≡ l)
line_of l v =
    let n : length (reverse (take l.input_cursor l.input)) ≡ l.input_cursor =
      omega
        (arith, length-reverse (take l.input_cursor l.input), length-take l.input_cursor l.input) in
    (
      zipper (reverse (take l.input_cursor l.input)) (drop l.input_cursor l.input),
      rw (reverse-reverse, take-append-drop, n),
    )

line-IsValid : (z : Zipper) → IsValid (line z)
line-IsValid z = omega (arith, size z.before z.behind)

edit_at :
    (e : Edit) (l : InputLine) (z : Zipper)
    → line z ≡ l
    → edit e l ≡ some (line (act e z.before z.behind))
edit_at e l z q = subst (λ k. edit e k ≡ some (line (act e z.before z.behind))) q (edit-line e z)

-- An edit of a line with its cursor within it does not panic and leaves such a line.
pub edit-IsValid :
    (e : Edit) (l : InputLine) → IsValid l → (l' : InputLine) × (edit e l ≡ some l') × IsValid l'
edit-IsValid e l v =
    let (z, q) = line_of l v in
    let w : Zipper = act e z.before z.behind in (line w, edit_at e l z q, line-IsValid w)

abbrev pub edits : List Edit → InputLine → Option InputLine
edits [] l = some l
edits (e ∷ es) l = Option.bind (edit e l) (edits es)

edits-cons :
    (e : Edit) (es : List Edit) (l : InputLine) {l' : InputLine}
    → edit e l ≡ some l'
    → edits (e ∷ es) l ≡ edits es l'
unfolding Option.bind
edits-cons e es l h = ap (λ o. Option.bind o (edits es)) h

-- From a line whose cursor is within it, no sequence of edits panics, and the cursor stays within
-- the line.
pub edits-IsValid :
    (es : List Edit) (l : InputLine)
    → IsValid l
    → (l' : InputLine) × (edits es l ≡ some l') × IsValid l'
edits-IsValid [] l v = (l, refl, v)
edits-IsValid (e ∷ es) l v =
    let (z, q) = line_of l v in
    let w : Zipper = act e z.before z.behind in
    let (l', d, v') = edits-IsValid es (line w) (line-IsValid w) in
    (l', edits-cons e es l (edit_at e l z q) ∙ d, v')
