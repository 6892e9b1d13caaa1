-- ===== src/Base/Texts.antt =====
-- Texts as lists of code points, with the string operations that the program calls.
use Prim.Native.Nat.{ℕ, ◌+◌}
use Prim.Native.Char.{code}
use Prim.Native.String.{String}
use mathlib.Core.Path.{◌≡◌}
use mathlib.Core.Bool.{Bool, true, false, ◌&&◌, ◌||◌}
use mathlib.Core.Option.{Option, none, some}
use mathlib.Core.List.{List, [], ◌∷◌, ◌++◌}
use native.Mathlib.Decide.{ℕ_discrete}
use native.Mathlib.Omega.{arith}
use trithemius_p2p.Base.Tests.{Eq, leb, eqb, if◌then◌else◌}

abbrev pub Text : Type 0
Text = List ℕ

-- The code points of a literal.
abbrev pub codes : String → Text
codes String.[] = []
codes (String.◌∷◌ c s) = code c ∷ codes s

Text-discrete : Discrete Text
Text-discrete = hlevel ℕ_discrete

-- Shut in proofs, where a split on `s == t` yields the equation or its negation.
instance unfoldable pub text_eq : Eq Text
unfolding Text-discrete ℕ_discrete
text_eq = record { dec = Text-discrete }

-- `strip_prefix` by one character
abbrev pub strip_char : ℕ → Text → Option Text
strip_char c [] = none
strip_char c (d ∷ s) = if eqb d c then some s else none

-- The pieces before the first `c` and after it, `split_once`.
abbrev pub split_once : ℕ → Text → Option (Text × Text)
split_once c [] = none
split_once c (d ∷ s) = elim (eqb d c) [
  | true ↦ some ([], s)
  | false ↦ elim (split_once c s) [ none ↦ none | some (a, b) ↦ some (d ∷ a, b) ]
]

-- `split(c)`: always at least one piece, given as the first and the others.
abbrev pub split : ℕ → Text → Text × List Text
split c [] = ([], [])
split c (d ∷ s) =
    let (first, others) = split c s in if eqb d c then ([], first ∷ others) else (d ∷ first, others)

-- `join(sep)`
abbrev pub join : Text → List Text → Text
join sep [] = []
join sep (s ∷ []) = s
join sep (s ∷ t ∷ ts) = s ++ sep ++ join sep (t ∷ ts)

-- `to_ascii_lowercase`
abbrev pub lower : ℕ → ℕ
lower c = if leb b'A' c && leb c b'Z' then c + 32 else c

abbrev pub to_ascii_lowercase : Text → Text
to_ascii_lowercase [] = []
to_ascii_lowercase (c ∷ s) = lower c ∷ to_ascii_lowercase s

-- `contains(c)` and `starts_with(c)` for a character
abbrev pub has_char : ℕ → Text → Bool
has_char c [] = false
has_char c (d ∷ s) = eqb d c || has_char c s

abbrev pub starts_with : Text → Text → Bool
starts_with [] s = true
starts_with (c ∷ p) [] = false
starts_with (c ∷ p) (d ∷ s) = eqb c d && starts_with p s

-- The first `c` is where a text without one ends.
pub split_once_found :
    (c : ℕ) (a b : Text) → has_char c a ≡ false → split_once c (a ++ c ∷ b) ≡ some (a, b)
split_once_found c [] b h = ground arith
split_once_found c (d ∷ a) b h = ground (arith, split_once_found c a b)
