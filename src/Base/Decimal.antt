-- ===== src/Base/Decimal.antt =====
-- Decimal numbers: `u16::from_str` and the `Display` of unsigned integers.
use Prim.Native.Nat.{ℕ, zero, suc, ◌+◌, ◌-◌, ◌*◌, ◌/◌, ◌%◌, ◌≤◌, ◌<◌}
use mathlib.Core.Path.{◌≡◌, refl, ◌∙◌}
use mathlib.Core.Bool.{Bool, true, false, ◌&&◌}
use mathlib.Core.Logic.{inl, inr}
use mathlib.Core.Option.{Option, none, some}
use mathlib.Core.List.{[], ◌∷◌, ◌++◌}
use native.Mathlib.Omega.{arith}
use native.Mathlib.Decide.{dec_lt}
use trithemius_p2p.Base.Tests.{leb, ltb, eqb, if◌then◌else◌, Option-cases}
use trithemius_p2p.Base.Lists.{All, All-append, is_empty}
use trithemius_p2p.Base.Texts.{Text, codes}

abbrev pub is_digit : ℕ → Bool
is_digit c = leb b'0' c && leb c b'9'

-- One character: the product and the sum are checked against the type's maximum.
parse_digit : ℕ → ℕ → ℕ → Option ℕ
parse_digit limit acc c =
    let next = acc * 10 + (c - b'0') in
    if is_digit c then (if leb next limit then some next else none) else none

parse_digits : ℕ → ℕ → Text → Option ℕ
unfolding parse_digit
parse_digits limit acc [] = some acc
parse_digits limit acc (c ∷ s) = elim (parse_digit limit acc c) [
  | none ↦ none
  | some next ↦ parse_digits limit next s
]

-- A leading `+` is accepted, an empty text or a lone sign is not.
unfoldable pub parse_unsigned : ℕ → Text → Option ℕ
unfolding parse_digits
parse_unsigned limit [] = none
parse_unsigned limit (c ∷ []) = if eqb c b'+' then none else parse_digits limit 0 (c ∷ [])
parse_unsigned limit (c ∷ d ∷ s) =
    if eqb c b'+' then parse_digits limit 0 (d ∷ s) else parse_digits limit 0 (c ∷ d ∷ s)

abbrev pub max_u16 : ℕ
max_u16 = 65535

abbrev pub max_u64 : ℕ
max_u64 = 18446744073709551615

abbrev pub parse_u16 : Text → Option ℕ
parse_u16 = parse_unsigned max_u16

show_digits : ℕ → ℕ → Text
show_digits zero n = []
show_digits (suc f) n =
    let rest = show_digits f (n / 10) in
    elim (ltb n 10) [ true ↦ (b'0' + n) ∷ [] | false ↦ rest ++ (b'0' + n % 10) ∷ [] ]

-- Each round divides by ten, so `n + 1` rounds are enough.
unfoldable pub show_ℕ : ℕ → Text
unfolding show_digits
show_ℕ n = show_digits (suc n) n

show_sample : show_ℕ 5678 ≡ codes "5678"
unfolding show_ℕ
show_sample = refl

parse_sample :
    (parse_u16 (codes "+065535") ≡ some 65535)
    × (parse_u16 (codes "65536") ≡ none)
    × (parse_u16 (codes "") ≡ none)
    × (parse_u16 (codes "8x") ≡ none)
unfolding parse_unsigned
parse_sample = (refl, refl, refl, refl)

parse_digits-append :
    (limit acc : ℕ) (s t : Text) {v : ℕ}
    → parse_digits limit acc s ≡ some v
    → parse_digits limit acc (s ++ t) ≡ parse_digits limit v t
unfolding parse_digits
parse_digits-append limit acc [] t h = ground arith
parse_digits-append limit acc (c ∷ s) t {v} h = elim (Option-cases (parse_digit limit acc c)) [
  | inl bad ↦ cc (rw (bad, parse_digits) at h)
  | inr (next, e) ↦
      rw (e, parse_digits) (parse_digits-append limit next s t (rw (e, parse_digits) at h))
]

-- Every number within the limit is parsed back from its decimal text.
parse_digits-show_digits :
    (limit f n : ℕ) → n < f → n ≤ limit → parse_digits limit 0 (show_digits f n) ≡ some n
unfolding show_digits parse_digits
parse_digits-show_digits limit zero n lt le = absurd (omega arith)
parse_digits-show_digits limit (suc f) n lt le = elim (dec_lt n 10) [
  | yes small ↦ ground arith
  | no large ↦ ground (
    arith,
    parse_digits-append limit 0 (show_digits f (n / 10)) ((b'0' + n % 10) ∷ [])
        (parse_digits-show_digits limit f (n / 10) (omega arith) (omega arith)),
  )
]

abbrev pub IsDecimal : Text → Type 0
IsDecimal = All (λ c. is_digit c ≡ true)

show_digits_small : (f n : ℕ) → n < 10 → show_digits (suc f) n ≡ (b'0' + n) ∷ []
unfolding show_digits
show_digits_small f n h = ground arith

show_digits_large :
    (f n : ℕ) → ¬ (n < 10) → show_digits (suc f) n ≡ show_digits f (n / 10) ++ (b'0' + n % 10) ∷ []
unfolding show_digits
show_digits_large f n h = ground arith

show_digits-IsDecimal : (f n : ℕ) → IsDecimal (show_digits f n)
show_digits-IsDecimal zero n = unfold show_digits in tt
show_digits-IsDecimal (suc f) n = elim (dec_lt n 10) [
  | yes small ↦ rw (show_digits_small f n small) (ground arith, tt)
  | no large ↦ rw (show_digits_large f n large) (
      All-append (λ c. is_digit c ≡ true) (show_digits f (n / 10)) ((b'0' + n % 10) ∷ [])
        (show_digits-IsDecimal f (n / 10)) (ground arith, tt))
]

pub show_ℕ-IsDecimal : (n : ℕ) → IsDecimal (show_ℕ n)
unfolding show_ℕ
show_ℕ-IsDecimal n = show_digits-IsDecimal (suc n) n

is_empty-append : (s : Text) (c : ℕ) → is_empty (s ++ c ∷ []) ≡ false
is_empty-append [] c = refl
is_empty-append (d ∷ s) c = refl

show_digits-not_empty : (f n : ℕ) → is_empty (show_digits (suc f) n) ≡ false
show_digits-not_empty f n = elim (dec_lt n 10) [
  | yes small ↦ rw (show_digits_small f n small)
  | no large ↦ rw (show_digits_large f n large) (is_empty-append (show_digits f (n / 10)) _)
]

parse_unsigned-eq-parse_digits :
    (limit : ℕ) (s : Text)
    → is_empty s ≡ false
    → IsDecimal s
    → parse_unsigned limit s ≡ parse_digits limit 0 s
unfolding parse_unsigned
parse_unsigned-eq-parse_digits limit [] e d = cc
parse_unsigned-eq-parse_digits limit (c ∷ []) e d = ground arith
parse_unsigned-eq-parse_digits limit (c ∷ c' ∷ s) e d = ground arith

-- The decimal text of a number within the limit is parsed back.
pub parse_unsigned-show_ℕ : (limit n : ℕ) → n ≤ limit → parse_unsigned limit (show_ℕ n) ≡ some n
unfolding show_ℕ
parse_unsigned-show_ℕ limit n le =
    parse_unsigned-eq-parse_digits limit _ (show_digits-not_empty n n)
      (show_digits-IsDecimal (suc n) n)
    ∙ parse_digits-show_digits limit (suc n) n (omega arith) le
