-- ===== src/Base/Outcomes.antt =====
-- How an operation ends: with a value, an error, or a panic of the thread; or never, where it waits
-- for what cannot come.
use mathlib.Core.Path.{◌≡◌, refl}

pub data Outcome {ℓ κ} (E : Type ℓ) (A : Type κ) : Type (ℓ ⊔ κ) where
  panic : Outcome E A
  stuck : Outcome E A
  err : E → Outcome E A
  ok : A → Outcome E A

abbrev pub map_err {ℓ κ μ} :
    {E : Type ℓ} {F : Type κ} {A : Type μ} → (E → F) → Outcome E A → Outcome F A
map_err f (ok a) = ok a
map_err f (err e) = err (f e)
map_err f panic = panic
map_err f stuck = stuck

infixl 5 ◌>>=◌
abbrev pub ◌>>=◌ {ℓ κ μ} :
    {E : Type ℓ} {A : Type κ} {B : Type μ} → Outcome E A → (A → Outcome E B) → Outcome E B
panic >>= next = panic
stuck >>= next = stuck
err fault >>= next = err fault
ok value >>= next = next value

pub ok-injective {ℓ κ} :
    {E : Type ℓ} {A : Type κ} {a b : A} → ◌≡◌ {A = Outcome E A} (ok a) (ok b) → a ≡ b
ok-injective h = cc

pub >>=-eq-ok {ℓ κ μ} :
    {E : Type ℓ} {A : Type κ} {B : Type μ} {result : B} (first : Outcome E A)
    (next : A → Outcome E B)
    → (first >>= next) ≡ ok result
    → (value : A) × (first ≡ ok value) × (next value ≡ ok result)
>>=-eq-ok panic next e = cc
>>=-eq-ok stuck next e = cc
>>=-eq-ok (err fault) next e = cc
>>=-eq-ok (ok value) next e = (value, refl, e)

-- The same for an operation that also leaves a state, whatever its result.
abbrev pub on_ok {ℓ κ μ ν} :
    {S : Type ℓ} {E : Type κ} {A : Type μ} {B : Type ν}
    → S × Outcome E A
    → (S → A → S × Outcome E B)
    → S × Outcome E B
on_ok (s, ok a) k = k s a
on_ok (s, err e) k = (s, err e)
on_ok (s, panic) k = (s, panic)
on_ok (s, stuck) k = (s, stuck)

-- The predicate holds of the state that is left, unless the operation has panicked.
abbrev pub Holds {ℓ κ μ ν} :
    {S : Type ℓ} {E : Type κ} {A : Type μ} → (S → Type ν) → S × Outcome E A → Type ν
Holds P (s, ok a) = P s
Holds P (s, err e) = P s
Holds P (s, panic) = Unit
Holds P (s, stuck) = P s

pub on_ok-Holds {ℓ κ μ ν ξ} :
    {S : Type ℓ} {E : Type κ} {A : Type μ} {B : Type ν} (P : S → Type ξ) (r : S × Outcome E A)
    (k : S → A → S × Outcome E B)
    → Holds P r
    → ((s : S) (a : A) → P s → Holds P (k s a))
    → Holds P (on_ok r k)
on_ok-Holds P (s, ok a) k h g = g s a h
on_ok-Holds P (s, err e) k h g = h
on_ok-Holds P (s, panic) k h g = tt
on_ok-Holds P (s, stuck) k h g = h
