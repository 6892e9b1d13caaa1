-- ===== src/Ui/Actions.antt =====
-- A method of `UI` that may change the program's state, and may raise an error or panic: what was
-- changed before stays changed.
use trithemius_p2p.Base.{stuck, Option, none, some, Outcome, ok, err, panic, on_ok, ◌⊎◌, inl, inr}

abbrev pub Action : Type 0 → Type 0 → Type 0 → Type 0
Action S E A = S → S × Outcome E A

infixl 5 ◌>>=◌ ◌>>◌
abbrev pub ◌>>=◌ : {S E A B : Type 0} → Action S E A → (A → Action S E B) → Action S E B
◌>>=◌ m k s = on_ok (m s) λ s' a. k a s'

abbrev pub ◌>>◌ : {S E A B : Type 0} → Action S E A → Action S E B → Action S E B
m >> k = m >>= λ _. k

-- A `match` on the result of a call takes the error as a value.
abbrev pub as_value : {E F A : Type 0} → Outcome F A → Outcome E (F ⊎ A)
as_value (ok a) = ok (inr a)
as_value (err e) = ok (inl e)
as_value panic = panic
as_value stuck = stuck

module _ {S E : Type 0} where
  abbrev pub pure : {A : Type 0} → A → Action S E A
  pure a s = (s, ok a)

  abbrev pub raise : {A : Type 0} → E → Action S E A
  raise e s = (s, err e)

  abbrev pub panicked : {A : Type 0} → Action S E A
  panicked s = (s, panic)

  abbrev pub waiting : {A : Type 0} → Action S E A
  waiting s = (s, stuck)

  abbrev pub gets : {A : Type 0} → (S → A) → Action S E A
  gets f s = (s, ok (f s))

  abbrev pub modify : (S → S) → Action S E (Unit {0})
  modify f s = (f s, ok tt)

  -- `unwrap` of an option
  abbrev pub unwrap : {A : Type 0} → Option A → Action S E A
  unwrap none = panicked
  unwrap (some a) = pure a

  abbrev pub tried : {F A : Type 0} → Action S F A → Action S E (F ⊎ A)
  tried m s = let (s', o) = m s in (s', as_value o)
