-- ===== src/TopicList/SwapRemove.antt =====
-- `Vec::swap_remove` and `position`, by index.
use trithemius_p2p.Base.{
  ℕ, zero, suc, ◌-◌, ◌<◌, ◌≡◌, refl, ap, ◌∙◌, text_eq, Bool, some, true, List, [], ◌∷◌, arith,
  length, length-take, get_elem?, get_elem?_of_lt, take, set, eqb, if◌then◌else◌, position,
}
use trithemius_p2p.TopicList.{swap_remove}

module _ {A : Type 0} where
  length-set : (xs : List A) (i : ℕ) (v : A) → length (set xs i v) ≡ length xs
  length-set [] i v = refl
  length-set (x ∷ xs) zero v = refl
  length-set (x ∷ xs) (suc i) v = ap suc (length-set xs i v)

  get_elem?-take : (n : ℕ) (xs : List A) (j : ℕ) → j < n → get_elem? (take n xs) j ≡ get_elem? xs j
  get_elem?-take zero xs j h = absurd (omega arith)
  get_elem?-take (suc n) [] j h = refl
  get_elem?-take (suc n) (x ∷ xs) zero h = refl
  get_elem?-take (suc n) (x ∷ xs) (suc j) h = get_elem?-take n xs j (omega arith)

  get_elem?-set :
      (xs : List A) (i j : ℕ) (v : A)
      → j < length xs
      → get_elem? (set xs i v) j ≡ (if eqb j i then some v else get_elem? xs j)
  get_elem?-set [] i j v h = absurd (omega arith)
  get_elem?-set (x ∷ xs) zero zero v h = ground arith
  get_elem?-set (x ∷ xs) zero (suc j) v h = ground arith
  get_elem?-set (x ∷ xs) (suc i) zero v h = ground arith
  get_elem?-set (x ∷ xs) (suc i) (suc j) v h = get_elem?-set xs i j v (omega arith) ∙ ground arith

  last_of : (xs : List A) → 0 < length xs → (a : A) × (get_elem? xs (length xs - 1) ≡ some a)
  last_of xs h = get_elem?_of_lt xs (length xs - 1) (omega arith)

  pub length-swap_remove :
      (xs : List A) (i : ℕ) → i < length xs → length (swap_remove xs i) ≡ length xs - 1
  unfolding swap_remove
  length-swap_remove xs i h =
      let (a, e) = last_of xs (omega arith) in
      rw (e, swap_remove)
        (omega (arith, length-take (length xs - 1) (set xs i a), length-set xs i a))

  -- The last element stands where the removed one stood; all others stay.
  pub get_elem?-swap_remove :
      (xs : List A) (i j : ℕ)
      → i < length xs
      → j < length xs - 1
      → get_elem? (swap_remove xs i) j
        ≡ (if eqb j i then get_elem? xs (length xs - 1) else get_elem? xs j)
  unfolding swap_remove
  get_elem?-swap_remove xs i j h k =
      let (a, e) = last_of xs (omega arith) in
      rw (e, swap_remove)
        (get_elem?-take (length xs - 1) (set xs i a) j k ∙ get_elem?-set xs i j a (omega arith))

  pub position-some :
      (p : A → Bool) (xs : List A) (i : ℕ)
      → position p xs ≡ some i
      → (a : A) × (get_elem? xs i ≡ some a) × (p a ≡ true)
  position-some p [] i h = cc
  position-some p (x ∷ xs) zero h = (x, refl, ground arith)
  position-some p (x ∷ xs) (suc i) h = position-some p xs i (ground arith)

  pub position_bound : (p : A → Bool) (xs : List A) (i : ℕ) → position p xs ≡ some i → i < length xs
  position_bound p [] i h = cc
  position_bound p (x ∷ xs) zero h = omega arith
  position_bound p (x ∷ xs) (suc i) h =
      let k : i < length xs = position_bound p xs i (ground arith) in omega arith
