-- ===== src/TopicList/Membership.antt =====
-- Which topics have a tab: what `subscribe` and `unsubscribe` do to them, for tabs without repeats.
use trithemius_p2p.Base.{
  stuck, ok-injective, err, ◌>>=◌, ℕ, zero, suc, ◌-◌, ◌<◌, ◌≡◌, ◌≢◌, ◌⊎◌, refl, sym, ◌∙◌, ap, Text,
  text_eq, ◌==◌, ==_iff, Bool, true, false, ◌||◌, Option, some, none, List, [], ◌∷◌, ◌++◌, arith,
  length, get_elem?, contains, position, is_empty, inl, inr, ok, Bool-cases, Option-cases,
  if◌then◌else◌, eqb, >>=-eq-ok,
}
use mathlib.Core.Option.{some-injective}
use native.Mathlib.Decide.{ℕ_discrete}
use trithemius_p2p.Subscriptions.{SubscriptionError}
use trithemius_p2p.TopicList.{SubscriptionList, subscribe, unsubscribe, swap_remove, reindex}
use trithemius_p2p.TopicList.SwapRemove.{length-swap_remove, get_elem?-swap_remove, position-some}
use trithemius_p2p.TopicList.Select.{tabs}
use trithemius_p2p.TopicList.Remove.{unsubscribe_missing, unsubscribe_found}

abbrev pub IsAt : List Text → ℕ → Text → Type 0
IsAt list i topic = get_elem? list i ≡ some topic

-- No topic has two tabs.
abbrev pub IsDistinct : List Text → Type 0
IsDistinct list = (i j : ℕ) (topic : Text) → IsAt list i topic → IsAt list j topic → i ≡ j

get_elem?-bound : (list : List Text) (i : ℕ) {topic : Text} → IsAt list i topic → i < length list
get_elem?-bound [] i h = cc
get_elem?-bound (x ∷ list) zero h = omega arith
get_elem?-bound (x ∷ list) (suc i) h = let k = get_elem?-bound list i h in omega arith

contains-IsAt :
    (list : List Text) (topic : Text) → contains list topic ≡ true → (i : ℕ) × IsAt list i topic
contains-IsAt [] topic h = cc
contains-IsAt (x ∷ list) topic h = elim (text_eq.dec topic x) [
  | yes e ↦ (0, ap some (sym e))
  | no n ↦ (let (i, k) = contains-IsAt list topic (ground arith) in (suc i, k))
]

pub IsAt-contains :
    (list : List Text) (i : ℕ) {topic : Text} → IsAt list i topic → contains list topic ≡ true
IsAt-contains [] i h = cc
IsAt-contains (x ∷ list) zero {topic} h =
    let e : topic ≡ x = cc in ground (arith, (==_iff topic x).1 e)
IsAt-contains (x ∷ list) (suc i) h = let k = IsAt-contains list i h in ground arith

pub contains-append :
    (xs ys : List Text) (topic : Text)
    → contains (xs ++ ys) topic ≡ (contains xs topic || contains ys topic)
contains-append [] ys topic = refl
contains-append (x ∷ xs) ys topic = ground (arith, contains-append xs ys topic)

IsAt-append :
    (xs : List Text) (y : Text) (i : ℕ) {topic : Text}
    → IsAt (xs ++ y ∷ []) i topic
    → IsAt xs i topic ⊎ ((i ≡ length xs) × (topic ≡ y))
IsAt-append [] y zero h = inr (refl, cc)
IsAt-append [] y (suc i) h = cc
IsAt-append (x ∷ xs) y zero h = inl h
IsAt-append (x ∷ xs) y (suc i) h = elim (IsAt-append xs y i h) [
  | inl k ↦ inl k
  | inr (e, f) ↦ inr (ap suc e, f)
]

-- A tab for a topic that has none keeps the tabs without repeats.
pub subscribe-IsDistinct :
    (s : SubscriptionList) (topic : Text)
    → IsDistinct s.list
    → contains s.list topic ≡ false
    → IsDistinct (subscribe s topic).list
unfolding subscribe
subscribe-IsDistinct s topic d new i j t hi hj = elim (IsAt-append s.list topic i hi) [
  | inl a ↦ elim (IsAt-append s.list topic j hj) [
    | inl b ↦ d i j t a b
    | inr (_, f) ↦ cc (IsAt-contains s.list i a)
  ]
  | inr (e, g) ↦ elim (IsAt-append s.list topic j hj) [
    | inl b ↦ cc (IsAt-contains s.list j b)
    | inr (f, _) ↦ e ∙ sym f
  ]
]

pub contains-subscribe :
    (s : SubscriptionList) (topic other : Text)
    → contains (subscribe s topic).list other ≡ (contains s.list other || other == topic)
unfolding subscribe
contains-subscribe s topic other = contains-append s.list (topic ∷ []) other ∙ ground arith

module _ (list : List Text) (index : ℕ) {topic : Text} (d : IsDistinct list)
    (here : IsAt list index topic) where
  bound : index < length list
  bound = get_elem?-bound list index here

  IsAt-rest :
      (j : ℕ) {other : Text}
      → IsAt (swap_remove list index) j other
      → IsAt list (if eqb j index then length list - 1 else j) other × (j < length list - 1)
  IsAt-rest j h =
      let l = length-swap_remove list index bound in
      let k : j < length list - 1 =
        (let b = get_elem?-bound (swap_remove list index) j h in omega arith) in
      (ground (arith, get_elem?-swap_remove list index j bound k), k)

  at_last :
      (j : ℕ) {other : Text}
      → j ≡ length list - 1
      → IsAt list j other
      → get_elem? list (length list - 1) ≡ some other
  at_last j e h = rw e at h

  to_rest :
      (j : ℕ) {other : Text}
      → IsAt list j other
      → j ≢ index
      → contains (swap_remove list index) other ≡ true
  to_rest j {other} h n =
      let b : j < length list = get_elem?-bound list j h in
      let i : index < length list = bound in
      elim (ℕ_discrete j (length list - 1)) [
        | yes last ↦ IsAt-contains (swap_remove list index) index (
            ground
              (arith, get_elem?-swap_remove list index index bound (omega arith), at_last j last h))
        | no inner ↦
            IsAt-contains (swap_remove list index) j
              (ground (arith, get_elem?-swap_remove list index j bound (omega arith)))
      ]

  -- After the removal at a tab's index, all the others have a tab still, and it has none.
  pub contains-swap_remove :
      (other : Text)
      → contains (swap_remove list index) other
        ≡ (if other == topic then false else contains list other)
  contains-swap_remove other = elim (Bool-cases (contains (swap_remove list index) other)) [
    | inl yes_rest ↦
        let (j, h) = contains-IsAt (swap_remove list index) other yes_rest in
        let (k, b) = IsAt-rest j h in
        let old = IsAt-contains list _ k in
        elim (text_eq.dec other topic) [
          | yes same ↦ absurd (moved j b (d _ index other k (rw same here)))
          | no differ ↦ ground arith
        ]
    | inr no_rest ↦ elim (text_eq.dec other topic) [
      | yes same ↦ ground arith
      | no differ ↦ elim (Bool-cases (contains list other)) [
        | inl old ↦
            let (j, h) = contains-IsAt list other old in
            elim (ℕ_discrete j index) [
              | yes e ↦ absurd (differ (some-injective _ _ (sym (rw e at h) ∙ here)))
              | no n ↦ cc (to_rest j h n)
            ]
        | inr new ↦ ground arith
      ]
    ]
  ]
    where
      moved : (j : ℕ) → j < length list - 1 → (if eqb j index then length list - 1 else j) ≢ index
      moved j b = ground arith

  pub swap_remove-IsDistinct : IsDistinct (swap_remove list index)
  swap_remove-IsDistinct i j t hi hj =
      let (ki, bi) = IsAt-rest i hi in
      let (kj, bj) = IsAt-rest j hj in let e = d _ _ t ki kj in ground arith

-- A removal that succeeds is one from the list by `swap_remove` at the topic's index.
pub unsubscribe-list :
    (s : SubscriptionList) (topic : Text) {s' : SubscriptionList}
    → unsubscribe s topic ≡ ok s'
    → (index : ℕ) × IsAt s.list index topic × (s'.list ≡ swap_remove s.list index)
unsubscribe-list s topic {s'} h = elim (Option-cases (position (λ t. t == topic) s.list)) [
  | inl missing ↦ cc (unsubscribe_missing s topic missing)
  | inr (index, found) ↦
      let (t, at, same) = position-some (λ t. t == topic) s.list index found in
      let (c, _, done) =
        >>=-eq-ok (reindex (is_empty (swap_remove s.list index)) s.current_index index)
          (λ c. ok (tabs (swap_remove s.list index) c))
          (sym (unsubscribe_found s.list s.current_index topic found) ∙ h) in
      (index, at ∙ ap some ((==_iff t topic).0 same), ap (λ u. u.list) (sym (ok-injective done)))
]

removed_ends :
    (b : Bool) (c : Option ℕ) (index : ℕ) (list : List Text)
    → (reindex b c index >>= λ d. ok (tabs list d)) ≢ stuck
removed_ends true c index list e = cc
removed_ends false none index list e = cc
removed_ends false (some current) index list e = ground arith

-- A removal always comes to an end.
pub unsubscribe_ends : (s : SubscriptionList) (topic : Text) → unsubscribe s topic ≢ stuck
unfolding unsubscribe
unsubscribe_ends s topic h = elim (Option-cases (position (λ t. t == topic) s.list)) [
  | inl missing ↦ cc (rw (missing, unsubscribe) at h)
  | inr (index, found) ↦
      removed_ends (is_empty (swap_remove s.list index)) s.current_index index
        (swap_remove s.list index) (sym (unsubscribe_found s.list s.current_index topic found) ∙ h)
]

-- A topic that has a tab is not refused.
pub unsubscribe_known :
    (s : SubscriptionList) (topic : Text) {x : SubscriptionError}
    → contains s.list topic ≡ true
    → unsubscribe s topic ≢ err x
unsubscribe_known s topic {x} h e = elim (Option-cases (position (λ t. t == topic) s.list)) [
  | inl missing ↦ position-known s.list topic h missing
  | inr (index, found) ↦
      reindexed (is_empty (swap_remove s.list index)) s.current_index index
        (swap_remove s.list index) (sym (unsubscribe_found s.list s.current_index topic found) ∙ e)
]
  where
    position-known :
        (list : List Text) (topic : Text)
        → contains list topic ≡ true
        → position (λ t. t == topic) list ≢ none
    position-known [] topic h e = cc
    position-known (y ∷ list) topic h e = ground (arith, position-known list topic)

    reindexed :
        (b : Bool) (c : Option ℕ) (index : ℕ) (list : List Text)
        → (reindex b c index >>= λ d. ok (tabs list d)) ≢ err x
    reindexed true c index list e = cc
    reindexed false none index list e = cc
    reindexed false (some current) index list e = ground arith
