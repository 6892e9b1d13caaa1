-- ===== src/TopicList/Remove.antt =====
-- What `unsubscribe` does on every branch.
use trithemius_p2p.Base.{
  ok-injective, ℕ, suc, ◌-◌, ◌<◌, ◌≤◌, ◌≡◌, ◌⊎◌, ◌↔◌, refl, sym, ◌∙◌, Text, text_eq, ◌>>=◌, Option,
  none, some, false, List, [], ◌∷◌, arith, length, is_empty, position, ◌==◌, Outcome, ok, err,
  panic, Option-cases, inl, inr,
}
use native.Mathlib.Decide.{ℕ_discrete, dec_lt}
use mathlib.Core.Path.{subst}
use trithemius_p2p.Subscriptions.{SubscriptionError, no_such_topic}
use trithemius_p2p.TopicList.{SubscriptionList, swap_remove, unsubscribe, reindex}
use trithemius_p2p.TopicList.SwapRemove.{length-swap_remove, position_bound}
use trithemius_p2p.TopicList.Select.{InRange, IsValid, tabs}

-- `unsubscribe` once the position is known.
abbrev pub removed : List Text → Option ℕ → ℕ → Outcome SubscriptionError SubscriptionList
removed list c index =
    let rest = swap_remove list index in reindex (is_empty rest) c index >>= λ d. ok (tabs rest d)

pub unsubscribe_found :
    (list : List Text) (c : Option ℕ) (topic : Text) {index : ℕ}
    → position (λ t. t == topic) list ≡ some index
    → unsubscribe (tabs list c) topic ≡ removed list c index
unfolding unsubscribe
unsubscribe_found list c topic h = rw (h, unsubscribe)

is_empty-eq-false {ℓ} : {A : Type ℓ} (xs : List A) → 0 < length xs → is_empty xs ≡ false
is_empty-eq-false [] h = absurd (omega arith)
is_empty-eq-false (x ∷ xs) h = refl

nil_of_length {ℓ} : {A : Type ℓ} (xs : List A) → length xs ≡ 0 → xs ≡ []
nil_of_length [] h = refl
nil_of_length (x ∷ xs) h = absurd (omega arith)

module _ (list : List Text) (current index : ℕ) (topic : Text)
    (found : position (λ t. t == topic) list ≡ some index) where
  abbrev rest : List Text
  rest = swap_remove list index

  index_bound : index < length list
  index_bound = position_bound (λ t. t == topic) list index found

  -- The only tab goes: nothing is selected any more.
  pub unsubscribe_only :
      length list ≡ 1 → unsubscribe (tabs list (some current)) topic ≡ ok (tabs [] none)
  unsubscribe_only one =
      let e : rest ≡ [] =
        nil_of_length rest (omega (arith, length-swap_remove list index index_bound)) in
      unsubscribe_found list (some current) topic found ∙ rw e

  -- A tab behind the selected one goes: the index stays.
  pub unsubscribe_behind :
      current < index → unsubscribe (tabs list (some current)) topic ≡ ok (tabs rest (some current))
  unsubscribe_behind lt =
      unsubscribe_found list (some current) topic found
      ∙ rw
          (is_empty-eq-false rest
            (omega (arith, length-swap_remove list index index_bound, index_bound)))
          (ground arith)

  -- The selected tab or one before it goes: the index goes down by one.
  pub unsubscribe_before :
      index ≤ current
      → 0 < current
      → current < length list
      → unsubscribe (tabs list (some current)) topic ≡ ok (tabs rest (some (current - 1)))
  unsubscribe_before le pos valid =
      unsubscribe_found list (some current) topic found
      ∙ rw
          (is_empty-eq-false rest
            (omega (arith, length-swap_remove list index index_bound, index_bound)))
          (ground arith)

  -- The first of several tabs goes while it is selected: the subtraction is below 0.
  pub unsubscribe_first_panics :
      current ≡ 0
      → 1 < length list
      → index ≡ 0
      → unsubscribe (tabs list (some current)) topic ≡ panic
  unsubscribe_first_panics c more i =
      unsubscribe_found list (some current) topic found
      ∙ rw
          (is_empty-eq-false rest
            (omega (arith, length-swap_remove list index index_bound, index_bound)))
          (ground arith)

-- A topic without a tab is refused by its name.
pub unsubscribe_missing :
    (s : SubscriptionList) (topic : Text)
    → position (λ t. t == topic) s.list ≡ none
    → unsubscribe s topic ≡ err (no_such_topic topic)
unfolding unsubscribe
unsubscribe_missing s topic missing = rw (missing, unsubscribe)

-- The cases of a removal, for a tab that is there.
unsubscribe_cases :
    (list : List Text) (current index : ℕ) (topic : Text)
    → position (λ t. t == topic) list ≡ some index
    → current < length list
    → ((s : SubscriptionList) × (unsubscribe (tabs list (some current)) topic ≡ ok s)
        × IsValid s
        × (suc (length s.list) ≡ length list)
        × ((0 < current) ⊎ (current < index) ⊎ (length list ≡ 1)))
      ⊎ ((unsubscribe (tabs list (some current)) topic ≡ panic)
          × (current ≡ 0)
          × (index ≡ 0)
          × (1 < length list))
unsubscribe_cases list current index topic found valid =
    let bound : index < length list = position_bound (λ t. t == topic) list index found in
    let size : length (swap_remove list index) ≡ length list - 1 =
      length-swap_remove list index bound in
    elim (ℕ_discrete (length list) 1) [
      | yes one ↦ inl (
        tabs [] none,
        unsubscribe_only list current index topic found one,
        refl,
        omega arith,
        inr (inr one),
      )
      | no several ↦ elim (dec_lt current index) [
        | yes behind ↦ inl (
          tabs (swap_remove list index) (some current),
          unsubscribe_behind list current index topic found behind,
          omega arith,
          omega arith,
          inr (inl behind),
        )
        | no before ↦ elim (dec_lt 0 current) [
          | yes pos ↦ inl (
            tabs (swap_remove list index) (some (current - 1)),
            unsubscribe_before list current index topic found (omega arith) pos valid,
            omega arith,
            omega arith,
            inl pos,
          )
          | no zero_ ↦ inr (
            unsubscribe_first_panics list current index topic found (omega arith) (omega arith)
                (omega arith),
            omega arith,
            omega arith,
            omega arith,
          )
        ]
      ]
    ]

-- From tabs whose index is in range, a removal that succeeds leaves one tab fewer and an index
-- that is again in range.
pub unsubscribe-IsValid :
    (s : SubscriptionList) (topic : Text) {s' : SubscriptionList}
    → IsValid s
    → unsubscribe s topic ≡ ok s'
    → IsValid s' × (suc (length s'.list) ≡ length s.list)
unsubscribe-IsValid s topic {s'} v h = on_tabs s.list s.current_index v h
  where
    found_ok :
        (list : List Text) (current index : ℕ)
        → current < length list
        → position (λ t. t == topic) list ≡ some index
        → unsubscribe (tabs list (some current)) topic ≡ ok s'
        → IsValid s' × (suc (length s'.list) ≡ length list)
    found_ok list current index valid found h =
        elim (unsubscribe_cases list current index topic found valid) [
          | inl (t, e, v, l, _) ↦
              let q : t ≡ s' = ok-injective (sym e ∙ h) in
              subst (λ u. IsValid u × (suc (length u.list) ≡ length list)) q (v, l)
          | inr (e, _, _, _) ↦ cc
        ]

    on_tabs :
        (list : List Text) (c : Option ℕ)
        → InRange c list
        → unsubscribe (tabs list c) topic ≡ ok s'
        → IsValid s' × (suc (length s'.list) ≡ length list)
    on_tabs [] c v h = cc (unsubscribe_missing (tabs [] c) topic refl)
    on_tabs (x ∷ list) none v h = cc
    on_tabs (x ∷ list) (some current) v h =
        elim (Option-cases (position (λ t. t == topic) (x ∷ list))) [
          | inl missing ↦ cc (unsubscribe_missing (tabs (x ∷ list) (some current)) topic missing)
          | inr (index, found) ↦ found_ok (x ∷ list) current index v found h
        ]

-- From valid tabs with one selected, the removal of a topic that has a tab panics exactly when its
-- tab is the first, is selected, and is not the only one.
pub unsubscribe_panics :
    (s : SubscriptionList) (topic : Text) (index current : ℕ)
    → IsValid s
    → s.current_index ≡ some current
    → position (λ t. t == topic) s.list ≡ some index
    → (unsubscribe s topic ≡ panic) ↔ ((current ≡ 0) × (index ≡ 0) × (1 < length s.list))
unsubscribe_panics s topic index current v e found = on_tabs s.list s.current_index v e found
  where
    on_tabs :
        (list : List Text) (c : Option ℕ)
        → InRange c list
        → c ≡ some current
        → position (λ t. t == topic) list ≡ some index
        → (unsubscribe (tabs list c) topic ≡ panic)
          ↔ ((current ≡ 0) × (index ≡ 0) × (1 < length list))
    on_tabs list none v e found = cc
    on_tabs list (some j) v e found =
        let q : j ≡ current = ground arith in
        elim (unsubscribe_cases list j index topic found v) [
          | inl (t, d, _, _, why) ↦ (λ p. cc, λ (z, i, l). ground arith)
          | inr (d, z, i, l) ↦ (λ _. (omega arith, i, l), λ _. d)
        ]
