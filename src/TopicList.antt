-- ===== src/TopicList.antt =====
-- `SubscriptionList` of src/bin/trithemius-term/ui.rs: the tabs of the chat window. Arithmetic on
-- `usize` is checked, as in a debug build: a subtraction below 0 panics.
pub mod Select
pub mod SwapRemove
pub mod Remove
pub mod Membership
mod Tests
use trithemius_p2p.Base.{
  ℕ, suc, ◌-◌, ◌+◌, Text, text_eq, Option, none, some, Bool, true, false, List, [], ◌∷◌, ◌++◌,
  Outcome, ok, err, panic, ◌>>=◌, length, get_elem?, set, take, position, is_empty, ◌==◌, contains,
  eqb, leb, if◌then◌else◌,
}
use trithemius_p2p.Subscriptions.{SubscriptionError, no_such_topic}

pub record SubscriptionList : Type 0 where
  pub list : List Text
  pub current_index : Option ℕ

abbrev pub new : SubscriptionList
new = record { list = []; current_index = none }

unfoldable pub has_topic : SubscriptionList → Text → Bool
has_topic s topic = contains s.list topic

unfoldable pub subscribe : SubscriptionList → Text → SubscriptionList
subscribe s topic =
    let list = s.list ++ topic ∷ [] in
    record { list = list; current_index = some (length list - 1) }

-- `Vec::swap_remove`: the last element takes the place of the one that goes.
unfoldable pub swap_remove : {A : Type 0} → List A → ℕ → List A
swap_remove xs i = elim (get_elem? xs (length xs - 1)) [
  | none ↦ xs
  | some last ↦ take (length xs - 1) (set xs i last)
]

-- `index - 1` in checked arithmetic
abbrev pub checked_pred {ℓ} : {E : Type ℓ} → ℕ → Outcome E ℕ
checked_pred n = if eqb n 0 then panic else ok (n - 1)

-- The index after the entry at `index` went; `is_empty` is asked of the list after the removal.
abbrev pub reindex : Bool → Option ℕ → ℕ → Outcome SubscriptionError (Option ℕ)
reindex true current index = ok none
reindex false none index = panic
reindex false (some current) index =
    if leb index current then (checked_pred current >>= λ c. ok (some c)) else ok (some current)

unfoldable pub unsubscribe : SubscriptionList → Text → Outcome SubscriptionError SubscriptionList
unfolding swap_remove
unsubscribe s topic = elim (position (λ t. t == topic) s.list) [
  | some index ↦
      let list = swap_remove s.list index in
      reindex (is_empty list) s.current_index index >>= λ c.
      ok (record { list = list; current_index = c })
  | none ↦ err (no_such_topic topic)
]

unfoldable pub current : SubscriptionList → Option Text
current s = elim s.current_index [ some index ↦ get_elem? s.list index | none ↦ none ]

-- `len() - 1` in checked arithmetic
abbrev pub last_index : List Text → Option ℕ
last_index list = if is_empty list then none else some (length list - 1)

-- Both moves give the new state, `none` for a panic; what they return is `current` of it.
unfoldable pub next : SubscriptionList → Option SubscriptionList
next s = elim s.current_index [
  | some index ↦ elim (last_index s.list) [
    | some last ↦ some (
        if eqb index last
        then record s { current_index = some 0 }
        else record s { current_index = some (index + 1) })
    | none ↦ none
  ]
  | none ↦ some s
]

unfoldable pub prev : SubscriptionList → Option SubscriptionList
prev s = elim s.current_index [
  | some index ↦
      if eqb index 0
      then elim (last_index s.list) [
        | some last ↦ some (record s { current_index = some last })
        | none ↦ none
      ]
      else some (record s { current_index = some (index - 1) })
  | none ↦ some s
]
