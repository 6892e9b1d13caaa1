-- ===== src/TopicList/Tests.antt =====
-- Examples of the tabs.
use trithemius_p2p.Base.{
  ℕ, ◌<◌, ◌≡◌, ◌↔◌, refl, Text, codes, text_eq, ◌==◌, some, List, [], ◌∷◌, ok, panic, length,
  position, arith,
}
use trithemius_p2p.TopicList.{SubscriptionList, unsubscribe, next, prev}
use trithemius_p2p.TopicList.Select.{
  IsValid, tabs, next_times, next_times_lem, then_move, prev-next,
}
use trithemius_p2p.TopicList.Remove.{unsubscribe-IsValid, unsubscribe_panics}

abbrev topics : List Text
topics = codes "a" ∷ codes "b" ∷ codes "c" ∷ []

abbrev three_tabs : SubscriptionList
three_tabs = tabs topics (some 0)

three_tabs-IsValid : IsValid three_tabs
three_tabs-IsValid = omega arith

next_times_lem_example : next_times 5 (tabs topics (some 1)) ≡ some (tabs topics (some 0))
next_times_lem_example = next_times_lem topics 1 5 (omega arith)

prev-next_example :
    (then_move (next (tabs topics (some 2))) prev ≡ some (tabs topics (some 2)))
    × (then_move (prev (tabs topics (some 2))) next ≡ some (tabs topics (some 2)))
prev-next_example = prev-next topics 2 (omega arith)

second_removed :
    unsubscribe three_tabs (codes "b") ≡ ok (tabs (codes "a" ∷ codes "c" ∷ []) (some 0))
unfolding unsubscribe text_eq
second_removed = refl

unsubscribe-IsValid_example :
    IsValid (tabs (codes "a" ∷ codes "c" ∷ []) (some 0)) × (◌≡◌ {A = ℕ} 3 3)
unsubscribe-IsValid_example =
    unsubscribe-IsValid three_tabs (codes "b") three_tabs-IsValid second_removed

first_found : position (λ t. t == codes "a") topics ≡ some 0
unfolding text_eq
first_found = refl

unsubscribe_panics_example :
    (unsubscribe three_tabs (codes "a") ≡ panic)
    ↔ ((◌≡◌ {A = ℕ} 0 0) × (◌≡◌ {A = ℕ} 0 0) × (1 < length topics))
unsubscribe_panics_example =
    unsubscribe_panics three_tabs (codes "a") 0 0 three_tabs-IsValid refl first_found
