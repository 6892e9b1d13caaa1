-- ===== src/TopicList/Select.antt =====
-- Which tab is selected: the index is in range, and the two moves go round the tabs.
use trithemius_p2p.Base.{
  ℕ, zero, suc, ◌-◌, ◌+◌, ◌%◌, ◌<◌, ◌≡◌, refl, ◌∙◌, Text, text_eq, Option, none, some, true, List,
  [], ◌∷◌, ◌++◌, arith, ap, length, length-append, get_elem?, get_elem?_of_lt, get_elem?-append,
  is_empty, eqb, if◌then◌else◌,
}
use native.Mathlib.Nat.{mod-eq_of_lt, mod-add-mod, mod_self}
use native.Mathlib.Decide.{ℕ_discrete}
use trithemius_p2p.TopicList.{last_index, SubscriptionList, subscribe, current, next, prev}

-- No index for no tabs, and an index of one of the tabs otherwise.
abbrev pub InRange : Option ℕ → List Text → Type 0
InRange none list = is_empty list ≡ true
InRange (some index) list = index < length list

abbrev pub IsValid : SubscriptionList → Type 0
IsValid s = InRange s.current_index s.list

abbrev pub tabs : List Text → Option ℕ → SubscriptionList
tabs list current_index = record { list = list; current_index = current_index }

-- A new tab stands last and is selected.
pub subscribe-IsValid : (s : SubscriptionList) (topic : Text) → IsValid (subscribe s topic)
unfolding subscribe
subscribe-IsValid s topic = omega (arith, length-append s.list (topic ∷ []))

pub current-subscribe :
    (s : SubscriptionList) (topic : Text) → current (subscribe s topic) ≡ some topic
unfolding subscribe current
current-subscribe s topic =
    let e : length (s.list ++ topic ∷ []) - 1 ≡ length s.list =
      omega (arith, length-append s.list (topic ∷ [])) in
    rw e (get_elem?-append s.list [] topic)

last_index_of :
    (list : List Text) (index : ℕ) → index < length list → last_index list ≡ some (length list - 1)
last_index_of [] index v = absurd (omega arith)
last_index_of (x ∷ list) index v = refl

-- A move that ends, in valid tabs again, and changes no tab.
pub record Moves (list : List Text) (moved : Option SubscriptionList) : Type 0 where
  pub after : SubscriptionList
  pub done : moved ≡ some after
  pub same_list : after.list ≡ list
  pub valid : IsValid after

tabs-Moves :
    (list : List Text) (c : Option ℕ) {moved : Option SubscriptionList}
    → moved ≡ some (tabs list c)
    → InRange c list
    → Moves list moved
tabs-Moves list c e v = record { after = tabs list c; done = e; same_list = refl; valid = v }

abbrev next_of : List Text → ℕ → ℕ
next_of list index = if eqb index (length list - 1) then 0 else index + 1

next_lem :
    (list : List Text) (index : ℕ)
    → index < length list
    → next (tabs list (some index)) ≡ some (tabs list (some (next_of list index)))
unfolding next
next_lem list index v = rw (last_index_of list index v) (ground arith)

abbrev prev_of : List Text → ℕ → ℕ
prev_of list index = if eqb index 0 then length list - 1 else index - 1

prev_lem :
    (list : List Text) (index : ℕ)
    → index < length list
    → prev (tabs list (some index)) ≡ some (tabs list (some (prev_of list index)))
unfolding prev
prev_lem list index v = rw (last_index_of list index v) (ground arith)

next_in : (list : List Text) (c : Option ℕ) → InRange c list → Moves list (next (tabs list c))
unfolding next
next_in list none v = tabs-Moves list none refl v
next_in list (some index) v =
    tabs-Moves list (some (next_of list index)) (next_lem list index v) (ground arith)

prev_in : (list : List Text) (c : Option ℕ) → InRange c list → Moves list (prev (tabs list c))
unfolding prev
prev_in list none v = tabs-Moves list none refl v
prev_in list (some index) v =
    tabs-Moves list (some (prev_of list index)) (prev_lem list index v) (ground arith)

-- From valid tabs, neither move panics.
pub next-Moves : (s : SubscriptionList) → IsValid s → Moves s.list (next s)
next-Moves s v = next_in s.list s.current_index v

pub prev-Moves : (s : SubscriptionList) → IsValid s → Moves s.list (prev s)
prev-Moves s v = prev_in s.list s.current_index v

-- A move after a move.
abbrev pub then_move :
    Option SubscriptionList → (SubscriptionList → Option SubscriptionList) → Option SubscriptionList
then_move none move = none
then_move (some s) move = move s

-- From a tab that is selected, a move to the next tab and one to the previous tab undo one
-- another, in either order, without a panic.
pub prev-next :
    (list : List Text) (index : ℕ)
    → index < length list
    → (then_move (next (tabs list (some index))) prev ≡ some (tabs list (some index)))
      × (then_move (prev (tabs list (some index))) next ≡ some (tabs list (some index)))
prev-next list index v = (
  ap (λ o. then_move o prev) (next_lem list index v)
      ∙ prev_lem list (next_of list index) (ground arith)
      ∙ ap (λ j. some (tabs list (some j))) (ground arith),
  ap (λ o. then_move o next) (prev_lem list index v)
      ∙ next_lem list (prev_of list index) (ground arith)
      ∙ ap (λ j. some (tabs list (some j))) (ground arith),
)

-- `next` pressed `k` times.
abbrev pub next_times : ℕ → SubscriptionList → Option SubscriptionList
next_times zero s = some s
next_times (suc k) s = then_move (next_times k s) next

next_index :
    (list : List Text) (j : ℕ)
    → j < length list
    → next (tabs list (some j)) ≡ some (tabs list (some ((j + 1) % length list)))
next_index list j v =
    next_lem list j v
    ∙ ap (λ i. some (tabs list (some i)))
        (elim (ℕ_discrete j (length list - 1)) [
          | yes last ↦
              let e : (j + 1) % length list ≡ 0 =
                (let f : j + 1 ≡ length list = omega arith in rw f (mod_self (length list))) in
              rw e (ground arith)
          | no inner ↦
              let e : (j + 1) % length list ≡ j + 1 = mod-eq_of_lt (omega arith) in
              rw e (ground arith)
        ])

-- From tab i of n tabs, k moves to the next tab select tab (i + k) mod n, change no tab, and do
-- not panic.
pub next_times_lem :
    (list : List Text) (i k : ℕ)
    → i < length list
    → next_times k (tabs list (some i)) ≡ some (tabs list (some ((i + k) % length list)))
next_times_lem list i zero v =
    let e : (i + 0) % length list ≡ i =
      (let f : i + 0 ≡ i = omega arith in rw f (mod-eq_of_lt v)) in
    rw e
next_times_lem list i (suc k) v = rw (next_times_lem list i k v) (
    next_index list ((i + k) % length list) (grind arith)
    ∙ ap (λ j. some (tabs list (some j)))
        (mod-add-mod (i + k) (length list) 1 ∙ ap (λ m. m % length list) (omega arith)))

-- With valid tabs of which one is selected, `current` is its topic, which has a tab.
pub current-some :
    (s : SubscriptionList) (index : ℕ)
    → IsValid s
    → s.current_index ≡ some index
    → (topic : Text) × (current s ≡ some topic) × (get_elem? s.list index ≡ some topic)
unfolding current
current-some s index v e =
    let (topic, h) = get_elem?_of_lt s.list index (rw e at v) in (topic, rw e h, h)
