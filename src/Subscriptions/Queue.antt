-- ===== src/Subscriptions/Queue.antt =====
-- The package `circular-queue`, as far as the program calls it, with what it documents: items are
-- listed in the order of insertion, and a push onto a full queue drops the oldest.
use trithemius_p2p.Base.{ℕ, ◌-◌, ◌≡◌, List, [], ◌∷◌, ◌++◌, length, drop, refl}

-- The last `n` items.
abbrev pub keep_last {ℓ} : {A : Type ℓ} → ℕ → List A → List A
keep_last n xs = drop (length xs - n) xs

pub record CircularQueue : Type 1 where
  pub Queue : Type 0 → Type 0
  pub with_capacity : {A : Type 0} → ℕ → Queue A
  pub push : {A : Type 0} → Queue A → A → Queue A
  pub asc_iter : {A : Type 0} → Queue A → List A
  pub capacity : {A : Type 0} → Queue A → ℕ

-- The documented behaviour, for the messages of one type.
pub record IsLawful (Q : CircularQueue) (A : Type 0) : Type 0 where
  pub capacity-with_capacity : (n : ℕ) → Q.capacity (Q.with_capacity {A = A} n) ≡ n
  pub asc_iter-with_capacity : (n : ℕ) → Q.asc_iter (Q.with_capacity {A = A} n) ≡ []
  pub capacity-push : (q : Q.Queue A) (x : A) → Q.capacity (Q.push q x) ≡ Q.capacity q
  pub asc_iter-push :
      (q : Q.Queue A) (x : A)
      → Q.asc_iter (Q.push q x) ≡ keep_last (Q.capacity q) (Q.asc_iter q ++ x ∷ [])

-- A queue as its capacity and its items meets the documentation.
pub record ListQueue (A : Type 0) : Type 0 where
  pub size : ℕ
  pub items : List A

abbrev pub list_queue : CircularQueue
list_queue = record {
  Queue = ListQueue;
  with_capacity = λ n. record { size = n; items = [] };
  push = λ q x. record { size = q.size; items = keep_last q.size (q.items ++ x ∷ []) };
  asc_iter = λ q. q.items;
  capacity = λ q. q.size;
}

pub list_queue-IsLawful : (A : Type 0) → IsLawful list_queue A
list_queue-IsLawful A = record {
  capacity-with_capacity = λ n. refl;
  asc_iter-with_capacity = λ n. refl;
  capacity-push = λ q x. refl;
  asc_iter-push = λ q x. refl;
}
