-- ===== src/Subscriptions/Laws.antt =====
-- What src/subscriptions.rs keeps: one entry for each topic under its own name, with at most the
-- last 200 messages in the order of arrival.
use trithemius_p2p.Base.{
  ok-injective, ℕ, ◌-◌, ◌≤◌, ◌≡◌, refl, sym, ◌∙◌, Text, text_eq, ◌==◌, none, some, List, [], ◌∷◌,
  ◌++◌, arith, Outcome, suc, length-append, ◌>>=◌, ap, append-nil, append_assoc, ok, err, length,
  length-drop, if◌then◌else◌, Option-cases, inl, inr,
}
use mathlib.Core.Path.{subst}
use native.Mathlib.Decide.{dec_le}
use mathlib.Core.Option.{some-injective}
use trithemius_p2p.Base.Map.{lookup, insert, lookup-insert, lookup-erase}
use trithemius_p2p.Subscriptions.Queue.{CircularQueue, IsLawful, keep_last}
use trithemius_p2p.Subscriptions.{
  SubscriptionError, no_such_topic, ChatMessage, Subscription, Subscriptions, max_messages,
  new_subscription, push_message, add, remove, get, add_message,
}

module _ (Q : CircularQueue) (L : IsLawful Q ChatMessage) where
  -- Every entry stands under its own topic, has room for 200 messages and holds no more.
  pub record IsValidAt (topic : Text) (s : Subscription Q) : Type 0 where
    pub own_topic : s.topic ≡ topic
    pub room : Q.capacity s.messages ≡ max_messages
    pub bounded : length (Q.asc_iter s.messages) ≤ max_messages

  abbrev pub IsValid : Subscriptions Q → Type 0
  IsValid m = (topic : Text) (s : Subscription Q) → lookup topic m ≡ some s → IsValidAt topic s

  length-keep_last : (n : ℕ) (xs : List ChatMessage) → length (keep_last n xs) ≤ n
  length-keep_last n xs = omega (arith, length-drop (length xs - n) xs)

  pub empty-IsValid : IsValid []
  unfolding lookup
  empty-IsValid topic s h = cc

  new_subscription-IsValidAt : (topic : Text) → IsValidAt topic (new_subscription Q topic)
  new_subscription-IsValidAt topic = record {
    own_topic = refl;
    room = L.capacity-with_capacity max_messages;
    bounded = rw (L.asc_iter-with_capacity max_messages) (omega arith);
  }

  push_message-IsValidAt :
      (topic : Text) (s : Subscription Q) (m : ChatMessage)
      → IsValidAt topic s
      → IsValidAt topic (push_message Q s m)
  push_message-IsValidAt topic s m v = record {
    own_topic = v.own_topic;
    room = L.capacity-push s.messages m ∙ v.room;
    bounded =
        rw (L.asc_iter-push, v.room)
          (length-keep_last max_messages (Q.asc_iter s.messages ++ m ∷ []));
  }

  insert-IsValid :
      (k : Text) (s : Subscription Q) (m : Subscriptions Q)
      → IsValidAt k s
      → IsValid m
      → IsValid (insert k s m)
  insert-IsValid k s m vs vm topic t h = elim (text_eq.dec topic k) [
    | yes same ↦
        let e : some s ≡ some t = ground (arith, lookup-insert topic k s m) in
        subst (IsValidAt topic) (some-injective s t e) (subst (λ j. IsValidAt j s) (sym same) vs)
    | no differ ↦ vm topic t (ground (arith, lookup-insert topic k s m))
  ]

  -- Every operation keeps the map well formed; `add` on a topic that is there starts it afresh.
  pub add-IsValid : (m : Subscriptions Q) (topic : Text) → IsValid m → IsValid (add Q m topic)
  unfolding add
  add-IsValid m topic v = insert-IsValid topic _ m (new_subscription-IsValidAt topic) v

  pub remove-IsValid :
      (m : Subscriptions Q) (topic : Text) → IsValid m → IsValid (remove Q m topic).0
  unfolding remove
  remove-IsValid m k v topic s h = v topic s (ground (arith, lookup-erase topic k m))

  -- A message that is accepted keeps the map well formed: every entry has its key as its topic, a
  -- queue for 200 messages, and at most 200 messages in it.
  pub add_message-IsValid :
      (m : Subscriptions Q) (topic : Text) (message : ChatMessage) {m' : Subscriptions Q}
      → IsValid m
      → add_message Q m topic message ≡ ok m'
      → IsValid m'
  unfolding add_message
  add_message-IsValid m topic message v h = elim (Option-cases (lookup topic m)) [
    | inl missing ↦ cc (rw (missing, add_message) at h)
    | inr (s, found) ↦
        subst IsValid (ok-injective (rw (found, add_message) at h))
          (insert-IsValid topic _ m (push_message-IsValidAt topic s message (v topic s found)) v)
  ]

-- A message to a topic that is in the map is accepted and pushed onto that topic's queue, and
-- every other topic keeps its entry.
pub get-add_message :
    (Q : CircularQueue) (m : Subscriptions Q) (topic : Text) (message : ChatMessage) (other : Text)
    {s : Subscription Q}
    → get Q m topic ≡ some s
    → (m' : Subscriptions Q) × (add_message Q m topic message ≡ ok m')
      × (get Q m' other
          ≡ (if other == topic then some (push_message Q s message) else get Q m other))
unfolding add_message get
get-add_message Q m topic message other {s} found = (
  insert topic (push_message Q s message) m,
  rw (found, add_message),
  lookup-insert other topic (push_message Q s message) m,
)

-- A message for any other topic is refused with the topic's name.
pub add_message_missing :
    (Q : CircularQueue) (m : Subscriptions Q) (topic : Text) (message : ChatMessage)
    → get Q m topic ≡ none
    → add_message Q m topic message ≡ err (no_such_topic topic)
unfolding add_message get
add_message_missing Q m topic message missing = rw (missing, add_message)

-- The messages sent to a topic, in a row.
abbrev pub add_messages :
    (Q : CircularQueue)
    → Subscriptions Q
    → Text
    → List ChatMessage
    → Outcome SubscriptionError (Subscriptions Q)
add_messages Q m topic [] = ok m
add_messages Q m topic (x ∷ xs) = add_message Q m topic x >>= λ m'. add_messages Q m' topic xs

keep_last_short : (n : ℕ) (xs : List ChatMessage) → length xs ≤ n → keep_last n xs ≡ xs
keep_last_short n xs h = let e : length xs - n ≡ 0 = omega arith in rw e

keep_last_cons :
    (n : ℕ) (x : ChatMessage) (xs : List ChatMessage)
    → n ≤ length xs
    → keep_last n (x ∷ xs) ≡ keep_last n xs
keep_last_cons n x xs h = let e : suc (length xs) - n ≡ suc (length xs - n) = omega arith in rw e

-- Dropping the oldest early makes no difference.
keep_last-keep_last :
    (n : ℕ) (xs ys : List ChatMessage) → keep_last n (keep_last n xs ++ ys) ≡ keep_last n (xs ++ ys)
keep_last-keep_last n [] ys = ap (λ zs. keep_last n (zs ++ ys)) (keep_last_short n [] (omega arith))
keep_last-keep_last n (x ∷ xs) ys = elim (dec_le n (length xs)) [
  | yes long ↦
      ap (λ zs. keep_last n (zs ++ ys)) (keep_last_cons n x xs long)
      ∙ keep_last-keep_last n xs ys
      ∙ sym (keep_last_cons n x (xs ++ ys) (omega (arith, length-append xs ys)))
  | no short ↦ ap (λ zs. keep_last n (zs ++ ys)) (keep_last_short n (x ∷ xs) (omega arith))
]

module _ (Q : CircularQueue) (L : IsLawful Q ChatMessage) where
  -- The queue of a topic shows the last 200 messages of the history.
  pub record Shows (topic : Text) (history : List ChatMessage) (m : Subscriptions Q) : Type 0 where
    pub entry : Subscription Q
    pub found : get Q m topic ≡ some entry
    pub room : Q.capacity entry.messages ≡ max_messages
    pub shown : Q.asc_iter entry.messages ≡ keep_last max_messages history

  pub add-Shows : (m : Subscriptions Q) (topic : Text) → Shows topic [] (add Q m topic)
  unfolding add get
  add-Shows m topic = record {
    entry = new_subscription Q topic;
    found = ground (arith, lookup-insert topic topic (new_subscription Q topic) m);
    room = L.capacity-with_capacity max_messages;
    shown = L.asc_iter-with_capacity max_messages;
  }

  add_message-Shows :
      (m : Subscriptions Q) (topic : Text) (x : ChatMessage) (history : List ChatMessage)
      → Shows topic history m
      → (m' : Subscriptions Q) × (add_message Q m topic x ≡ ok m')
        × Shows topic (history ++ x ∷ []) m'
  unfolding get
  add_message-Shows m topic x history h =
      let (m', done, looked) = get-add_message Q m topic x topic h.found in
      (
        m',
        done,
        record {
          entry = push_message Q h.entry x;
          found = ground (arith, looked);
          room = L.capacity-push h.entry.messages x ∙ h.room;
          shown =
              L.asc_iter-push h.entry.messages x
              ∙ rw (h.room, h.shown) (keep_last-keep_last max_messages history (x ∷ []));
        },
      )

  -- Any number of messages to a topic that is in the map are all accepted, and the topic's queue
  -- then shows the last 200 of all that was sent since the topic was added, in the order of
  -- arrival.
  pub add_messages-Shows :
      (m : Subscriptions Q) (topic : Text) (xs history : List ChatMessage)
      → Shows topic history m
      → (m' : Subscriptions Q) × (add_messages Q m topic xs ≡ ok m')
        × Shows topic (history ++ xs) m'
  add_messages-Shows m topic [] history h = (m, refl, rw append-nil h)
  add_messages-Shows m topic (x ∷ xs) history h =
      let (m', done, h') = add_message-Shows m topic x history h in
      let (m'', all_done, h'') = add_messages-Shows m' topic xs (history ++ x ∷ []) h' in
      (m'', rw done all_done, rw append_assoc at h'')
