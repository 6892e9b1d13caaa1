-- ===== src/View/Users.antt =====
-- The numbers of users.
use trithemius_p2p.Base.{ℕ, ◌<◌, ◌+◌, ◌≡◌, refl, ◌∙◌, some, Eq, ==_iff, arith}
use trithemius_p2p.Base.Map.{lookup, insert, lookup-nil, lookup-insert}
use trithemius_p2p.Subscriptions.Queue.{CircularQueue}
use trithemius_p2p.View.{View, new, new_user, get_user_id}

module _ (Q : CircularQueue) {PeerId : Type 0} ⦃peer_eq : Eq PeerId⦄ where
  -- No number is given twice, and all that were given are below the next one.
  pub record IsValid (v : View Q PeerId) : Type 0 where
    pub below : (p : PeerId) (id : ℕ) → lookup p v.user_ids ≡ some id → id < v.last_user_id
    pub distinct :
        (p q : PeerId) (id : ℕ)
        → lookup p v.user_ids ≡ some id
        → lookup q v.user_ids ≡ some id
        → p ≡ q

  pub new-IsValid : IsValid (new Q)
  new-IsValid = record {
    below = λ p id h. cc (lookup-nil p);
    distinct = λ p q id h h'. cc (lookup-nil p);
  }

  -- Where no number of a user was given twice and all are below the next one, a new user gets the
  -- next number, and this stays so.
  pub new_user-IsValid :
      (peer : PeerId) (v : View Q PeerId)
      → IsValid v
      → IsValid (new_user Q peer v)
        × (get_user_id Q (some peer) (new_user Q peer v) ≡ some v.last_user_id)
  unfolding new_user get_user_id
  new_user-IsValid peer v h = (record { below = below; distinct = distinct }, own)
    where
      own : lookup peer (insert peer v.last_user_id v.user_ids) ≡ some v.last_user_id
      own = lookup-insert peer peer v.last_user_id v.user_ids ∙ rw ((==_iff peer peer).1 refl) refl

      below :
          (p : PeerId) (id : ℕ)
          → lookup p (insert peer v.last_user_id v.user_ids) ≡ some id
          → id < v.last_user_id + 1
      below p id e = ground (arith, lookup-insert p peer v.last_user_id v.user_ids, h.below p id)

      distinct :
          (p q : PeerId) (id : ℕ)
          → lookup p (insert peer v.last_user_id v.user_ids) ≡ some id
          → lookup q (insert peer v.last_user_id v.user_ids) ≡ some id
          → p ≡ q
      distinct p q id e e' = ground (
        arith,
        lookup-insert p peer v.last_user_id v.user_ids,
        lookup-insert q peer v.last_user_id v.user_ids,
        h.below p id,
        h.below q id,
        h.distinct p q id,
      )
