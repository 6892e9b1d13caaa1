-- ===== src/Util/Split.antt =====
-- What the three searches of src/util.rs find and keep.
use trithemius_p2p.Base.{
  ℕ, suc, ◌+◌, ◌≡◌, refl, sym, ap, ◌∙◌, ◌⊎◌, inl, inr, Bool, true, false, none, some, List, [], ◌∷◌,
  ◌++◌, arith, find, take, drop, Bool-cases, All, length,
}
use trithemius_p2p.Util.{
  Protocol, Multiaddr, nil, cons, iter, collect, enumerate, multiaddr_get, multiaddr_split,
  multiaddr_replace, push, parts_at, chain,
}

pub iter-collect : (ps : List Protocol) → iter (collect ps) ≡ ps
iter-collect [] = refl
iter-collect (p ∷ ps) = ap (p ∷◌) (iter-collect ps)

pub collect-iter : (a : Multiaddr) → collect (iter a) ≡ a
collect-iter nil = refl
collect-iter (cons p a) = ap (cons p) (collect-iter a)

pub iter-push : (a : Multiaddr) (q : Protocol) → iter (push a q) ≡ iter a ++ q ∷ []
iter-push nil q = refl
iter-push (cons p a) q = ap (p ∷◌) (iter-push a q)

-- A test on the protocol alone, as the program's predicates `|(_, p)|` are.
abbrev pub on_protocol : (Protocol → Bool) → ℕ × Protocol → Bool
on_protocol test (i, p) = test p

-- `p` is the first match, between `before` and `after`.
pub record FirstMatch (test : Protocol → Bool) (ps : List Protocol) (before : List Protocol)
    (p : Protocol) (after : List Protocol) : Type 0 where
  pub parts : ps ≡ before ++ p ∷ after
  pub hit : test p ≡ true
  pub misses : All (λ q. test q ≡ false) before

module _ (test : Protocol → Bool) where
  abbrev pub NoMatch : List Protocol → Type 0
  NoMatch = All (λ q. test q ≡ false)

  pub match_cases :
      (ps : List Protocol)
      → NoMatch ps
        ⊎ ((before : List Protocol) × (p : Protocol) × (after : List Protocol) × FirstMatch test ps
              before p after)
  match_cases [] = inl tt
  match_cases (q ∷ ps) = elim (Bool-cases (test q)) [
    | inl hit ↦ inr ([], q, ps, record { parts = refl; hit = hit; misses = tt })
    | inr miss ↦ elim (match_cases ps) [
      | inl none_ ↦ inl (miss, none_)
      | inr (b, p, a, m) ↦ inr (
        q ∷ b,
        p,
        a,
        record { parts = ap (q ∷◌) m.parts; hit = m.hit; misses = (miss, m.misses) },
      )
    ]
  ]

  find_first :
      (before : List Protocol) (p : Protocol) (after : List Protocol)
      → NoMatch before
      → test p ≡ true
      → find test (before ++ p ∷ after) ≡ some p
  find_first [] p after m h = ground arith
  find_first (q ∷ before) p after m h = ground (arith, find_first before p after m.1 h)

  pub find-none : (ps : List Protocol) → NoMatch ps → find test ps ≡ none
  find-none [] m = refl
  find-none (q ∷ ps) m = ground (arith, find-none ps m.1)

  find-enumerate_first :
      (k : ℕ) (before : List Protocol) (p : Protocol) (after : List Protocol)
      → NoMatch before
      → test p ≡ true
      → find (on_protocol test) (enumerate k (before ++ p ∷ after)) ≡ some (k + length before, p)
  find-enumerate_first k [] p after m h = ground arith
  find-enumerate_first k (q ∷ before) p after m h =
      ground (arith, find-enumerate_first (suc k) before p after m.1 h)

  find-enumerate-none :
      (k : ℕ) (ps : List Protocol) → NoMatch ps → find (on_protocol test) (enumerate k ps) ≡ none
  find-enumerate-none k [] m = refl
  find-enumerate-none k (q ∷ ps) m = ground (arith, find-enumerate-none (suc k) ps m.1)

take-length-append {ℓ} : {A : Type ℓ} (xs ys : List A) → take (length xs) (xs ++ ys) ≡ xs
take-length-append [] ys = refl
take-length-append (x ∷ xs) ys = ap (x ∷◌) (take-length-append xs ys)

drop-suc-length-append {ℓ} :
    {A : Type ℓ} (xs ys : List A) (y : A) → drop (suc (length xs)) (xs ++ y ∷ ys) ≡ ys
drop-suc-length-append [] ys y = refl
drop-suc-length-append (x ∷ xs) ys y = drop-suc-length-append xs ys y

module _ (test : Protocol → Bool) (addr : Multiaddr) where
  -- The search gives the first protocol that passes the test, wherever it stands.
  pub multiaddr_get_first :
      {before : List Protocol} {p : Protocol} {after : List Protocol}
      → FirstMatch test (iter addr) before p after
      → multiaddr_get addr test ≡ some p
  unfolding multiaddr_get
  multiaddr_get_first {before} {p} {after} m =
      rw m.parts (find_first test before p after m.misses m.hit)

  pub multiaddr_get-none : NoMatch test (iter addr) → multiaddr_get addr test ≡ none
  unfolding multiaddr_get
  multiaddr_get-none = find-none test (iter addr)

  split_parts :
      {before : List Protocol} {p : Protocol} {after : List Protocol}
      → FirstMatch test (iter addr) before p after
      → parts_at (iter addr) (some (length before, p)) ≡ some (collect before, p, collect after)
  split_parts {before} {p} {after} m =
      rw (m.parts, take-length-append before (p ∷ after), drop-suc-length-append before after p)

  -- Where the address is some protocols that fail the test, one that passes it and others, the
  -- split returns just these three parts.
  pub multiaddr_split_first :
      {before : List Protocol} {p : Protocol} {after : List Protocol}
      → FirstMatch test (iter addr) before p after
      → multiaddr_split addr (on_protocol test) ≡ some (collect before, p, collect after)
  unfolding multiaddr_split
  multiaddr_split_first {before} {p} {after} m =
      ap (parts_at (iter addr)) (
        ap (λ ps. find (on_protocol test) (enumerate 0 ps)) m.parts
        ∙ find-enumerate_first test 0 before p after m.misses m.hit
        ∙ ap (λ j. some (j, p)) from_zero)
      ∙ split_parts m
    where
      from_zero : 0 + length before ≡ length before
      from_zero = omega arith

  pub multiaddr_split-none :
      NoMatch test (iter addr) → multiaddr_split addr (on_protocol test) ≡ none
  unfolding multiaddr_split
  multiaddr_split-none m = ap (parts_at (iter addr)) (find-enumerate-none test 0 (iter addr) m)

  -- Whatever the split returns is the address cut at its first match: the prefix, the protocol and
  -- the suffix put together are the address, the protocol passes the test, and no protocol of the
  -- prefix does.
  pub multiaddr_split-FirstMatch :
      (prefix suffix : Multiaddr) (p : Protocol)
      → multiaddr_split addr (on_protocol test) ≡ some (prefix, p, suffix)
      → FirstMatch test (iter addr) (iter prefix) p (iter suffix)
  multiaddr_split-FirstMatch prefix suffix p h = elim (match_cases test (iter addr)) [
    | inl m ↦ cc (multiaddr_split-none m)
    | inr (b, q, a, m) ↦
        let e : some (prefix, p, suffix) ≡ some (collect b, q, collect a) =
          sym h ∙ multiaddr_split_first m in
        rw (prefix_of e, proto_of e, suffix_of e, iter-collect, iter-collect) m
  ]
    where
      prefix_of : {x y : Multiaddr × Protocol × Multiaddr} → some x ≡ some y → x.0 ≡ y.0
      prefix_of e = cc

      proto_of : {x y : Multiaddr × Protocol × Multiaddr} → some x ≡ some y → x.1 ≡ y.1
      proto_of e = cc

      suffix_of : {x y : Multiaddr × Protocol × Multiaddr} → some x ≡ some y → x.2 ≡ y.2
      suffix_of e = cc

  -- Where the address is some protocols that fail the test, one that passes it and others, the
  -- replacement comes to stand in the place of the one, between all the others.
  pub multiaddr_replace_first :
      (replacement : Multiaddr) {before : List Protocol} {p : Protocol} {after : List Protocol}
      → FirstMatch test (iter addr) before p after
      → multiaddr_replace addr (on_protocol test) replacement
        ≡ some (collect (before ++ (iter replacement ++ after)))
  unfolding multiaddr_replace
  multiaddr_replace_first r m =
      ap (chain r) (multiaddr_split_first m) ∙ rw (iter-collect, iter-collect)

  pub multiaddr_replace-none :
      (replacement : Multiaddr)
      → NoMatch test (iter addr)
      → multiaddr_replace addr (on_protocol test) replacement ≡ none
  unfolding multiaddr_replace
  multiaddr_replace-none r m = ap (chain r) (multiaddr_split-none m)
