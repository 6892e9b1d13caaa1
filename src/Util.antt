-- ===== src/Util.antt =====
-- src/util.rs, and the addresses that the whole program passes around: a `Multiaddr` is a sequence
-- of protocols. The protocols that the program names have a constructor each, all others share one.
pub mod Split
mod Tests
use trithemius_p2p.Base.{
  ℕ, suc, Text, Option, none, some, Bool, true, false, List, [], ◌∷◌, ◌++◌, find, take, drop,
}

-- The 35 bytes of the hash, and the port.
pub record Onion3Addr : Type 0 where
  pub hash : Text
  pub port : ℕ

mutual
  pub data Protocol : Type 0 where
    ip4 ip6 : ℕ → Protocol
    tcp udp : ℕ → Protocol
    dns dns4 dns6 : Text → Protocol
    onion3 : Onion3Addr → Protocol
    p2p unix : Text → Protocol
    tor http : Protocol
    socks5 : Multiaddr → Protocol
    other : Text → Protocol

  pub data Multiaddr : Type 0 where
    nil : Multiaddr
    cons : Protocol → Multiaddr → Multiaddr

-- `addr.iter()` and `.collect::<Multiaddr>()`
abbrev pub iter : Multiaddr → List Protocol
iter nil = []
iter (cons p a) = p ∷ iter a

abbrev pub collect : List Protocol → Multiaddr
collect [] = nil
collect (p ∷ ps) = cons p (collect ps)

-- `addr.push(p)`, `addr.is_empty()`
abbrev pub push : Multiaddr → Protocol → Multiaddr
push nil q = cons q nil
push (cons p a) q = cons p (push a q)

abbrev pub is_empty_addr : Multiaddr → Bool
is_empty_addr nil = true
is_empty_addr (cons p a) = false

unfoldable pub multiaddr_get : Multiaddr → (Protocol → Bool) → Option Protocol
multiaddr_get addr predicate = find predicate (iter addr)

-- `enumerate` from an index on
abbrev pub enumerate : ℕ → List Protocol → List (ℕ × Protocol)
enumerate i [] = []
enumerate i (p ∷ ps) = (i, p) ∷ enumerate (suc i) ps

-- The body of the `if let`: the parts around the index that was found.
abbrev pub parts_at :
    List Protocol → Option (ℕ × Protocol) → Option (Multiaddr × Protocol × Multiaddr)
parts_at ps none = none
parts_at ps (some (i, proto)) = some (collect (take i ps), proto, collect (drop (suc i) ps))

unfoldable pub multiaddr_split :
    Multiaddr → (ℕ × Protocol → Bool) → Option (Multiaddr × Protocol × Multiaddr)
multiaddr_split addr predicate = parts_at (iter addr) (find predicate (enumerate 0 (iter addr)))

abbrev pub chain : Multiaddr → Option (Multiaddr × Protocol × Multiaddr) → Option Multiaddr
chain replacement none = none
chain replacement (some (prefix, proto, suffix)) =
    some (collect (iter prefix ++ (iter replacement ++ iter suffix)))

unfoldable pub multiaddr_replace : Multiaddr → (ℕ × Protocol → Bool) → Multiaddr → Option Multiaddr
unfolding multiaddr_split
multiaddr_replace addr predicate replacement = chain replacement (multiaddr_split addr predicate)
