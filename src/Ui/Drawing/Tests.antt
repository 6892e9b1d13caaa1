-- ===== src/Ui/Drawing/Tests.antt =====
-- Examples of the drawing: a terminal that is split into rows of its own width.
use trithemius_p2p.Base.{
  ◌≡◌, refl, codes, [], ℕ, List, ◌∷◌, All, length, arith, some, none, Text, text_eq,
}
use mathlib.Core.Path.{subst}
use mathlib.Core.Option.{some-injective}
use trithemius_p2p.Base.Map.{lookup}
use trithemius_p2p.Subscriptions.{Subscription, new_subscription}
use trithemius_p2p.Subscriptions.Queue.{list_queue}
use trithemius_p2p.Ui.Drawing.{Rect, Display, Constraint, draw}
use trithemius_p2p.Ui.Drawing.Panels.{Splits, IsNamed, Lies, Draws}
use trithemius_p2p.Ui.Drawing.Succeeds.{draw-Succeeds, draw_narrow}
use trithemius_p2p.Ui.Examples.{swarm, gossipsub, chatting, joined_chat, chatting-InSync}

abbrev split_rows : List Constraint → Rect → List Rect
split_rows [] r = []
split_rows (c ∷ cs) r = r ∷ split_rows cs r

abbrev terminal : Display
terminal = record { split = split_rows; time_text = λ t. codes "12:00:00 "; char_width = λ c. 1 }

one_each : (cs : List Constraint) (r : Rect) → length (split_rows cs r) ≡ length cs
one_each [] r = refl
one_each (c ∷ cs) r = omega (arith, one_each cs r)

inside : (cs : List Constraint) (r : Rect) → All (Lies r) (split_rows cs r)
inside [] r = tt
inside (c ∷ cs) r = ((refl, refl, omega arith), inside cs r)

abbrev splits : Splits terminal
splits = record { one_each = one_each; inside = inside }

abbrev area : ℕ → Rect
area width = record { x = 0; y = 0; width = width; height = 24 }

named :
    (t : Text) (s : Subscription list_queue)
    → lookup t (chatting (codes "hi")).subscriptions ≡ some s
    → All IsNamed (list_queue.asc_iter s.messages)
unfolding lookup
named t s h = elim (text_eq.dec t (codes "chat")) [
  | yes same ↦
      let k : some (new_subscription list_queue (codes "chat")) ≡ some s = ground arith in
      subst (λ z. All IsNamed (list_queue.asc_iter z.messages)) (some-injective _ _ k) tt
  | no differ ↦ (let k : none ≡ some s = ground arith in cc)
]

draw-Succeeds_example :
    Draws (draw swarm list_queue terminal (codes "app 1") (chatting (codes "hi")) (area 80))
draw-Succeeds_example =
    draw-Succeeds swarm list_queue gossipsub terminal splits (codes "app 1") (chatting (codes "hi"))
      (joined_chat []) (area 80) (chatting-InSync (codes "hi") [])
      (omega arith, omega arith, omega arith) (omega arith, (omega arith, tt)) named

draw_narrow_example :
    draw swarm list_queue terminal (codes "app 1") (chatting (codes "hi")) (area 2) ≡ none
draw_narrow_example =
    draw_narrow swarm list_queue terminal splits (codes "app 1") (chatting (codes "hi")) (area 2)
      (omega arith)
