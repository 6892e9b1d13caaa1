-- ===== src/Ui/Drawing/Succeeds.antt =====
-- Where the parts agree and the terminal is wide enough, drawing does not none; in a terminal of two
-- columns or fewer it does.
use trithemius_p2p.Base.{
  ℕ, ◌-◌, ◌≤◌, ◌≡◌, refl, ap, ◌∙◌, Text, text_eq, Option, none, some, List, [], ◌∷◌, arith, All,
  Bool-cases, inl, inr, ltb,
}
use trithemius_p2p.Base.Map.{lookup}
use trithemius_p2p.Subscriptions.Queue.{CircularQueue}
use trithemius_p2p.Subscriptions.{Subscription}
use trithemius_p2p.TopicList.{SubscriptionList, current}
use trithemius_p2p.InputLine.{InputLine}
use trithemius_p2p.Engine.Events.{PackageTypes}
use trithemius_p2p.Engine.Run.{Swarm, Engine}
use trithemius_p2p.Ui.{Ui}
use trithemius_p2p.Ui.InSync.{Gossipsub, InSync}
use trithemius_p2p.Ui.InSync.Selected.{entry_of}
use trithemius_p2p.Wrap.{split_each}
use trithemius_p2p.Ui.Drawing.{
  ◌>>=◌, Rect, Display, draw_chat_tabs, draw_chat_panel, draw_input_panel, draw_chat, draw_no_chat,
  draw_with, draw, chat_layout, no_chat_layout,
}
use trithemius_p2p.Ui.Drawing.Panels.{
  Draws, Splits, Lies, IsNamed, IsNarrow, IsRoomy, draw_chat-Draws, draw_no_chat-Draws,
}

panics {ℓ κ} :
    {A : Type ℓ} {B : Type κ} (o : Option A) (k : A → Option B)
    → ((a : A) → k a ≡ none)
    → (o >>= k) ≡ none
panics (some a) k h = h a
panics none k h = refl

panic_first {ℓ κ} :
    {A : Type ℓ} {B : Type κ} {o : Option A} (k : A → Option B) → o ≡ none → (o >>= k) ≡ none
panic_first k e = ap (λ o. o >>= k) e

current-none : (s : SubscriptionList) → s.current_index ≡ none → current s ≡ none
unfolding current
current-none s e = rw e refl

module _ {T : PackageTypes} (S : Swarm T) (Q : CircularQueue) (G : Gossipsub S) (D : Display)
    (L : Splits D) where
  draw_with-Draws :
      (name_and_version : Text) (u : Ui T Q) (e : Engine S) (r : Rect)
      → InSync S Q G (u, e)
      → IsRoomy u.line.input r
      → All (IsNarrow D.char_width) u.line.input
      → ((t : Text) (s : Subscription Q)
          → lookup t u.subscriptions ≡ some s
          → All IsNamed (Q.asc_iter s.messages))
      → (selected : Option ℕ) → u.subscription_list.current_index ≡ selected
      → Draws (draw S Q D name_and_version u r)
  unfolding draw
  draw_with-Draws name u e r h roomy ws named none i =
      let (screen, d) =
        draw_no_chat-Draws S Q D name u r (D.split no_chat_layout r) (L.one_each no_chat_layout r)
          (L.inside no_chat_layout r) roomy ws in
      (screen, ap (λ o. draw_with S Q D o name u r) (current-none u.subscription_list i) ∙ d)
  draw_with-Draws name u e r h roomy ws named (some index) i =
      let (topic, s, c, found) = entry_of S Q G u e h i in
      let (screen, d) =
        draw_chat-Draws S Q D name topic u r (D.split chat_layout r) (L.one_each chat_layout r)
          (L.inside chat_layout r) roomy ws found (named topic s found) i in
      (screen, ap (λ o. draw_with S Q D o name u r) c ∙ d)

  -- Where the layout gives a chunk for each constraint and keeps them within the area, the parts
  -- agree, the area is at least five columns wide and its coordinates, with a row more for each
  -- character of the input, fit 16 bits, no character of the input is wider than two columns, and
  -- every user of a message that is kept has a name of at least seven characters, drawing gives
  -- the widgets: it does not panic.
  pub draw-Succeeds :
      (name_and_version : Text) (u : Ui T Q) (e : Engine S) (r : Rect)
      → InSync S Q G (u, e)
      → IsRoomy u.line.input r
      → All (IsNarrow D.char_width) u.line.input
      → ((t : Text) (s : Subscription Q)
          → lookup t u.subscriptions ≡ some s
          → All IsNamed (Q.asc_iter s.messages))
      → Draws (draw S Q D name_and_version u r)
  draw-Succeeds name u e r h roomy ws named =
      draw_with-Draws name u e r h roomy ws named u.subscription_list.current_index refl

-- Whatever else is drawn, the input panel is too narrow for a row.
module _ (D : Display) where
  narrow_panel :
      (l : InputLine) (c r : Rect) → Lies r c → r.width ≤ 2 → draw_input_panel D l c ≡ none
  unfolding draw_input_panel split_each
  narrow_panel l c r lie h = elim (Bool-cases (ltb c.width 2)) [
    | inl below ↦ rw below refl
    | inr above ↦ let z : c.width - 2 ≡ 0 = ground arith in rw (above, z) refl
  ]

module _ {T : PackageTypes} (S : Swarm T) (Q : CircularQueue) (D : Display) (L : Splits D) where
  narrow_chat :
      (name_and_version topic : Text) (u : Ui T Q) (r : Rect) (cs : List Rect)
      → All (Lies r) cs
      → r.width ≤ 2
      → draw_chat S Q D name_and_version topic u cs ≡ none
  unfolding draw_chat
  narrow_chat name topic u r (c0 ∷ c1 ∷ c2 ∷ c3 ∷ c4 ∷ c5 ∷ more) lie h =
      panics (draw_chat_tabs S Q D u c2) _ λ chats.
        panics (draw_chat_panel S Q D topic u c3) _
          λ chat. panic_first _ (narrow_panel D u.line c5 r lie.1.1.1.1.1.0 h)
  narrow_chat name topic u r [] lie h = refl
  narrow_chat name topic u r (_ ∷ []) lie h = refl
  narrow_chat name topic u r (_ ∷ _ ∷ []) lie h = refl
  narrow_chat name topic u r (_ ∷ _ ∷ _ ∷ []) lie h = refl
  narrow_chat name topic u r (_ ∷ _ ∷ _ ∷ _ ∷ []) lie h = refl
  narrow_chat name topic u r (_ ∷ _ ∷ _ ∷ _ ∷ _ ∷ []) lie h = refl

  narrow_no_chat :
      (name_and_version : Text) (u : Ui T Q) (r : Rect) (cs : List Rect)
      → All (Lies r) cs
      → r.width ≤ 2
      → draw_no_chat S Q D name_and_version u cs ≡ none
  unfolding draw_no_chat
  narrow_no_chat name u r (c0 ∷ c1 ∷ c2 ∷ c3 ∷ more) lie h =
      panic_first _ (narrow_panel D u.line c3 r lie.1.1.1.0 h)
  narrow_no_chat name u r [] lie h = refl
  narrow_no_chat name u r (_ ∷ []) lie h = refl
  narrow_no_chat name u r (_ ∷ _ ∷ []) lie h = refl
  narrow_no_chat name u r (_ ∷ _ ∷ _ ∷ []) lie h = refl

  narrow_with :
      (o : Option Text) (name_and_version : Text) (u : Ui T Q) (r : Rect)
      → r.width ≤ 2
      → draw_with S Q D o name_and_version u r ≡ none
  narrow_with (some topic) name u r h =
      narrow_chat name topic u r (D.split chat_layout r) (L.inside chat_layout r) h
  narrow_with none name u r h =
      narrow_no_chat name u r (D.split no_chat_layout r) (L.inside no_chat_layout r) h

  -- Where the layout gives a chunk for each constraint and keeps them within the area, drawing in
  -- an area of two columns or fewer panics, whatever the state.
  pub draw_narrow :
      (name_and_version : Text) (u : Ui T Q) (r : Rect)
      → r.width ≤ 2
      → draw S Q D name_and_version u r ≡ none
  unfolding draw
  draw_narrow name u r h = narrow_with (current u.subscription_list) name u r h
