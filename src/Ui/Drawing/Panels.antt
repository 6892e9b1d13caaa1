-- ===== src/Ui/Drawing/Panels.antt =====
-- The panels of `UI::draw` can be drawn, with a chunk for each of them.
use trithemius_p2p.Base.{
  ℕ, ◌+◌, ◌-◌, ◌%◌, ◌≤◌, ◌<◌, ◌≡◌, refl, ap, ◌∙◌, Text, text_eq, Option, none, some, zero, suc, eqb,
  ltb, if◌then◌else◌, List, [], ◌∷◌, arith, All, length-take, take, drop, length, get_elem?_of_lt,
}
use trithemius_p2p.Base.Map.{Map, lookup}
use trithemius_p2p.Subscriptions.Queue.{CircularQueue}
use trithemius_p2p.Subscriptions.{Subscription, ChatMessage}
use trithemius_p2p.InputLine.{InputLine}
use trithemius_p2p.Wrap.Cursor.{cursor_loop_step}
use trithemius_p2p.Wrap.{split_each, split_loop, as_u16, cursor_step, cursor_loop, ui_input_cursor}
use trithemius_p2p.Engine.Events.{PackageTypes}
use trithemius_p2p.Engine.Run.{Swarm}
use trithemius_p2p.Ui.{Ui}
use trithemius_p2p.Ui.Drawing.{
  ◌>>=◌, Rect, Display, Constraint, message_colors, add_u16, user_color, user_number,
  short_username, long_username, draw_input_panel, chat_line, chat_lines, draw_chat_panel,
  draw_chat_tabs, draw_chat, draw_no_chat,
}

-- A drawing that gives a result.
abbrev pub Draws {ℓ} : {A : Type ℓ} → Option A → Type ℓ
Draws {A = A} o = (a : A) × (o ≡ some a)

ok_of {ℓ} : {A : Type ℓ} (a : A) → Draws (some a)
ok_of a = (a, refl)

>>=-Draws {ℓ κ} :
    {A : Type ℓ} {B : Type κ} {o : Option A} (k : A → Option B) (r : Draws o)
    → Draws (k r.0)
    → Draws (o >>= k)
>>=-Draws k (a, e) (b, d) = (b, ap (λ o. o >>= k) e ∙ d)

-- A chunk has the columns of its area, and is not below it.
abbrev pub Lies : Rect → Rect → Type 0
Lies r c = (c.x ≡ r.x) × (c.width ≡ r.width) × (c.y ≤ r.y + r.height)

-- What tui documents of a vertical split: a chunk for each constraint, within the area.
pub record Splits (D : Display) : Type 0 where
  pub one_each : (cs : List Constraint) (r : Rect) → length (D.split cs r) ≡ length cs
  pub inside : (cs : List Constraint) (r : Rect) → All (Lies r) (D.split cs r)

-- A message's user is unknown or has a name of at least seven characters.
abbrev pub IsNamed : ChatMessage → Type 0
IsNamed message = 7 ≤ length (long_username message.user)

module _ (char_width : ℕ → ℕ) where
  -- No character is wider than two columns.
  abbrev pub IsNarrow : ℕ → Type 0
  IsNarrow c = char_width c ≤ 2

  abbrev next_place : ℕ → ℕ → ℕ → ℕ × ℕ
  next_place width sum y =
      if eqb sum width then (0, y + 1) else if ltb width sum then (2, y + 1) else (sum, y)

  step_place :
      (width x y c : ℕ)
      → 3 ≤ width
      → char_width c ≤ 2
      → x < width
      → cursor_step char_width width x y c ≡ some (next_place width (x + char_width c) y)
  unfolding cursor_step
  step_place width x y c h w i = ground arith

  next_place-Fits :
      (width sum y : ℕ)
      → 3 ≤ width
      → ((next_place width sum y).0 < width) × ((next_place width sum y).1 ≤ y + 1)
  next_place-Fits width sum y h = (ground arith, ground arith)

  -- The cursor stays within the columns, and goes down at most a row for each character.
  cursor_loop-Fits :
      (width : ℕ) (cs : Text) (x y : ℕ)
      → 3 ≤ width
      → All IsNarrow cs
      → x < width
      → (p : ℕ × ℕ) × (cursor_loop char_width width cs x y ≡ some p)
        × (p.0 < width)
        × (p.1 ≤ y + length cs)
  unfolding cursor_loop
  cursor_loop-Fits width [] x y h ws i = ((x, y), refl, i, omega arith)
  cursor_loop-Fits width (c ∷ cs) x y h ws i =
      let q = next_place width (x + char_width c) y in
      let (j, k) = next_place-Fits width (x + char_width c) y h in
      let (p, d, m, n) = cursor_loop-Fits width cs q.0 q.1 h ws.1 j in
      (
        p,
        cursor_loop_step char_width width c cs x y (step_place width x y c h ws.0 i) ∙ d,
        m,
        omega arith,
      )

  take-All : (n : ℕ) (cs : Text) → All IsNarrow cs → All IsNarrow (take n cs)
  take-All zero cs h = tt
  take-All (suc n) [] h = tt
  take-All (suc n) (c ∷ cs) h = (h.0, take-All n cs h.1)

-- The input's place: wide enough, and its columns and rows have coordinates of 16 bits.
abbrev pub IsRoomy : Text → Rect → Type 0
IsRoomy input r = (5 ≤ r.width) × (r.x + r.width < 65536) × (r.y + r.height + length input < 65536)

module _ (D : Display) where
  unless_narrow : {A : Type 0} (n : ℕ) (o : Option A) → 2 ≤ n → (if ltb n 2 then none else o) ≡ o
  unless_narrow n o h = ground arith

  add_u16-Draws : (a b : ℕ) → a + b < 65536 → Draws (add_u16 a b)
  add_u16-Draws a b h = (a + b, ground arith)

  cursor-Fits :
      (l : InputLine) (width : ℕ)
      → 3 ≤ width
      → All (IsNarrow D.char_width) l.input
      → (p : ℕ × ℕ) × (ui_input_cursor D.char_width l width ≡ some p)
        × (p.0 < width)
        × (p.1 ≤ length l.input)
  unfolding ui_input_cursor
  cursor-Fits l width h ws =
      let (p, e, i, j) =
        cursor_loop-Fits D.char_width width (take l.input_cursor l.input) 0 0 h
          (take-All D.char_width l.input_cursor l.input ws) (omega arith) in
      (
        (p.0 % 65536, p.1 % 65536),
        ap as_u16 e,
        omega arith,
        omega (arith, length-take l.input_cursor l.input),
      )

  rows-Draws : (input : Text) (width : ℕ) → 1 ≤ width → Draws (split_each D.char_width input width)
  unfolding split_each
  rows-Draws input width h = (split_loop D.char_width width input [] 0, ground arith)

  pub draw_input_panel-Draws :
      (l : InputLine) (c r : Rect)
      → Lies r c
      → IsRoomy l.input r
      → All (IsNarrow D.char_width) l.input
      → Draws (draw_input_panel D l c)
  unfolding draw_input_panel
  draw_input_panel-Draws l c r (x, w, y) (wide, across, down) ws =
      let (p, e, i, j) = cursor-Fits l (c.width - 2) (omega arith) ws in
      let (input, d) = rows-Draws l.input (c.width - 2) (omega arith) in
      let (across_at, f) = add_u16-Draws c.x p.0 (omega arith) in
      let (down_at, g) = add_u16-Draws c.y p.1 (omega arith) in
      let (ws, q) =
        >>=-Draws _ (input, d)
          (>>=-Draws _ (p, e) (>>=-Draws _ (across_at, f) (>>=-Draws _ (down_at, g) (ok_of _)))) in
      (ws, unless_narrow c.width _ (omega arith) ∙ q)

  color-Draws : (id : Option ℕ) → Draws (user_color id)
  color-Draws none = ok_of _
  color-Draws (some id) =
      let (color, e) = get_elem?_of_lt message_colors (id % 4) (omega arith) in
      (color, rw (e, user_color))

  short_username-Draws : (name : Text) → 7 ≤ length name → Draws (short_username name)
  unfolding short_username
  short_username-Draws name h = (drop (length name - 7) name, ground arith)

module _ {T : PackageTypes} (S : Swarm T) (Q : CircularQueue) (D : Display) where
  chat_line-Draws :
      (users : Map T.PeerId ℕ) (m : ChatMessage) → IsNamed m → Draws (chat_line S Q D users m)
  unfolding chat_line
  chat_line-Draws users m h =
      >>=-Draws _ (color-Draws D (user_number S Q D m.user users))
        (>>=-Draws _ (short_username-Draws D (long_username m.user) h) (ok_of _))

  chat_lines-Draws :
      (users : Map T.PeerId ℕ) (ms : List ChatMessage)
      → All IsNamed ms
      → Draws (chat_lines S Q D users ms)
  unfolding chat_lines
  chat_lines-Draws users [] h = ok_of _
  chat_lines-Draws users (m ∷ ms) h =
      >>=-Draws _ (chat_line-Draws users m h.0)
        (>>=-Draws _ (chat_lines-Draws users ms h.1) (ok_of _))

  draw_chat_panel-Draws :
      (topic : Text) (u : Ui T Q) (c : Rect) {s : Subscription Q}
      → lookup topic u.subscriptions ≡ some s
      → All IsNamed (Q.asc_iter s.messages)
      → Draws (draw_chat_panel S Q D topic u c)
  unfolding draw_chat_panel
  draw_chat_panel-Draws topic u c {s} e h =
      >>=-Draws _ (s, e)
        (>>=-Draws _ (chat_lines-Draws u.view.user_ids (Q.asc_iter s.messages) h) (ok_of _))

  draw_chat_tabs-Draws :
      (u : Ui T Q) (c : Rect) {index : ℕ}
      → u.subscription_list.current_index ≡ some index
      → Draws (draw_chat_tabs S Q D u c)
  unfolding draw_chat_tabs
  draw_chat_tabs-Draws u c {index} e = >>=-Draws _ (index, e) (ok_of _)

  pub draw_chat-Draws :
      (name_and_version topic : Text) (u : Ui T Q) (r : Rect) {s : Subscription Q} {index : ℕ}
      (cs : List Rect)
      → length cs ≡ 6
      → All (Lies r) cs
      → IsRoomy u.line.input r
      → All (IsNarrow D.char_width) u.line.input
      → lookup topic u.subscriptions ≡ some s
      → All IsNamed (Q.asc_iter s.messages)
      → u.subscription_list.current_index ≡ some index
      → Draws (draw_chat S Q D name_and_version topic u cs)
  unfolding draw_chat
  draw_chat-Draws name topic u r (c0 ∷ c1 ∷ c2 ∷ c3 ∷ c4 ∷ c5 ∷ []) n lie roomy ws e h i =
      >>=-Draws _ (draw_chat_tabs-Draws u c2 i) (
        >>=-Draws _ (draw_chat_panel-Draws topic u c3 e h)
          (>>=-Draws _ (draw_input_panel-Draws D u.line c5 r lie.1.1.1.1.1.0 roomy ws) (ok_of _)))
  draw_chat-Draws name topic u r [] n lie roomy ws e h i = absurd (omega arith)
  draw_chat-Draws name topic u r (_ ∷ []) n lie roomy ws e h i = absurd (omega arith)
  draw_chat-Draws name topic u r (_ ∷ _ ∷ []) n lie roomy ws e h i = absurd (omega arith)
  draw_chat-Draws name topic u r (_ ∷ _ ∷ _ ∷ []) n lie roomy ws e h i = absurd (omega arith)
  draw_chat-Draws name topic u r (_ ∷ _ ∷ _ ∷ _ ∷ []) n lie roomy ws e h i = absurd (omega arith)
  draw_chat-Draws name topic u r (_ ∷ _ ∷ _ ∷ _ ∷ _ ∷ []) n lie roomy ws e h i =
      absurd (omega arith)
  draw_chat-Draws name topic u r (_ ∷ _ ∷ _ ∷ _ ∷ _ ∷ _ ∷ _ ∷ cs) n lie roomy ws e h i =
      absurd (omega arith)

  pub draw_no_chat-Draws :
      (name_and_version : Text) (u : Ui T Q) (r : Rect) (cs : List Rect)
      → length cs ≡ 4
      → All (Lies r) cs
      → IsRoomy u.line.input r
      → All (IsNarrow D.char_width) u.line.input
      → Draws (draw_no_chat S Q D name_and_version u cs)
  unfolding draw_no_chat
  draw_no_chat-Draws name u r (c0 ∷ c1 ∷ c2 ∷ c3 ∷ []) n lie roomy ws =
      >>=-Draws _ (draw_input_panel-Draws D u.line c3 r lie.1.1.1.0 roomy ws) (ok_of _)
  draw_no_chat-Draws name u r [] n lie roomy ws = absurd (omega arith)
  draw_no_chat-Draws name u r (_ ∷ []) n lie roomy ws = absurd (omega arith)
  draw_no_chat-Draws name u r (_ ∷ _ ∷ []) n lie roomy ws = absurd (omega arith)
  draw_no_chat-Draws name u r (_ ∷ _ ∷ _ ∷ []) n lie roomy ws = absurd (omega arith)
  draw_no_chat-Draws name u r (_ ∷ _ ∷ _ ∷ _ ∷ _ ∷ cs) n lie roomy ws = absurd (omega arith)
