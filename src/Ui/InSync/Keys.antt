-- ===== src/Ui/InSync/Keys.antt =====
-- The keys: none takes the tabs, the messages and gossipsub out of agreement, and as long as no
-- command is entered, none fails.
use trithemius_p2p.Base.{
  ℕ, ◌+◌, ◌≡◌, refl, sym, ap, ◌∙◌, Text, text_eq, Option, none, some, Eq, ◌⊎◌, inl, inr, [], ◌∷◌,
  Outcome, ok, arith, Bool-cases, strip_char, eqb, ◌&&◌,
}
use mathlib.Core.Path.{subst}
use mathlib.Core.Option.{some-injective}
use trithemius_p2p.Base.Map.{lookup, insert}
use trithemius_p2p.Subscriptions.Queue.{CircularQueue}
use trithemius_p2p.Subscriptions.{Subscription, push_message}
use trithemius_p2p.TopicList.{SubscriptionList, current, next, prev}
use trithemius_p2p.TopicList.Select.{Moves, next-Moves, prev-Moves}
use trithemius_p2p.InputLine.{
  InputLine, CursorMovement, Edit, edit, input_write, input_remove, input_remove_previous,
  input_move_cursor, clear_input_to_cursor, reset_input,
}
use trithemius_p2p.InputLine
use trithemius_p2p.InputLine.Zipper.{edit-IsValid}
use trithemius_p2p.Engine.Events.{PackageTypes}
use trithemius_p2p.Engine.Run.{Swarm, Engine, InputEvent, message, shutdown}
use trithemius_p2p.Ui.Actions.{◌>>=◌, unwrap}
use trithemius_p2p.Ui.{World, UiError, Ui, State}
use trithemius_p2p.Ui.Keys.{
  KeyCode, esc, enter, delete, backspace, left, right, home, end, up, down, page_up, char, other,
  KeyModifiers, Event, mouse, resize, key, is_control, edit_line, move_cursor, move_tab, my_message,
  send_to, send_current, send_message, entered_line, entered, enter_key, on_char, handle_key,
  handle_input_event,
}
use trithemius_p2p.Ui.InSync.Selected.{entry_of}
use trithemius_p2p.Ui.InSync.{Gossipsub, InSync, Kept}
use trithemius_p2p.Ui.InSync.Changes.{Agree-line, Agree-tabs, Agree-push}

module _ {T : PackageTypes} (S : Swarm T) (Q : CircularQueue) (W : World S) (G : Gossipsub S)
    ⦃peer_eq : Eq T.PeerId⦄ ⦃query_eq : Eq T.QueryId⦄ where
  -- A result, in a state in which all agree.
  pub record Succeeds (e : Engine S) (r : State S Q W × Outcome (UiError S) (Option InputEvent))
      : Type 0 where
    pub state : State S Q W
    pub value : Option InputEvent
    pub done : r ≡ (state, ok value)
    pub same_engine : state.1 ≡ e
    pub in_sync : InSync S Q G state

  at_once : (s : State S Q W) (v : Option InputEvent) → InSync S Q G s → Succeeds s.1 (s, ok v)
  at_once s v h = record { state = s; value = v; done = refl; same_engine = refl; in_sync = h }

  pub Succeeds-Kept :
      {e : Engine S} {r : State S Q W × Outcome (UiError S) (Option InputEvent)}
      → Succeeds e r
      → Kept S Q G r
  Succeeds-Kept h = rw h.done h.in_sync

  edited :
      (u : Ui T Q) (e : Engine S) (change : Edit)
      → InSync S Q G (u, e)
      → Succeeds e (edit_line S Q W (edit change) (u, e))
  edited u e change h =
      let (l', d, v) = edit-IsValid change u.line h.line_IsValid in
      rw d (at_once (record u { line = l' }, e) none (Agree-line h v))

  moved :
      (u : Ui T Q) (e : Engine S) (m : CursorMovement)
      → InSync S Q G (u, e)
      → Succeeds e (move_cursor S Q W m (u, e))
  unfolding edit
  moved u e m h =
      let (l', d, v) = edit-IsValid (InputLine.move m) u.line h.line_IsValid in
      at_once (record u { line = input_move_cursor m u.line }, e) none
        (Agree-line h (rw (some-injective _ _ d) v))

  moved_tab :
      (u : Ui T Q) (e : Engine S) (move : SubscriptionList → Option SubscriptionList)
      → InSync S Q G (u, e)
      → Moves u.subscription_list.list (move u.subscription_list)
      → Succeeds e (move_tab S Q W move (u, e))
  moved_tab u e move h m = rw m.done (
      at_once (record u { subscription_list = m.after }, e) none (Agree-tabs h m.same_list m.valid))

  next_tab :
      (u : Ui T Q) (e : Engine S) → InSync S Q G (u, e) → Succeeds e (move_tab S Q W next (u, e))
  next_tab u e h = moved_tab u e next h (next-Moves u.subscription_list h.tabs_IsValid)

  prev_tab :
      (u : Ui T Q) (e : Engine S) → InSync S Q G (u, e) → Succeeds e (move_tab S Q W prev (u, e))
  prev_tab u e h = moved_tab u e prev h (prev-Moves u.subscription_list h.tabs_IsValid)

  -- The state after a message to the topic of an entry.
  abbrev pub sent_from : Ui T Q → Text → Subscription Q → Text → Ui T Q
  sent_from u topic s input = record u {
    subscriptions =
        insert topic (push_message Q s (my_message S Q W u topic input)) u.subscriptions;
    clock_reads = u.clock_reads + 1;
  }

  abbrev sent_as : Ui T Q → Text → Subscription Q → Text → Text → Ui T Q
  sent_as u topic s own_topic input = record u {
    subscriptions =
        insert topic (push_message Q s (my_message S Q W u own_topic input)) u.subscriptions;
    clock_reads = u.clock_reads + 1;
  }

  -- Where the parts agree and a tab is selected, a text goes out to the topic of that tab, and
  -- into its queue as a message of this program's own peer; nothing else changes.
  pub send_message_lem :
      (u : Ui T Q) (e : Engine S) (input : Text) {index : ℕ}
      → InSync S Q G (u, e)
      → u.subscription_list.current_index ≡ some index
      → (topic : Text) × (s : Subscription Q) × (current u.subscription_list ≡ some topic)
        × (lookup topic u.subscriptions ≡ some s)
        × (send_message S Q W input (u, e)
            ≡ ((sent_from u topic s input, e), ok (some (message topic (W.into_bytes input)))))
        × InSync S Q G (sent_from u topic s input, e)
  unfolding send_message
  send_message_lem u e input {index} h selected =
      let (topic, s, c, found) = entry_of S Q G u e h selected in
      let own : s.topic ≡ topic = h.own_topic topic s found in
      (
        topic,
        s,
        c,
        found,
        ap (λ o. send_current S Q W input o (u, e)) selected
            ∙ ap (λ o. (unwrap o >>= λ t. send_to S Q W input t (lookup t u.subscriptions)) (u, e))
                c
            ∙ ap (λ o. send_to S Q W input topic o (u, e)) found
            ∙ ap (λ t. ((sent_as u topic s t input, e), ok (some (message t (W.into_bytes input)))))
                own,
        Agree-push h topic s (my_message S Q W u topic input) found,
      )

  pub sent_out :
      (u : Ui T Q) (e : Engine S) (input : Text) (selected : Option ℕ)
      → u.subscription_list.current_index ≡ selected
      → InSync S Q G (u, e)
      → Succeeds e (send_current S Q W input selected (u, e))
  unfolding send_message
  sent_out u e input none none_selected h = at_once _ none h
  sent_out u e input (some index) selected h =
      let (topic, s, _, _, done, i) = send_message_lem u e input h selected in
      record {
        state = (sent_from u topic s input, e);
        value = some (message topic (W.into_bytes input));
        done = ap (λ o. send_current S Q W input o (u, e)) (sym selected) ∙ done;
        same_engine = refl;
        in_sync = i;
      }

  entered_text :
      (u : Ui T Q) (e : Engine S) (input : Text)
      → strip_char b'/' input ≡ none
      → InSync S Q G (u, e)
      → Succeeds e (entered_line S Q W input (strip_char b'/' input) (u, e))
  unfolding send_message
  entered_text u e input text h =
      rw text (sent_out u e input u.subscription_list.current_index refl h)

  pub reset_cases :
      (l : InputLine)
      → ((l.input ≡ []) × (reset_input l ≡ (l, none)))
        ⊎ (reset_input l ≡ (record { input = []; input_cursor = 0 }, some l.input))
  unfolding reset_input
  reset_cases l = by_input l.input l.input_cursor
    where
      by_input :
          (s : Text) (c : ℕ)
          → let l : InputLine = record { input = s; input_cursor = c } in
            ((s ≡ []) × (reset_input l ≡ (l, none)))
            ⊎ (reset_input l ≡ (record { input = []; input_cursor = 0 }, some s))
      by_input [] c = inl (refl, refl)
      by_input (x ∷ s) c = inr refl

  -- The line after Enter.
  abbrev pub after_enter :
      Ui T Q
      → Engine S
      → InputLine × Option Text
      → State S Q W × Outcome (UiError S) (Option InputEvent)
  after_enter u e (l, o) = entered S Q W o (record u { line = l }, e)

  entered-Succeeds :
      (u : Ui T Q) (e : Engine S)
      → strip_char b'/' u.line.input ≡ none
      → InSync S Q G (u, e)
      → Succeeds e (enter_key S Q W (u, e))
  unfolding enter_key
  entered-Succeeds u e text h = elim (reset_cases u.line) [
    | inl (_, r) ↦ subst (λ p. Succeeds e (after_enter u e p)) (sym r) (at_once (u, e) none h)
    | inr r ↦
        subst (λ p. Succeeds e (after_enter u e p)) (sym r)
          (entered_text (record u { line = record { input = []; input_cursor = 0 } }) e u.line.input
            text (Agree-line h (omega arith)))
  ]

  char-Succeeds :
      (u : Ui T Q) (e : Engine S) (c : ℕ) (k : KeyModifiers)
      → InSync S Q G (u, e)
      → Succeeds e (on_char S Q W c k (u, e))
  unfolding on_char edit
  char-Succeeds u e c k h = elim (Bool-cases (eqb c b'c' && k.control)) [
    | inl quit ↦ rw (on_char, quit) (at_once (u, e) (some shutdown) h)
    | inr no_quit ↦ elim (Bool-cases (eqb c b'u' && k.control)) [
      | inl clear ↦ rw (on_char, no_quit, clear) (edited u e InputLine.clear_to_cursor h)
      | inr plain ↦ rw (on_char, no_quit, plain) (edited u e (InputLine.write c) h)
    ]
  ]

  -- The event enters no command.
  abbrev pub NoCommand : Event → InputLine → Type 0
  NoCommand (key enter k) l = strip_char b'/' l.input ≡ none
  NoCommand _ l = Unit

  pub key-Succeeds :
      (code : KeyCode) (k : KeyModifiers) (u : Ui T Q) (e : Engine S)
      → NoCommand (key code k) u.line
      → InSync S Q G (u, e)
      → Succeeds e (handle_key S Q W code k (u, e))
  unfolding handle_key edit
  key-Succeeds esc k u e n h = at_once (u, e) (some shutdown) h
  key-Succeeds (char c) k u e n h = char-Succeeds u e c k h
  key-Succeeds enter k u e n h = entered-Succeeds u e n h
  key-Succeeds delete k u e n h = edited u e InputLine.remove h
  key-Succeeds backspace k u e n h = edited u e InputLine.remove_previous h
  key-Succeeds left k u e n h = elim (Bool-cases (is_control k)) [
    | inl control ↦ rw (handle_key, control) (prev_tab u e h)
    | inr plain ↦ rw (handle_key, plain) (moved u e InputLine.left h)
  ]
  key-Succeeds right k u e n h = elim (Bool-cases (is_control k)) [
    | inl control ↦ rw (handle_key, control) (next_tab u e h)
    | inr plain ↦ rw (handle_key, plain) (moved u e InputLine.right h)
  ]
  key-Succeeds home k u e n h = moved u e InputLine.start h
  key-Succeeds end k u e n h = moved u e InputLine.end h
  key-Succeeds up k u e n h = at_once _ none h
  key-Succeeds down k u e n h = at_once _ none h
  key-Succeeds page_up k u e n h = at_once _ none h
  key-Succeeds other k u e n h = at_once (u, e) none h

  -- Where the parts agree, an event that enters no command is handled without a panic and without
  -- an error, the engine stays as it is, and the parts agree again.
  pub handle_input_event-Succeeds :
      (event : Event) (u : Ui T Q) (e : Engine S)
      → NoCommand event u.line
      → InSync S Q G (u, e)
      → Succeeds e (handle_input_event S Q W event (u, e))
  unfolding handle_input_event
  handle_input_event-Succeeds mouse u e n h = at_once (u, e) none h
  handle_input_event-Succeeds resize u e n h = at_once (u, e) none h
  handle_input_event-Succeeds (key code k) u e n h = key-Succeeds code k u e n h
