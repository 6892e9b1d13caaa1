-- ===== src/Ui/InSync/Events.antt =====
-- All events of the terminal: commands, texts and edits keep the parts in agreement.
use trithemius_p2p.Base.{
  refl, sym, Text, text_eq, Option, none, some, Eq, inl, inr, [], arith, strip_char,
}
use mathlib.Core.Path.{subst}
use trithemius_p2p.Subscriptions.Queue.{CircularQueue}
use trithemius_p2p.Engine.Events.{PackageTypes}
use trithemius_p2p.Engine.Run.{Swarm, Engine}
use trithemius_p2p.Ui.{World, Ui}
use trithemius_p2p.Ui.Keys.{
  KeyCode, esc, enter, delete, backspace, left, right, home, end, up, down, page_up, char, other,
  KeyModifiers, Event, mouse, resize, key, send_message, entered_line, enter_key, handle_key,
  handle_input_event,
}
use trithemius_p2p.Ui.InSync.{Gossipsub, InSync, Kept, Keeps}
use trithemius_p2p.Ui.InSync.Commands.{handle_command-Keeps}
use trithemius_p2p.Ui.InSync.Changes.{Agree-line}
use trithemius_p2p.Ui.InSync.Keys.{Succeeds-Kept, key-Succeeds, after_enter, reset_cases, sent_out}

module _ {T : PackageTypes} (S : Swarm T) (Q : CircularQueue) (W : World S) (G : Gossipsub S)
    ⦃peer_eq : Eq T.PeerId⦄ ⦃query_eq : Eq T.QueryId⦄ where
  Kept-line :
      (u : Ui T Q) (e : Engine S) (input : Text) (o : Option Text)
      → InSync S Q G (u, e)
      → Kept S Q G (entered_line S Q W input o (u, e))
  unfolding send_message
  Kept-line u e input (some command) h = (handle_command-Keeps S Q W G _).kept (u, e) h
  Kept-line u e input none h =
      Succeeds-Kept S Q W G (sent_out S Q W G u e input u.subscription_list.current_index refl h)

  Kept-enter :
      (u : Ui T Q) (e : Engine S) → InSync S Q G (u, e) → Kept S Q G (enter_key S Q W (u, e))
  unfolding enter_key
  Kept-enter u e h = elim (reset_cases S Q W G u.line) [
    | inl (_, r) ↦ subst (λ p. Kept S Q G (after_enter S Q W G u e p)) (sym r) h
    | inr r ↦
        subst (λ p. Kept S Q G (after_enter S Q W G u e p)) (sym r)
          (Kept-line (record u { line = record { input = []; input_cursor = 0 } }) e u.line.input
            (strip_char b'/' u.line.input) (Agree-line h (omega arith)))
  ]

  Kept-key :
      (code : KeyCode) (k : KeyModifiers) (u : Ui T Q) (e : Engine S)
      → InSync S Q G (u, e)
      → Kept S Q G (handle_key S Q W code k (u, e))
  unfolding handle_key
  Kept-key enter k u e h = Kept-enter u e h
  Kept-key esc k u e h = Succeeds-Kept S Q W G (key-Succeeds S Q W G esc k u e tt h)
  Kept-key (char c) k u e h = Succeeds-Kept S Q W G (key-Succeeds S Q W G (char c) k u e tt h)
  Kept-key delete k u e h = Succeeds-Kept S Q W G (key-Succeeds S Q W G delete k u e tt h)
  Kept-key backspace k u e h = Succeeds-Kept S Q W G (key-Succeeds S Q W G backspace k u e tt h)
  Kept-key left k u e h = Succeeds-Kept S Q W G (key-Succeeds S Q W G left k u e tt h)
  Kept-key right k u e h = Succeeds-Kept S Q W G (key-Succeeds S Q W G right k u e tt h)
  Kept-key home k u e h = Succeeds-Kept S Q W G (key-Succeeds S Q W G home k u e tt h)
  Kept-key end k u e h = Succeeds-Kept S Q W G (key-Succeeds S Q W G end k u e tt h)
  Kept-key up k u e h = Succeeds-Kept S Q W G (key-Succeeds S Q W G up k u e tt h)
  Kept-key down k u e h = Succeeds-Kept S Q W G (key-Succeeds S Q W G down k u e tt h)
  Kept-key page_up k u e h = Succeeds-Kept S Q W G (key-Succeeds S Q W G page_up k u e tt h)
  Kept-key other k u e h = Succeeds-Kept S Q W G (key-Succeeds S Q W G other k u e tt h)

  Kept-event :
      (event : Event) (u : Ui T Q) (e : Engine S)
      → InSync S Q G (u, e)
      → Kept S Q G (handle_input_event S Q W event (u, e))
  unfolding handle_input_event
  Kept-event mouse u e h = h
  Kept-event resize u e h = h
  Kept-event (key code k) u e h = Kept-key code k u e h

  -- Where the parts agree, they agree again after any event that does not panic, a command that
  -- fails included.
  pub handle_input_event-Keeps : (event : Event) → Keeps S Q G (handle_input_event S Q W event)
  handle_input_event-Keeps event = record { kept = λ (u, e) h. Kept-event event u e h }
