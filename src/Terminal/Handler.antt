-- ===== src/Terminal/Handler.antt =====
-- `MyHandler` as the engine's handler (src/bin/trithemius-term/main.rs).
use trithemius_p2p.Base.{Option, none, Eq, Outcome, ok, err, ◌⊎◌, inl, inr, text_eq}
use trithemius_p2p.Subscriptions.Queue.{CircularQueue}
use trithemius_p2p.Transports.Tor.{multiaddr_eq}
use trithemius_p2p.Engine.Events.{PackageTypes}
use trithemius_p2p.Engine.Run.{Swarm, Engine, InputEvent, Handler}
use trithemius_p2p.Ui.{World, UiError, input_error, Ui, State}
use trithemius_p2p.Ui.Keys.{Event, handle_input_event}
use trithemius_p2p.Terminal.{Packages}
use trithemius_p2p.Terminal.Events.{see, failure}

module _ {T : PackageTypes} (S : Swarm T) (Q : CircularQueue) (W : World S) (P : Packages S Q)
    ⦃peer_eq : Eq T.PeerId⦄ ⦃query_eq : Eq T.QueryId⦄ where
  -- The fields of `MyHandler` that its methods change or pass on.
  pub record MyHandler : Type 0 where
    pub ui : Ui T Q
    pub renderer : P.Renderer

  abbrev pub After : Type 0 → Type 0
  After A = (MyHandler × Engine S) × Outcome (UiError S) A

  abbrev pub with_ui : {A : Type 0} → P.Renderer → State S Q W × Outcome (UiError S) A → After A
  with_ui renderer ((u, e), o) = ((record { ui = u; renderer = renderer }, e), o)

  -- `event?` and the handling of the event
  unfoldable pub handle_input : MyHandler × Engine S → T.IoError ⊎ Event → After (Option InputEvent)
  handle_input (h, e) (inl x) = ((h, e), err (input_error x))
  handle_input (h, e) (inr event) = with_ui h.renderer (handle_input_event S Q W event (h.ui, e))

  abbrev pub rendered :
      Ui T Q → P.Renderer × (T.IoError ⊎ Unit {0}) → MyHandler × Outcome (UiError S) (Unit {0})
  rendered u (renderer, inl x) = (record { ui = u; renderer = renderer }, err (input_error x))
  rendered u (renderer, inr _) = (record { ui = u; renderer = renderer }, ok tt)

  abbrev pub my_handler : Handler S (T.IoError ⊎ Event) (UiError S)
  my_handler = record {
    State = MyHandler;
    handle_input = handle_input;
    handle_event = λ (h, e) event. ((record h { ui = see S Q W P h.ui event }, e), ok none);
    handle_error = λ h text. record h { ui = failure S Q W P text h.ui };
    update = λ h. rendered h.ui (P.render h.renderer h.ui);
  }
