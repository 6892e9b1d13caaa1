-- ===== src/Terminal/Program.antt =====
-- The program from its start: `MyHandler::startup`, and the loop of `Engine::run`
-- (src/engine.rs) over what arrives.
use trithemius_p2p.Base.{
  ℕ, ◌≡◌, refl, sym, Text, false, Option, none, some, List, [], ◌∷◌, Eq, Outcome, ok, on_ok, Holds,
  on_ok-Holds, arith,
}
use trithemius_p2p.Base.Map.{lookup}
use trithemius_p2p.Transports.Tor.{multiaddr_eq}
use trithemius_p2p.Subscriptions.Queue.{CircularQueue}
use trithemius_p2p.Engine.Events.{PackageTypes}
use trithemius_p2p.Engine.Namespace.{NamespaceAndNodeId}
use trithemius_p2p.Engine.Run.{Swarm, Engine, Turn, turn, Arrived, goes_on, stops, out_of_fuel}
use trithemius_p2p.Ui.{World, UiError, engine_error, Act}
use trithemius_p2p.Ui.InSync.{Gossipsub, InSync, Keeps, >>-Keeps}
use trithemius_p2p.Ui.InSync.Topics.{subscribe-Keeps}
use trithemius_p2p.Ui.InSync.Network.{register-Quietly}
use trithemius_p2p.Ui.InSync.Commands.{
  pure-Keeps, panicked-Keeps, passing-Keeps, listen-Keeps, connect-Keeps,
  create_onion_service-Keeps,
}
use trithemius_p2p.Terminal.{Packages}
use trithemius_p2p.Terminal.Handler.{MyHandler, with_ui, my_handler}
use trithemius_p2p.Terminal.Startup.{
  Options, new_ui, show_methods, if_given, create_service, register_all, startup,
}
use trithemius_p2p.Terminal.InSync.{Agrees, with_ui-Agrees, turn-Agrees}

module _ {T : PackageTypes} (S : Swarm T) (Q : CircularQueue) (W : World S) (P : Packages S Q)
    ⦃peer_eq : Eq T.PeerId⦄ ⦃query_eq : Eq T.QueryId⦄ where
  abbrev pub Item : Type 0
  Item = Arrived S (my_handler S Q W P)

  abbrev pub Ended : Type 0
  Ended = (MyHandler S Q W P × Engine S) × Outcome (UiError S) (Turn S (my_handler S Q W P))

  -- The loop goes on after a turn that does.
  abbrev pub next_turn : MyHandler S Q W P × Engine S → Ended → Turn S (my_handler S Q W P) → Ended
  next_turn he rest goes_on = rest
  next_turn he rest stops = (he, ok stops)
  next_turn he rest out_of_fuel = (he, ok out_of_fuel)

  -- The loop of `run` over what arrives, each turn with fuel for its queue; it goes on at the end
  -- of the list.
  unfoldable pub turns : ℕ → List Item → MyHandler S Q W P × Engine S → Ended
  turns fuel [] he = (he, ok goes_on)
  turns fuel (arrived ∷ rest) he =
      on_ok (turn S (my_handler S Q W P) fuel arrived he)
        λ he t. next_turn he (turns fuel rest he) t

  -- `Engine::run` with a new handler.
  unfoldable pub run : ℕ → Options T → List Item → P.Renderer → Engine S → Ended
  unfolding turns
  run fuel cli items renderer e =
      on_ok (with_ui S Q W P renderer (startup S Q W cli (new_ui S Q W e.peer_id, e)))
        λ he _. turns fuel items he

module _ {T : PackageTypes} (S : Swarm T) (Q : CircularQueue) (W : World S) (P : Packages S Q)
    (G : Gossipsub S) ⦃peer_eq : Eq T.PeerId⦄ ⦃query_eq : Eq T.QueryId⦄ where
  if_given-Keeps :
      {A B : Type 0} (o : Option A) {k : A → Act S Q W B}
      → ((a : A) → Keeps S Q G (k a))
      → Keeps S Q G (if_given S Q W o k)
  if_given-Keeps none h = pure-Keeps S Q W G tt
  if_given-Keeps (some a) h = >>-Keeps S Q G (h a) (pure-Keeps S Q W G tt)

  create_service-Keeps : (values : List Text) → Keeps S Q G (create_service S Q W values)
  create_service-Keeps [] = panicked-Keeps S Q W G
  create_service-Keeps (p ∷ []) = create_onion_service-Keeps S Q W G p none
  create_service-Keeps (p ∷ a ∷ _) = create_onion_service-Keeps S Q W G p (some a)

  register_all-Keeps :
      (ns : List (NamespaceAndNodeId T.Namespace T.PeerId)) → Keeps S Q G (register_all S Q W ns)
  register_all-Keeps [] = pure-Keeps S Q W G tt
  register_all-Keeps (n ∷ ns) =
      >>-Keeps S Q G (passing-Keeps S Q W G engine_error (register-Quietly G n.namespace n.node_id))
        (register_all-Keeps ns)

  show_methods-Keeps : Keeps S Q G (show_methods S Q W)
  show_methods-Keeps = record { kept = λ s h. h }

  startup-Keeps : (cli : Options T) → Keeps S Q G (startup S Q W cli)
  unfolding startup
  startup-Keeps cli = >>-Keeps S Q G show_methods-Keeps (
      >>-Keeps S Q G (if_given-Keeps cli.listen (listen-Keeps S Q W G)) (
        >>-Keeps S Q G (if_given-Keeps cli.connect (connect-Keeps S Q W G)) (
          >>-Keeps S Q G (if_given-Keeps cli.subscribe (subscribe-Keeps S Q W G)) (
            >>-Keeps S Q G (if_given-Keeps cli.create_onion_service create_service-Keeps)
              (if_given-Keeps cli.register register_all-Keeps)))))

  -- At first no topic is there, on either side.
  pub new_ui-InSync :
      (me : T.PeerId) (e : Engine S)
      → ((t : Text) → G.joined e.swarm t ≡ false)
      → InSync S Q G (new_ui S Q W me, e)
  unfolding lookup
  new_ui-InSync me e q = record {
    entries = λ t. sym (q t);
    own_topic = λ t s h. cc;
    tabs_of = λ t. sym (q t);
    tabs_IsDistinct = λ i j t h k. cc;
    tabs_IsValid = refl;
    line_IsValid = omega arith;
  }

  next_turn-Agrees :
      (he : MyHandler S Q W P × Engine S) (rest : Ended S Q W P) (t : Turn S (my_handler S Q W P))
      → Agrees S Q W P G he
      → Holds (Agrees S Q W P G) rest
      → Holds (Agrees S Q W P G) (next_turn S Q W P he rest t)
  next_turn-Agrees he rest goes_on i k = k
  next_turn-Agrees he rest stops i k = i
  next_turn-Agrees he rest out_of_fuel i k = i

  turns-Agrees :
      (fuel : ℕ) (items : List (Item S Q W P)) (h : MyHandler S Q W P) (e : Engine S)
      → InSync S Q G (h.ui, e)
      → Holds (Agrees S Q W P G) (turns S Q W P fuel items (h, e))
  unfolding turns
  turns-Agrees fuel [] h e i = i
  turns-Agrees fuel (arrived ∷ rest) h e i =
      on_ok-Holds (Agrees S Q W P G) (turn S (my_handler S Q W P) fuel arrived (h, e)) _
        (turn-Agrees S Q W P G fuel arrived h e i)
        λ (h', e') t j.
          next_turn-Agrees (h', e') (turns S Q W P fuel rest (h', e')) t j
            (turns-Agrees fuel rest h' e' j)

  -- From the start of the program, with an engine that has joined no topic, whatever the options
  -- ask for and whatever arrives: unless the program has panicked, the tab and the cursor are in
  -- range, no topic has two tabs, and a topic has a tab exactly if it has an entry of messages and
  -- exactly if gossipsub has joined it.
  pub run-Agrees :
      (fuel : ℕ) (cli : Options T) (items : List (Item S Q W P)) (renderer : P.Renderer)
      (e : Engine S)
      → ((t : Text) → G.joined e.swarm t ≡ false)
      → Holds (Agrees S Q W P G) (run S Q W P fuel cli items renderer e)
  unfolding run
  run-Agrees fuel cli items renderer e q =
      on_ok-Holds (Agrees S Q W P G)
        (with_ui S Q W P renderer (startup S Q W cli (new_ui S Q W e.peer_id, e))) _
        (with_ui-Agrees S Q W P G renderer (startup S Q W cli (new_ui S Q W e.peer_id, e))
          ((startup-Keeps cli).kept _ (new_ui-InSync e.peer_id e q)))
        λ (h, e') _ j. turns-Agrees fuel items h e' j
