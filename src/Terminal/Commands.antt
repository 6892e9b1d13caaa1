-- ===== src/Terminal/Commands.antt =====
-- Commands typed into the program, from the key to the end of the turn.
use trithemius_p2p.Base.{
  ◌≡◌, refl, Text, text_eq, codes, false, some, List, ◌∷◌, ◌++◌, Eq, err, inr, is_empty, strip_char,
  to_ascii_lowercase, ℕ,
}
use trithemius_p2p.NetworkAddr.Formats.{AddrError}
use trithemius_p2p.NetworkAddr
use trithemius_p2p.Transports.Tor.{multiaddr_eq}
use trithemius_p2p.Subscriptions.Queue.{CircularQueue}
use trithemius_p2p.Engine.Events.{PackageTypes}
use trithemius_p2p.Engine.Run.{Swarm, Engine, turn, input, on_input}
use trithemius_p2p.Ui.{World, addr_error, Ui}
use trithemius_p2p.Ui.Commands.{handle_command, command_of, run_command}
use trithemius_p2p.Ui.Network.{connect}
use trithemius_p2p.Ui.Keys.{
  key, enter, KeyModifiers, handle_input_event, handle_key, enter_key, split_whitespace,
}
use trithemius_p2p.Ui.InSync.{Gossipsub}
use trithemius_p2p.Terminal.{Packages}
use trithemius_p2p.Terminal.Events.{failure}
use trithemius_p2p.Terminal.Handler.{MyHandler, handle_input, my_handler}
use trithemius_p2p.Terminal.Chat.{cleared, reset_full}

module _ {T : PackageTypes} (S : Swarm T) (Q : CircularQueue) (W : World S) (P : Packages S Q)
    (G : Gossipsub S) ⦃peer_eq : Eq T.PeerId⦄ ⦃query_eq : Eq T.QueryId⦄ where
  -- A line with a slash first is a command: it is cut at white space, and the first word is the
  -- command's name, in any case.
  pub enter_runs :
      (k : KeyModifiers) (u : Ui T Q) (e : Engine S) {line name : Text} {args : List Text}
      → is_empty u.line.input ≡ false
      → strip_char b'/' u.line.input ≡ some line
      → split_whitespace W.is_whitespace line ≡ name ∷ args
      → handle_input_event S Q W (key enter k) (u, e)
        ≡ run_command S Q W name args
            (command_of S Q W (to_ascii_lowercase name))
            (cleared S Q W P G u, e)
  unfolding handle_input_event handle_key enter_key handle_command
  enter_runs k u e full slash words =
      rw (reset_full S Q W P G u.line full) (rw slash (rw words refl))

  -- Where the screen is drawn, a command `/connect` with an address that does not parse logs the
  -- error and ends the loop with it: nothing is dialled, and the queued events are not handled.
  pub bad_address_ends :
      (fuel : ℕ) (k : KeyModifiers) (h : MyHandler S Q W P) (e : Engine S) {renderer : P.Renderer}
      {line name address : Text} {args : List Text} {x : AddrError}
      → P.render h.renderer h.ui ≡ (renderer, inr tt)
      → is_empty h.ui.line.input ≡ false
      → strip_char b'/' h.ui.line.input ≡ some line
      → split_whitespace W.is_whitespace line ≡ name ∷ address ∷ args
      → to_ascii_lowercase name ≡ codes "connect"
      → NetworkAddr.from_str W.formats address ≡ err x
      → turn S (my_handler S Q W P) fuel (input (inr (key enter k))) (h, e) ≡ (
        (
          record {
            ui =
                failure S Q W P
                  (codes "Error parsing network address: " ++ W.show_addr_error x)
                  (cleared S Q W P G h.ui);
            renderer = renderer;
          },
          e,
        ),
        err (addr_error x),
      )
  unfolding turn on_input handle_input connect text_eq
  bad_address_ends fuel k h e r full slash words name bad =
      rw (r, enter_runs k h.ui e full slash words) (rw name (rw bad refl))
