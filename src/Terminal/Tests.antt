-- ===== src/Terminal/Tests.antt =====
-- Examples of the program: one topic, and a line that is sent.
use trithemius_p2p.Base.{
  ◌≡◌, refl, Text, ℕ, codes, text_eq, false, true, none, some, [], ◌∷◌, ok, err, inr, Holds, arith,
}
use trithemius_p2p.Base.Map.{lookup, insert}
use trithemius_p2p.Util.{nil}
use trithemius_p2p.Transports.Tor.{multiaddr_eq}
use trithemius_p2p.Subscriptions.Queue.{list_queue}
use trithemius_p2p.Subscriptions.{Subscription, push_message}
use trithemius_p2p.TopicList.{current}
use trithemius_p2p.Engine.Events.{shutdown}
use trithemius_p2p.Engine.Events
use trithemius_p2p.Engine.Run.{turn, input, swarm_event, goes_on}
use trithemius_p2p.Engine.Queue.{see_all}
use trithemius_p2p.Ui.Keys.{key, enter, esc, KeyModifiers}
use trithemius_p2p.Ui.InSync.Keys.{sent_from}
use trithemius_p2p.Ui.Examples.{
  packages, swarm, world, gossipsub, engine, chatting, joined_chat, chatting-InSync,
}
use trithemius_p2p.Terminal.{Packages, dialer}
use trithemius_p2p.NetworkAddr
use trithemius_p2p.NetworkAddr.Formats.{parsing_error}
use trithemius_p2p.Ui.{addr_error}
use trithemius_p2p.Ui.Keys.{split_whitespace}
use trithemius_p2p.Terminal.Events.{see, failure}
use trithemius_p2p.Terminal.Commands.{bad_address_ends}
use trithemius_p2p.Terminal.Progress.{Proceeds, turn-Proceeds}
use trithemius_p2p.Terminal.Handler.{MyHandler, my_handler}
use trithemius_p2p.Terminal.Startup.{Options}
use trithemius_p2p.Terminal.InSync.{Agrees}
use trithemius_p2p.Terminal.Program.{run, run-Agrees}
use trithemius_p2p.Terminal.Chat.{observes, cleared, enter_publishes, see-message}

-- A screen that counts its drawings.
abbrev screen : Packages swarm list_queue
screen = record {
  Renderer = ℕ;
  render = λ n u. (n, inr tt);
  point = λ p. dialer nil;
  debug_point = λ p. [];
  debug_cause = λ c. [];
  debug_listener = λ l. [];
  show_topic = λ t. t;
  namespace_of = λ r. [];
  show_namespace = λ n. n;
  debug_namespace = λ n. [];
  debug_error_code = λ c. [];
  show_register_error = λ e. [];
  debug_event = λ e. [];
}

abbrev no_modifiers : KeyModifiers
no_modifiers = record { control = false; others = false }

abbrev options : Options packages
options = record {
  subscribe = some (codes "chat");
  listen = none;
  connect = none;
  create_onion_service = none;
  register = none;
}

nothing_joined : (t : Text) → gossipsub.joined [] t ≡ false
unfolding lookup
nothing_joined t = refl

is_joined : gossipsub.joined ((codes "chat", tt) ∷ []) (codes "chat") ≡ true
unfolding lookup text_eq
is_joined = refl

run-Agrees_example : Holds (Agrees swarm list_queue world screen gossipsub) (
    run swarm list_queue world screen 3 options
      (input (inr (key enter no_modifiers))
        ∷ swarm_event shutdown
        ∷ input (inr (key esc no_modifiers))
        ∷ [])
      0
      (engine [] []))
run-Agrees_example =
    run-Agrees swarm list_queue world screen gossipsub 3 options
      (input (inr (key enter no_modifiers))
        ∷ swarm_event shutdown
        ∷ input (inr (key esc no_modifiers))
        ∷ [])
      0 (engine [] []) nothing_joined

abbrev typing : MyHandler swarm list_queue world screen
typing = record { ui = chatting (codes "hi"); renderer = 0 }

tab_selected : current typing.ui.subscription_list ≡ some (codes "chat")
unfolding current
tab_selected = refl

enter_publishes_example :
    (s : Subscription list_queue) × (lookup (codes "chat") typing.ui.subscriptions ≡ some s)
    × (turn swarm
          (my_handler swarm list_queue world screen)
          2
          (input (inr (key enter no_modifiers)))
          (typing, joined_chat (shutdown ∷ []))
        ≡ (
          (
            see_all swarm
                (my_handler swarm list_queue world screen)
                (observes swarm list_queue world screen gossipsub)
                (record {
                  ui =
                      sent_from swarm list_queue world gossipsub
                        (cleared swarm list_queue world screen gossipsub typing.ui)
                        (codes "chat")
                        s
                        (codes "hi");
                  renderer = 0;
                })
                (shutdown ∷ []),
            joined_chat [],
          ),
          ok goes_on,
        ))
enter_publishes_example =
    enter_publishes swarm list_queue world screen gossipsub 2 no_modifiers typing
      (joined_chat (shutdown ∷ [])) (codes "chat") (chatting-InSync (codes "hi") (shutdown ∷ []))
      refl tab_selected refl refl (omega arith) refl

see-message_example :
    (s : Subscription list_queue) × (lookup (codes "chat") (chatting []).subscriptions ≡ some s)
    × (see swarm list_queue world screen
          (chatting [])
          (Events.message (some (codes "you")) none (codes "chat") none none (codes "hello"))
        ≡ record (chatting []) {
          subscriptions =
              insert
                (codes "chat")
                (push_message list_queue s (record {
                  date = 0;
                  topic = codes "chat";
                  user = some (codes "you");
                  message = codes "hello";
                }))
                (chatting []).subscriptions;
          clock_reads = 1;
        })
see-message_example =
    see-message swarm list_queue world screen gossipsub (codes "you") none (codes "chat") none none
      (codes "hello") (chatting []) (joined_chat []) (chatting-InSync [] []) is_joined

abbrev connecting : MyHandler swarm list_queue world screen
connecting = record { ui = chatting (codes "/Connect x"); renderer = 0 }

bad_address_ends_example :
    turn swarm
      (my_handler swarm list_queue world screen)
      2
      (input (inr (key enter no_modifiers)))
      (connecting, joined_chat (shutdown ∷ []))
    ≡ (
      (
        record {
          ui =
              failure swarm list_queue world screen
                (codes "Error parsing network address: ")
                (cleared swarm list_queue world screen gossipsub connecting.ui);
          renderer = 0;
        },
        joined_chat (shutdown ∷ []),
      ),
      err (addr_error (parsing_error (codes "No port specified"))),
    )
unfolding split_whitespace NetworkAddr.from_str
bad_address_ends_example =
    bad_address_ends swarm list_queue world screen gossipsub 2 no_modifiers connecting
      (joined_chat (shutdown ∷ [])) {args = []} refl refl refl refl refl refl

turn-Proceeds_example : Proceeds swarm list_queue world screen gossipsub (
    turn swarm
      (my_handler swarm list_queue world screen)
      2
      (input (inr (key enter no_modifiers)))
      (typing, joined_chat (shutdown ∷ [])))
turn-Proceeds_example =
    turn-Proceeds swarm list_queue world screen gossipsub 2 (input (inr (key enter no_modifiers)))
      typing (joined_chat (shutdown ∷ [])) (chatting-InSync (codes "hi") (shutdown ∷ [])) refl refl
      (omega arith)
