-- ===== src/Ui/Tests.antt =====
-- Examples of the interface: a topic with a tab, and a line in the input.
use trithemius_p2p.Base.{false, refl, codes, text_eq, []}
use trithemius_p2p.Subscriptions.Queue.{list_queue}
use trithemius_p2p.Ui.Keys.{key, enter, handle_input_event}
use trithemius_p2p.Ui.InSync.Keys.{Succeeds, handle_input_event-Succeeds}
use trithemius_p2p.Ui.Examples.{swarm, world, gossipsub, chatting, joined_chat, chatting-InSync}

handle_input_event-Succeeds_example : Succeeds swarm list_queue world gossipsub (joined_chat []) (
    handle_input_event swarm list_queue world
      (key enter (record { control = false; others = false }))
      (chatting (codes "hi"), joined_chat []))
handle_input_event-Succeeds_example =
    handle_input_event-Succeeds swarm list_queue world gossipsub
      (key enter (record { control = false; others = false })) (chatting (codes "hi"))
      (joined_chat []) refl (chatting-InSync (codes "hi") [])
