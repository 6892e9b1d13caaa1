-- ===== src/Subscriptions/Tests.antt =====
-- Examples of the subscriptions.
use trithemius_p2p.Base.{◌≡◌, refl, codes, text_eq, none, some, [], ◌∷◌, ok, Text}
use trithemius_p2p.Base.Map.{insert, lookup}
use trithemius_p2p.Subscriptions.{
  ChatMessage, Subscriptions, new_subscription, push_message, add, get, add_message,
}
use trithemius_p2p.Subscriptions.Queue.{list_queue, list_queue-IsLawful}
use trithemius_p2p.Subscriptions.Laws.{Shows, add-Shows, add_messages, add_messages-Shows}

abbrev chat : Text
chat = codes "chat"

abbrev hello : ChatMessage
hello = record { date = 1; topic = chat; user = none; message = codes "hello" }

abbrev bye : ChatMessage
bye = record { date = 2; topic = chat; user = some (codes "peer"); message = codes "bye" }

abbrev one_topic : Subscriptions list_queue
one_topic = add list_queue [] chat

get-one_topic : get list_queue one_topic chat ≡ some (new_subscription list_queue chat)
unfolding add get insert lookup text_eq
get-one_topic = refl

add_messages-Shows_example :
    (m' : Subscriptions list_queue) × (add_messages list_queue one_topic chat (hello ∷ bye ∷ [])
      ≡ ok m')
    × Shows list_queue (list_queue-IsLawful ChatMessage) chat (hello ∷ bye ∷ []) m'
add_messages-Shows_example =
    add_messages-Shows list_queue (list_queue-IsLawful ChatMessage) one_topic chat
      (hello ∷ bye ∷ []) [] (add-Shows list_queue (list_queue-IsLawful ChatMessage) [] chat)

abbrev one_message : Subscriptions list_queue
one_message =
    insert chat (push_message list_queue (new_subscription list_queue chat) hello) one_topic

message_added : add_message list_queue one_topic chat hello ≡ ok one_message
unfolding add_message add insert lookup text_eq
message_added = refl
