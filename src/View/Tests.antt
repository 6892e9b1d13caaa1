-- ===== src/View/Tests.antt =====
-- Examples of the view.
use trithemius_p2p.Base.{◌≡◌, some, Text, codes, text_eq}
use trithemius_p2p.Subscriptions.Queue.{list_queue}
use trithemius_p2p.View.{View, new, new_user, get_user_id}
use trithemius_p2p.View.Users.{IsValid, new-IsValid, new_user-IsValid}

abbrev first : View list_queue Text
first = new list_queue

new_user-IsValid_example :
    IsValid list_queue (new_user list_queue (codes "p") first)
    × (get_user_id list_queue (some (codes "p")) (new_user list_queue (codes "p") first) ≡ some 0)
new_user-IsValid_example = new_user-IsValid list_queue (codes "p") first (new-IsValid list_queue)
