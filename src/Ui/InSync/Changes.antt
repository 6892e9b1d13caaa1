-- ===== src/Ui/InSync/Changes.antt =====
-- The changes that keys make to the parts that agree.
use trithemius_p2p.Base.{◌≡◌, sym, ap, ◌∙◌, Text, text_eq, Bool, some, is_some, contains, arith}
use mathlib.Core.Option.{some-injective}
use trithemius_p2p.Base.Map.{lookup, insert, lookup-insert}
use trithemius_p2p.Subscriptions.Queue.{CircularQueue}
use trithemius_p2p.Subscriptions.{Subscription, Subscriptions, ChatMessage, push_message}
use trithemius_p2p.TopicList.{SubscriptionList}
use trithemius_p2p.TopicList.Select.{current-some}
use trithemius_p2p.TopicList.Select
use trithemius_p2p.InputLine.{InputLine}
use trithemius_p2p.InputLine.Zipper
use trithemius_p2p.InputLine.Zipper.{edit-IsValid}
use trithemius_p2p.Ui.InSync.{Agree}

module _ {Q : CircularQueue} {f : Text → Bool} {m : Subscriptions Q} {l : SubscriptionList}
    {i : InputLine} (h : Agree Q f m l i) where
  pub Agree-line : {i' : InputLine} → Zipper.IsValid i' → Agree Q f m l i'
  Agree-line v = record {
    entries = h.entries;
    own_topic = h.own_topic;
    tabs_of = h.tabs_of;
    tabs_IsDistinct = h.tabs_IsDistinct;
    tabs_IsValid = h.tabs_IsValid;
    line_IsValid = v;
  }

  -- A move of the selection changes no tab.
  pub Agree-tabs : {l' : SubscriptionList} → l'.list ≡ l.list → Select.IsValid l' → Agree Q f m l' i
  Agree-tabs e v = record {
    entries = h.entries;
    own_topic = h.own_topic;
    tabs_of = λ t. ap (λ xs. contains xs t) e ∙ h.tabs_of t;
    tabs_IsDistinct = rw e h.tabs_IsDistinct;
    tabs_IsValid = v;
    line_IsValid = h.line_IsValid;
  }

  -- A message in the queue of a topic that has one.
  pub Agree-push :
      (topic : Text) (s : Subscription Q) (x : ChatMessage)
      → lookup topic m ≡ some s
      → Agree Q f (insert topic (push_message Q s x) m) l i
  Agree-push topic s x found = record {
    entries = λ t. elim (text_eq.dec t topic) [
      | yes same ↦
          ap is_some (lookup-insert t topic (push_message Q s x) m)
          ∙ ground arith
          ∙ ap is_some (sym found)
          ∙ h.entries topic
          ∙ ap f (sym same)
      | no differ ↦
          ap is_some (lookup-insert t topic (push_message Q s x) m) ∙ ground (arith, h.entries t)
    ];
    own_topic = own;
    tabs_of = h.tabs_of;
    tabs_IsDistinct = h.tabs_IsDistinct;
    tabs_IsValid = h.tabs_IsValid;
    line_IsValid = h.line_IsValid;
  }
    where
      own :
          (t : Text) (r : Subscription Q)
          → lookup t (insert topic (push_message Q s x) m) ≡ some r
          → r.topic ≡ t
      own t r e = elim (text_eq.dec t topic) [
        | yes same ↦
            let k : some (push_message Q s x) ≡ some r =
              ground (arith, lookup-insert t topic (push_message Q s x) m) in
            ap (λ r. r.topic) (sym (some-injective _ _ k)) ∙ h.own_topic topic s found ∙ sym same
        | no differ ↦ h.own_topic t r (ground (arith, lookup-insert t topic (push_message Q s x) m))
      ]
