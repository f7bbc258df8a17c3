-- ===== src/Broker/Frames.antt =====
-- What the delivery of a message leaves alone: the sets, and the queue of the published messages.
use yodi.Base.{ℕ, ◌≡◌, Bytes, List, [], ◌∷◌, Bool, false, same, refl, arith, for_each, ignore}
use yodi.Message.{QueuedMessage}
use yodi.Json.{Json}
use yodi.Store.Contents.{Contents, contents}
use yodi.Base.Keeps.{Keeps, Keeps-bind, Keeps-ignore, keeps_rules}
use yodi.Broker.{
  Server, queue_message, queue_message_for_subscriber, queue_message_for_subscribers,
  topic_subscribers_set, message_queue, encode_message, store_message, now,
  client_message_notification, pop_queued_message, pop_message, decode_message,
}
use yodi.Broker.Keys.{same-key_ne, client_notify, messages}

notify-messages : (d : Bytes) → same (client_message_notification d) message_queue ≡ false
notify-messages d = same-key_ne (client_notify d) messages (λ e. cc)

messages-notify : (d : Bytes) → same message_queue (client_message_notification d) ≡ false
messages-notify d = same-key_ne messages (client_notify d) (λ e. cc)

module _ (capacity : ℕ) (json : Json) where
  IsFrame : (Bytes → List Bytes) → List Bytes → Server (contents capacity) → Type 0
  IsFrame sets queue s = (s.db.elements ≡ sets) × (s.db.queued message_queue ≡ queue)

  one-Keeps :
      (sets : Bytes → List Bytes) (queue : List Bytes) (m : QueuedMessage) (c : Bytes)
      → Keeps (IsFrame sets queue) (queue_message_for_subscriber (contents capacity) json m c)
  unfolding queue_message_for_subscriber now encode_message store_message IsFrame
  one-Keeps sets queue m c = record {
    at = λ s (h, k). (ground (arith, h), ground (arith, k, notify-messages c));
  }

  loop-Keeps :
      (sets : Bytes → List Bytes) (queue : List Bytes) (m : QueuedMessage) (cs : List Bytes)
      → Keeps
          (IsFrame sets queue)
          (for_each cs (λ c. ignore (queue_message_for_subscriber (contents capacity) json m c)))
  unfolding for_each
  loop-Keeps sets queue m [] = search keeps_rules
  loop-Keeps sets queue m (c ∷ cs) =
      Keeps-bind (ignore (queue_message_for_subscriber (contents capacity) json m c)) _
        (Keeps-ignore _ (one-Keeps sets queue m c)) (λ _. loop-Keeps sets queue m cs)

  pub queue_message_for_subscribers-keeps :
      (m : QueuedMessage) (s : Server (contents capacity))
      → let call = queue_message_for_subscribers (contents capacity) json m s in
        (call.1.db.elements ≡ s.db.elements)
        × (call.1.db.queued message_queue ≡ s.db.queued message_queue)
  unfolding queue_message_for_subscribers IsFrame
  queue_message_for_subscribers-keeps m s =
      (loop-Keeps s.db.elements (s.db.queued message_queue) m
          (s.db.elements (topic_subscribers_set m.topic))).at
        s (refl, refl)

  -- Popping changes no set, and no queue of notifications.
  pub pop_queued_message-keeps :
      (takes_done : Bool) (s : Contents) (raws : List Bytes)
      → s.queued message_queue ≡ raws
      → let call = pop_queued_message (contents capacity) json false takes_done s in
        (call.1.elements ≡ s.elements)
        × ((d : Bytes)
            → call.1.queued (client_message_notification d)
              ≡ s.queued (client_message_notification d))
  unfolding pop_queued_message pop_message decode_message
  pop_queued_message-keeps takes_done s [] e = (ground (arith, e), λ d. ground (arith, e))
  pop_queued_message-keeps takes_done s (raw ∷ raws) e =
      (ground (arith, e), λ d. ground (arith, e, messages-notify d))

  -- Publishing changes no set, and no queue of notifications.
  pub queue_message-keeps :
      (topic message : Bytes) (id qos : ℕ) (s : Contents)
      → let call = queue_message (contents capacity) json topic message id qos s in
        (call.1.elements ≡ s.elements)
        × ((d : Bytes)
            → call.1.queued (client_message_notification d)
              ≡ s.queued (client_message_notification d))
  unfolding queue_message encode_message
  queue_message-keeps topic message id qos s =
      (ground arith, λ d. ground (arith, messages-notify d))
