-- ===== src/Broker/Clients.antt =====
-- Which calls leave the set of clients alone.
use yodi.Base.{ℕ, ◌≡◌, ◌∙◌, Bytes, List, Bool, arith}
use yodi.Base.Keeps.{Keeps}
use yodi.Json.{Json}
use yodi.Message.{QueuedMessage}
use yodi.Store.Contents
use yodi.Store.Contents.{Contents, Ref, contents}
use yodi.Broker.{
  client_set, queue_message, unqueue_message_for_subscriber, encode_message, subscribe,
  finish_subscribe, unsubscribe, pop_message, pop_from, decode_message, pop_queued_message,
  message_queue, queue_message_for_subscribers, update_queued_message_for_subscriber, store_message,
}
use yodi.Broker.Frames.{queue_message_for_subscribers-keeps}
use yodi.Broker.Keys.{same-key_ne, clients, topic_subscribers, client_subscriptions}

module _ (capacity : ℕ) (json : Json) (ids : List Bytes) where
  -- The set of clients holds `ids`.
  abbrev pub HasClients : Contents → Type 0
  HasClients s = s.elements client_set ≡ ids

  pub queue_message-HasClients :
      (topic message : Bytes) (id qos : ℕ)
      → Keeps HasClients (queue_message (contents capacity) json topic message id qos)
  unfolding queue_message encode_message
  queue_message-HasClients topic message id qos = record { at = λ s h. ground arith }

  pub unqueue-HasClients :
      (client_id : Bytes) (id : ℕ)
      → Keeps HasClients (unqueue_message_for_subscriber (contents capacity) json client_id id)
  unfolding unqueue_message_for_subscriber
  unqueue-HasClients client_id id = record { at = λ s h. ground arith }

  pub subscribe-HasClients :
      (c t : Bytes) → Keeps HasClients (subscribe (contents capacity) json c t)
  unfolding subscribe finish_subscribe
  subscribe-HasClients c t = record {
    at = λ s h. ground (
      arith,
      same-key_ne (client_subscriptions c) clients (λ e. cc),
      same-key_ne (topic_subscribers t) clients (λ e. cc),
    );
  }

  pub unsubscribe-HasClients :
      (c t : Bytes) → Keeps HasClients (unsubscribe (contents capacity) json c t)
  unfolding unsubscribe
  unsubscribe-HasClients c t = record {
    at = λ s h. ground (
      arith,
      same-key_ne (client_subscriptions c) clients (λ e. cc),
      same-key_ne (topic_subscribers t) clients (λ e. cc),
    );
  }

-- Which calls leave all sets alone.
module _ (capacity : ℕ) (json : Json) (sets : Bytes → List Bytes) where
  abbrev pub HasSets : Contents → Type 0
  HasSets s = s.elements ≡ sets

  pub pop_from-HasSets :
      (done takes_done : Bool) (q : Ref)
      → Keeps HasSets (pop_from (contents capacity) json done takes_done q)
  unfolding pop_from decode_message
  pop_from-HasSets done takes_done (Contents.set_ref k) = record { at = λ s h. h }
  pop_from-HasSets done takes_done (Contents.queue_ref k) = record { at = λ s h. ground (arith, h) }
  pop_from-HasSets done takes_done (Contents.map_ref k) = record { at = λ s h. h }

  pub update-HasSets :
      (c : Bytes) (m : QueuedMessage)
      → Keeps HasSets (update_queued_message_for_subscriber (contents capacity) json c m)
  unfolding update_queued_message_for_subscriber encode_message store_message
  update-HasSets c m = record { at = λ s h. ground (arith, h) }

  pub pop_queued_message-HasSets :
      (done takes_done : Bool)
      → Keeps HasSets (pop_queued_message (contents capacity) json done takes_done)
  unfolding pop_queued_message pop_message
  pop_queued_message-HasSets done takes_done =
      pop_from-HasSets done takes_done (Contents.queue_ref message_queue)

  pub queue_message_for_subscribers-HasSets :
      (m : QueuedMessage)
      → Keeps (λ s. HasSets s.db) (queue_message_for_subscribers (contents capacity) json m)
  queue_message_for_subscribers-HasSets m = record {
    at = λ s h. (queue_message_for_subscribers-keeps capacity json m s).0 ∙ h;
  }
