-- ===== src/Broker/Others.antt =====
-- What the calls of one client leave to another.
use yodi.Base.{ℕ, ◌≡◌, ◌≢◌, ◌∙◌, Bytes, arith, contains-append, contains-without, same_iff}
use yodi.Base.Keeps.{Keeps}
use yodi.Json.{Json}
use yodi.Store.Contents.{Contents, contents}
use yodi.Broker.{
  queue_message, unqueue_message_for_subscriber, encode_message, subscribe, finish_subscribe,
  unsubscribe, topic_subscribers_set, client_subscriptions_set, client_message_queue,
}
use yodi.Broker.Delivery.{notified}
use yodi.Broker.Frames.{queue_message-keeps}
use yodi.Broker.Messages.{same-messages}
use yodi.Broker.Keys.{same-topic_client, same-client_topic, same-topics, same-clients}
use yodi.Broker.Subscriptions.{subscriber}

-- All that the broker keeps for the client `d` in `s`, it keeps for it in `s'`: its subscriptions, in both indices, the
-- messages that wait for its acknowledgement, and its notifications.
pub record IsUntouched (d : Bytes) (s s' : Contents) : Type 0 where
  pub subscribers : (topic : Bytes) → subscriber s' topic d ≡ subscriber s topic d
  pub subscriptions :
      s'.elements (client_subscriptions_set d) ≡ s.elements (client_subscriptions_set d)
  pub kept : s'.entries (client_message_queue d) ≡ s.entries (client_message_queue d)
  pub notifications : notified s' d ≡ notified s d

module _ (capacity : ℕ) (json : Json) (d : Bytes) (s0 : Contents) where
  pub queue_message-IsUntouched :
      (topic message : Bytes) (id qos : ℕ)
      → Keeps (IsUntouched d s0) (queue_message (contents capacity) json topic message id qos)
  unfolding queue_message encode_message
  queue_message-IsUntouched topic message id qos = record {
    at = λ s h.
        let (sets, notes) = queue_message-keeps capacity json topic message id qos s in
        record {
          subscribers = λ t. ground (arith, h.subscribers t);
          subscriptions = ground (arith, h.subscriptions);
          kept = ground (arith, h.kept);
          notifications = notes d ∙ h.notifications;
        };
  }

  module _ (c : Bytes) (other : c ≢ d) where
    pub unqueue-IsUntouched :
        (id : ℕ)
        → Keeps (IsUntouched d s0) (unqueue_message_for_subscriber (contents capacity) json c id)
    unfolding unqueue_message_for_subscriber
    unqueue-IsUntouched id = record {
      at = λ s h. record {
        subscribers = λ t. ground (arith, h.subscribers t);
        subscriptions = ground (arith, h.subscriptions);
        kept = ground (arith, h.kept, same-messages c d, same_iff c d, other);
        notifications = ground (arith, h.notifications);
      };
    }

    pub subscribe-IsUntouched :
        (topic : Bytes) → Keeps (IsUntouched d s0) (subscribe (contents capacity) json c topic)
    unfolding subscribe finish_subscribe
    subscribe-IsUntouched topic = record {
      at = λ s h. record {
        subscribers = λ t. ground (
          arith,
          h.subscribers t,
          same-client_topic c t,
          same-topics topic t,
          same_iff topic t,
          same_iff c d,
          other,
          contains-append (s.elements (topic_subscribers_set topic)) c d,
        );
        subscriptions = ground (
          arith,
          h.subscriptions,
          same-topic_client topic d,
          same-clients c d,
          same_iff c d,
          other,
        );
        kept = ground (arith, h.kept);
        notifications = ground (arith, h.notifications);
      };
    }

    pub unsubscribe-IsUntouched :
        (topic : Bytes) → Keeps (IsUntouched d s0) (unsubscribe (contents capacity) json c topic)
    unfolding unsubscribe
    unsubscribe-IsUntouched topic = record {
      at = λ s h. record {
        subscribers = λ t. ground (
          arith,
          h.subscribers t,
          same-client_topic c t,
          same-topics topic t,
          same_iff topic t,
          same_iff c d,
          other,
          contains-without c (s.elements (topic_subscribers_set topic)) d,
        );
        subscriptions = ground (
          arith,
          h.subscriptions,
          same-topic_client topic d,
          same-clients c d,
          same_iff c d,
          other,
        );
        kept = ground (arith, h.kept);
        notifications = ground (arith, h.notifications);
      };
    }
