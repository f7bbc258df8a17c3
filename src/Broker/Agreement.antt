-- ===== src/Broker/Agreement.antt =====
-- Which calls keep the two indices of the subscriptions in step.
use yodi.Base.{ℕ, ◌≡◌, Bytes, arith}
use yodi.Base.Keeps.{Keeps}
use yodi.Json.{Json}
use yodi.Auth.{authenticate_user, find_user}
use yodi.Store.Contents.{Contents, contents}
use yodi.Broker.{
  add_client, queue_message, unqueue_message_for_subscriber, encode_message, topic_subscribers_set,
  client_subscriptions_set,
}
use yodi.Broker.Keys.{same-set_topic, same-set_client}
use yodi.Broker.Subscriptions.{IsAgreed}

module _ (capacity : ℕ) (json : Json) where
  -- What leaves both indices alone.
  same_indices :
      (s s' : Contents)
      → ((t : Bytes) → s'.elements (topic_subscribers_set t) ≡ s.elements (topic_subscribers_set t))
      → ((c : Bytes)
          → s'.elements (client_subscriptions_set c) ≡ s.elements (client_subscriptions_set c))
      → IsAgreed s
      → IsAgreed s'
  same_indices s s' ts cs h = record { agree = λ t c. ground (arith, ts t, cs c, h.agree t c) }

  pub login-IsAgreed :
      (username password : Bytes)
      → Keeps IsAgreed (authenticate_user (contents capacity) json.unmarshal_user username password)
  unfolding authenticate_user find_user
  login-IsAgreed username password = record { at = λ s h. h }

  pub add_client-IsAgreed : (id : Bytes) → Keeps IsAgreed (add_client (contents capacity) json id)
  unfolding add_client
  add_client-IsAgreed id = record {
    at = λ s.
        same_indices s _ (λ t. ground (arith, same-set_topic t))
          (λ c. ground (arith, same-set_client c));
  }

  pub queue_message-IsAgreed :
      (topic message : Bytes) (id qos : ℕ)
      → Keeps IsAgreed (queue_message (contents capacity) json topic message id qos)
  unfolding queue_message encode_message
  queue_message-IsAgreed topic message id qos = record {
    at = λ s. same_indices s _ (λ t. ground arith) (λ c. ground arith);
  }

  pub unqueue-IsAgreed :
      (client_id : Bytes) (id : ℕ)
      → Keeps IsAgreed (unqueue_message_for_subscriber (contents capacity) json client_id id)
  unfolding unqueue_message_for_subscriber
  unqueue-IsAgreed client_id id = record {
    at = λ s. same_indices s _ (λ t. ground arith) (λ c. ground arith);
  }
