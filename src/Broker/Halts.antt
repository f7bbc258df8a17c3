-- ===== src/Broker/Halts.antt =====
-- The calls of a client on the abstract store return, except that a full queue waits.
use yodi.Base.{ℕ, ◌≢◌, Bytes, halt, Halt, arith}
use yodi.Json.{Json}
use yodi.Auth.{authenticate_user, find_user, check_user, check_password}
use yodi.Store.Contents.{Contents, contents}
use yodi.Broker.{
  add_client, queue_message, unqueue_message_for_subscriber, subscribe, finish_subscribe,
  unsubscribe, encode_message,
}

module _ (capacity : ℕ) (json : Json) (s : Contents) (h : Halt) where
  pub login-ne-halt :
      (username password : Bytes)
      → (authenticate_user (contents capacity) json.unmarshal_user username password s).0 ≢ halt h
  unfolding authenticate_user find_user check_user check_password
  login-ne-halt username password = ground arith

  pub add_client-ne-halt : (id : Bytes) → (add_client (contents capacity) json id s).0 ≢ halt h
  unfolding add_client
  add_client-ne-halt id = ground arith

  pub queue_message-ne-halt :
      (topic message : Bytes) (id qos : ℕ)
      → h ≢ Halt.blocks
      → (queue_message (contents capacity) json topic message id qos s).0 ≢ halt h
  unfolding queue_message encode_message
  queue_message-ne-halt topic message id qos n = ground arith

  pub unqueue-ne-halt :
      (client_id : Bytes) (id : ℕ)
      → (unqueue_message_for_subscriber (contents capacity) json client_id id s).0 ≢ halt h
  unfolding unqueue_message_for_subscriber
  unqueue-ne-halt client_id id = ground arith

  pub subscribe-ne-halt :
      (client_id topic : Bytes) → (subscribe (contents capacity) json client_id topic s).0 ≢ halt h
  unfolding subscribe finish_subscribe
  subscribe-ne-halt client_id topic = ground arith

  pub unsubscribe-ne-halt :
      (client_id topic : Bytes)
      → (unsubscribe (contents capacity) json client_id topic s).0 ≢ halt h
  unfolding unsubscribe
  unsubscribe-ne-halt client_id topic = ground arith
