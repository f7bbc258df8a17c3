-- ===== src/Broker/OnMemory.antt =====
-- The operations of the broker on a memory store follow those on its contents: pkg/mqtt/broker.go over pkg/store/memory_store.go.
use yodi.Base.{ap, ℕ, ◌≡◌, Bytes, Bool, Option, Exec, Result, ok, err, halt, refl}
use yodi.Base.Follows.{
  Follows-bind, Follows-call, Follows-ignore, Follows-for_each, Follows-lift, Follows-then,
  Follows-raise,
}
use yodi.Base.Decimal.{decimal}
use yodi.Json.{Json}
use yodi.Message.{QueuedMessage}
use yodi.Auth.{User, users_map, authenticate_user, find_user, check_user}
use yodi.Store.Contents.{Contents}
use yodi.Store.Memory.{MemoryStore}
use yodi.Store.Memory.View.{queues}
use yodi.Store.Memory.Instance.{memory}
use yodi.Store.Memory.Refines.{view}
use yodi.Store.Memory.Calls.{
  plain, OnMemory, add-OnMemory, remove-OnMemory, members-OnMemory, push-OnMemory, pop-OnMemory,
  get-OnMemory, put-OnMemory, delete-OnMemory, destroy_set-OnMemory, destroy_queue-OnMemory,
  destroy_map-OnMemory,
}
use yodi.Broker.Kinds.{
  broker_kind, at_clients, at_published, at_users, at_topic, at_subscriptions, at_messages,
  at_notify,
}
use yodi.Broker.{
  Server, client_set, message_queue, topic_subscribers_set, client_subscriptions_set,
  client_message_queue, client_message_notification, add_client, remove_client, finish_subscribe,
  subscribe, unsubscribe, encode_message, decode_message, pop_message, pop_queued_message,
  queue_message, store_message, unqueue_message_for_subscriber,
  update_queued_message_for_subscriber,
}

abbrev pub InStep : {A : Type 0} → Exec MemoryStore A → Exec Contents A → Type 0
InStep = OnMemory broker_kind

-- The server of the broker, with the contents of its store in place of the store.
abbrev pub see_server : Server memory → Server plain
see_server s = record { db = view broker_kind s.db; times = s.times; readings = s.readings }

module _ (json : Json) where
  pub add_client-InStep :
      (id : Bytes) → InStep (add_client memory json id) (add_client plain json id)
  unfolding add_client
  add_client-InStep id = add-OnMemory broker_kind client_set id at_clients

  pub remove_client-InStep :
      (id : Bytes) → InStep (remove_client memory json id) (remove_client plain json id)
  unfolding remove_client
  remove_client-InStep id =
      let subs = client_subscriptions_set id in
      let kept = client_message_queue id in
      let notify = client_message_notification id in
      Follows-call (memory.set_of subs) memory.members (plain.set_of subs) plain.members _ _
        (members-OnMemory broker_kind subs (at_subscriptions id))
        (λ topics.
          Follows-bind _ _ _ _
            (Follows-for_each topics _ _
              (λ topic. Follows-ignore _ _ (remove-OnMemory broker_kind _ id (at_topic topic))))
            (λ _.
              Follows-call (memory.set_of subs) memory.destroy (plain.set_of subs) plain.destroy _ _
                (destroy_set-OnMemory broker_kind subs (at_subscriptions id))
                (λ _.
                  Follows-call (memory.map_of kept) memory.destroy (plain.map_of kept) plain.destroy
                    _ _ (destroy_map-OnMemory broker_kind kept (at_messages id))
                    (λ _.
                      Follows-call (memory.queue_of notify) memory.destroy (plain.queue_of notify)
                        plain.destroy _ _ (destroy_queue-OnMemory broker_kind notify (at_notify id))
                        (λ _. remove-OnMemory broker_kind client_set id at_clients)))))

  finish_subscribe-InStep :
      (c t : Bytes) (r : Result (Unit {0}))
      → InStep (finish_subscribe memory json c t r) (finish_subscribe plain json c t r)
  unfolding finish_subscribe
  finish_subscribe-InStep c t (ok u) = record { at = λ s h. (refl, refl, h) }
  finish_subscribe-InStep c t (halt x) = record { at = λ s h. (refl, refl, h) }
  finish_subscribe-InStep c t (err x) =
      Follows-bind _ _ _ _
        (Follows-ignore _ _
          (remove-OnMemory broker_kind (client_subscriptions_set c) t (at_subscriptions c)))
        (λ _. Follows-raise x)

  pub subscribe-InStep :
      (c t : Bytes) → InStep (subscribe memory json c t) (subscribe plain json c t)
  unfolding subscribe
  subscribe-InStep c t =
      Follows-bind _ _ _ _
        (add-OnMemory broker_kind (client_subscriptions_set c) t (at_subscriptions c))
        (λ _.
          Follows-then _ _ (finish_subscribe memory json c t) (finish_subscribe plain json c t)
            (add-OnMemory broker_kind (topic_subscribers_set t) c (at_topic t))
            (finish_subscribe-InStep c t))

  pub unsubscribe-InStep :
      (c t : Bytes) → InStep (unsubscribe memory json c t) (unsubscribe plain json c t)
  unfolding unsubscribe
  unsubscribe-InStep c t =
      Follows-bind _ _ _ _ (remove-OnMemory broker_kind (topic_subscribers_set t) c (at_topic t))
        (λ _. remove-OnMemory broker_kind (client_subscriptions_set c) t (at_subscriptions c))

  pub login-InStep :
      (unmarshal_user : Bytes → Option User) (username password : Bytes)
      → InStep
          (authenticate_user memory unmarshal_user username password)
          (authenticate_user plain unmarshal_user username password)
  unfolding authenticate_user find_user
  login-InStep unmarshal_user username password = record {
    at = λ s h.
        let (answer, effect, kept) =
          (get-OnMemory broker_kind users_map username at_users).at s h in
        (ap (check_user unmarshal_user password) answer, effect, kept);
  }

  pub queue_message-InStep :
      (topic message : Bytes) (id qos : ℕ)
      → InStep
          (queue_message memory json topic message id qos)
          (queue_message plain json topic message id qos)
  unfolding queue_message
  queue_message-InStep topic message id qos =
      Follows-bind _ _ _ _ (Follows-lift _)
        (λ raw. push-OnMemory broker_kind message_queue raw at_published)

  pub unqueue-InStep :
      (c : Bytes) (id : ℕ)
      → InStep
          (unqueue_message_for_subscriber memory json c id)
          (unqueue_message_for_subscriber plain json c id)
  unfolding unqueue_message_for_subscriber
  unqueue-InStep c id =
      delete-OnMemory broker_kind (client_message_queue c) (decimal id) (at_messages c)

  pub store_message-InStep :
      (c : Bytes) (id : ℕ) (raw : Bytes)
      → InStep (store_message memory json c id raw) (store_message plain json c id raw)
  unfolding store_message
  store_message-InStep c id raw =
      put-OnMemory broker_kind (client_message_queue c) (decimal id) raw (at_messages c)

  pub update-InStep :
      (c : Bytes) (m : QueuedMessage)
      → InStep
          (update_queued_message_for_subscriber memory json c m)
          (update_queued_message_for_subscriber plain json c m)
  unfolding update_queued_message_for_subscriber
  update-InStep c m =
      Follows-bind _ _ _ _ (Follows-lift (encode_message plain json m))
        (λ raw. store_message-InStep c m.id raw)

  pub pop_message-InStep :
      (done takes_done : Bool) (queue : Bytes)
      → broker_kind queue ≡ queues
      → InStep
          (pop_message memory json done takes_done queue)
          (pop_message plain json done takes_done queue)
  unfolding pop_message
  pop_message-InStep done takes_done queue e =
      Follows-call (memory.queue_of queue) (memory.pop done takes_done) (plain.queue_of queue)
        (plain.pop done takes_done) _ _ (pop-OnMemory broker_kind queue done takes_done e)
        (λ raw. Follows-lift (decode_message plain json raw))

  pub pop_queued_message-InStep :
      (done takes_done : Bool)
      → InStep
          (pop_queued_message memory json done takes_done)
          (pop_queued_message plain json done takes_done)
  unfolding pop_queued_message
  pop_queued_message-InStep done takes_done =
      pop_message-InStep done takes_done message_queue at_published
