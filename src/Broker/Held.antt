-- ===== src/Broker/Held.antt =====
-- What the broker, its clients and the mailman do to a memory store leaves alone a reference that a goroutine holds:
-- pkg/mqtt/broker.go over pkg/store/memory_store.go.
use mathlib.Core.Path.{subst}
use yodi.Base.Follows.{Same}
use yodi.Store.Contents
use yodi.Store.Memory.Calls.{plain}
use yodi.Store.Memory.Refines.{view}
use yodi.Broker.OnMemory.{pop_message-InStep}
use yodi.Base.{
  ◌≡◌, some, ap, continue, Bytes, ℕ, List, [], ◌∷◌, Bool, Exec, Result, ok, err, halt, Option,
  ◌>>=◌, for_each, ignore,
}
use yodi.Base.Keeps.{Keeps, Keeps-bind, Keeps-ignore, Keeps-pure, Keeps-lift}
use yodi.Json.{Json}
use yodi.Message.{QueuedMessage}
use yodi.Auth.{User, users_map, authenticate_user, find_user}
use yodi.Store.Memory.{MemoryStore, MemoryRef}
use yodi.Store.Memory.Held.{IsHeld, held_rules}
use yodi.Store.Contents.{Contents}
use yodi.Store.Memory.View.{IsSound, queues}
use yodi.Base.Assoc.{lookup}
use yodi.Broker.Kinds.{broker_kind}
use yodi.Store.Memory.Stale.{queue_of_current, IsUnseen, on_object-IsUnseen}
use yodi.Store.Memory.Instance.{memory}
use yodi.Broker.{
  topic_subscribers_set, Server, on_db, now, add_client, remove_client, finish_subscribe, subscribe,
  unsubscribe, pop_from, pop_message, pop_queued_message, queue_message, store_message,
  queue_message_for_subscriber, queue_message_for_subscribers, unqueue_message_for_subscriber,
  update_queued_message_for_subscriber,
}

module _ (json : Json) (r : MemoryRef) where
  abbrev Holds : {A : Type 0} → Exec MemoryStore A → Type 0
  Holds = Keeps (IsHeld r)

  pub add_client-IsHeld : (id : Bytes) → Holds (add_client memory json id)
  unfolding add_client
  add_client-IsHeld id = search held_rules

  for_each-IsHeld :
      (xs : List Bytes) (f : Bytes → Exec MemoryStore (Unit {0}))
      → ((x : Bytes) → Holds (f x))
      → Holds (for_each xs f)
  unfolding for_each
  for_each-IsHeld [] f k = Keeps-pure tt
  for_each-IsHeld (x ∷ xs) f k = Keeps-bind _ _ (k x) (λ _. for_each-IsHeld xs f k)

  pub remove_client-IsHeld : (id : Bytes) → Holds (remove_client memory json id)
  unfolding remove_client
  remove_client-IsHeld id = search (held_rules, for_each-IsHeld) depth 30

  finish_subscribe-IsHeld :
      (c t : Bytes) (q : Result (Unit {0})) → Holds (finish_subscribe memory json c t q)
  unfolding finish_subscribe
  finish_subscribe-IsHeld c t (ok u) = record { at = λ s h. h }
  finish_subscribe-IsHeld c t (halt x) = record { at = λ s h. h }
  finish_subscribe-IsHeld c t (err x) = search held_rules depth 10

  set_add-IsHeld : (k v : Bytes) → Holds (memory.set_of k >>= λ q. memory.add q v)
  set_add-IsHeld k v = search held_rules

  pub subscribe-IsHeld : (c t : Bytes) → Holds (subscribe memory json c t)
  unfolding subscribe
  subscribe-IsHeld c t = Keeps-bind _ _ (set_add-IsHeld _ t) (λ _. record {
    at = λ s h. (finish_subscribe-IsHeld c t _).at _ ((set_add-IsHeld _ c).at s h);
  })

  pub unsubscribe-IsHeld : (c t : Bytes) → Holds (unsubscribe memory json c t)
  unfolding unsubscribe
  unsubscribe-IsHeld c t = search held_rules depth 10

  pub login-IsHeld :
      (unmarshal_user : Bytes → Option User) (username password : Bytes)
      → Holds (authenticate_user memory unmarshal_user username password)
  unfolding authenticate_user find_user
  login-IsHeld unmarshal_user username password = record {
    at = λ s h.
        let k : Holds (memory.map_of users_map >>= λ q. memory.map_get q username) =
          search held_rules in
        k.at s h;
  }

  pub queue_message-IsHeld :
      (topic message : Bytes) (id qos : ℕ) → Holds (queue_message memory json topic message id qos)
  unfolding queue_message
  queue_message-IsHeld topic message id qos = search held_rules depth 10

  pub unqueue-IsHeld :
      (c : Bytes) (id : ℕ) → Holds (unqueue_message_for_subscriber memory json c id)
  unfolding unqueue_message_for_subscriber
  unqueue-IsHeld c id = search held_rules

  store_message-IsHeld :
      (c : Bytes) (id : ℕ) (raw : Bytes) → Holds (store_message memory json c id raw)
  unfolding store_message
  store_message-IsHeld c id raw = search held_rules

  pub update-IsHeld :
      (c : Bytes) (m : QueuedMessage) → Holds (update_queued_message_for_subscriber memory json c m)
  unfolding update_queued_message_for_subscriber
  update-IsHeld c m = search (held_rules, store_message-IsHeld)

  pub pop_from-IsHeld :
      (done takes_done : Bool) (q : MemoryRef) → Holds (pop_from memory json done takes_done q)
  unfolding pop_from
  pop_from-IsHeld done takes_done q = search held_rules

  pub pop_queued_message-IsHeld :
      (done takes_done : Bool) → Holds (pop_queued_message memory json done takes_done)
  unfolding pop_queued_message pop_message
  pop_queued_message-IsHeld done takes_done = search (held_rules, pop_from-IsHeld)

  abbrev pub Serves : {A : Type 0} → Exec (Server memory) A → Type 0
  Serves = Keeps (λ s. IsHeld r s.db)

  pub on_db-IsHeld : {A : Type 0} (m : Exec MemoryStore A) → Holds m → Serves (on_db memory json m)
  on_db-IsHeld m k = record { at = λ s h. k.at s.db h }

  now-IsHeld : Serves (now memory json)
  unfolding now
  now-IsHeld = record { at = λ s h. h }

  one-IsHeld :
      (m : QueuedMessage) (c : Bytes) → Serves (queue_message_for_subscriber memory json m c)
  unfolding queue_message_for_subscriber
  one-IsHeld m c = search (held_rules, now-IsHeld, on_db-IsHeld, store_message-IsHeld) depth 20

  each-IsHeld :
      (m : QueuedMessage) (cs : List Bytes)
      → Serves (for_each cs (λ c. ignore (queue_message_for_subscriber memory json m c)))
  unfolding for_each
  each-IsHeld m [] = Keeps-pure tt
  each-IsHeld m (c ∷ cs) = Keeps-bind _ _ (Keeps-ignore _ (one-IsHeld m c)) (λ _. each-IsHeld m cs)

  pub queue_message_for_subscribers-IsHeld :
      (m : QueuedMessage) → Serves (queue_message_for_subscribers memory json m)
  unfolding queue_message_for_subscribers
  queue_message_for_subscribers-IsHeld m =
      Keeps-bind _ _
        (on_db-IsHeld (memory.set_of (topic_subscribers_set m.topic)) (search held_rules))
        (λ q.
          Keeps-bind _ _ (on_db-IsHeld (memory.members q) (search held_rules))
            (λ cs. each-IsHeld m cs))

  -- A call on the queue that the key still points to is seen as one on the queue of the key.
  pub pop_from_current :
      (done takes_done : Bool) (s : MemoryStore)
      → IsSound broker_kind s
      → broker_kind r.key ≡ queues
      → lookup r.key s.items ≡ some r.address
      → Same
          (view broker_kind)
          (IsSound broker_kind)
          (pop_from memory json done takes_done r s)
          (pop_from plain json done takes_done (Contents.queue_ref r.key) (view broker_kind s))
  unfolding pop_message
  pop_from_current done takes_done s h e at =
      subst
        (λ c.
          Same (view broker_kind) (IsSound broker_kind) c
            (pop_from plain json done takes_done (Contents.queue_ref r.key) (view broker_kind s)))
        (ap (λ p. continue p.0 (pop_from memory json done takes_done) p.1)
          (queue_of_current broker_kind s r h e at))
        ((pop_message-InStep json done takes_done r.key e).at s h)

  -- A call on another one is seen by nobody.
  pub pop_from-IsUnseen :
      (done takes_done : Bool) (v : Contents)
      → Keeps (IsUnseen broker_kind r v) (pop_from memory json done takes_done r)
  unfolding pop_from
  pop_from-IsUnseen done takes_done v =
      Keeps-bind _ _ (on_object-IsUnseen broker_kind r v _) (λ raw. Keeps-lift _)
