-- ===== src/Broker/Serving.antt =====
-- The broker's work for the subscribers of a message on a memory store follows that on the contents of
-- the store: pkg/mqtt/broker.go over pkg/store/memory_store.go.
use yodi.Base.{ap, ◌≡◌, sym, Bytes, Exec, Result, ok, err, halt, continue, refl, ◌>>=◌, ◌==◌}
use yodi.Base.Follows.{
  Follows, Same, Follows-bind, Follows-call, Follows-ignore, Follows-for_each, Follows-pure,
  Follows-lift, Follows-if,
}
use mathlib.Core.Path.{subst}
use yodi.Json.{Json}
use yodi.Store.{Store}
use yodi.Message.{QueuedMessage, qos0}
use yodi.Store.Contents.{Contents}
use yodi.Store.Memory.{MemoryStore}
use yodi.Store.Memory.View.{IsSound}
use yodi.Store.Memory.Instance.{memory}
use yodi.Store.Memory.Calls.{plain, members-OnMemory, push-OnMemory}
use yodi.Broker.Kinds.{broker_kind, at_topic, at_notify}
use yodi.Broker.OnMemory.{InStep, see_server, store_message-InStep}
use yodi.Broker.{
  Server, on_db, topic_subscribers_set, client_message_notification, encode_message, now,
  generate_message_id, queue_message_for_subscriber, queue_message_for_subscribers,
}

abbrev pub InServer : Server memory → Type 0
InServer s = IsSound broker_kind s.db

abbrev pub Serving : {A : Type 0} → Exec (Server memory) A → Exec (Server plain) A → Type 0
Serving = Follows see_server InServer

-- Two calls on the store, one after the other, are one call.
module _ {A B : Type 0} (st : Store) (json : Json) (m : Exec (st.State) A)
    (f : A → Exec (st.State) B) where
  on_db-bind :
      (s : Server st)
      → (on_db st json m >>= (λ a. on_db st json (f a))) s ≡ on_db st json (m >>= f) s
  on_db-bind s = continues (m s.db).0 (m s.db).1
    where
      continues :
          (r : Result A) (u : st.State)
          → continue r (λ a. on_db st json (f a)) (record s { db = u })
            ≡ ((continue r f u).0, record s { db = (continue r f u).1 })
      continues (ok a) u = refl
      continues (err e) u = refl
      continues (halt h) u = refl

module _ (json : Json) where
  pub on_db-Serving :
      {A : Type 0} (m : Exec MemoryStore A) (m' : Exec Contents A)
      → InStep m m'
      → Serving (on_db memory json m) (on_db plain json m')
  on_db-Serving m m' k = record {
    at = λ s h.
        let (answer, effect, kept) = k.at s.db h in
        (answer, ap (λ db. record (see_server s) { db = db }) effect, kept);
  }

  now-Serving : Serving (now memory json) (now plain json)
  unfolding now
  now-Serving = record { at = λ s h. (refl, refl, h) }

  -- A reference that is found, and a call on it.
  called-Serving :
      {A R R' : Type 0} (find : Exec MemoryStore R) (op : R → Exec MemoryStore A)
      (find' : Exec Contents R') (op' : R' → Exec Contents A)
      → InStep (find >>= op) (find' >>= op')
      → Serving
          (on_db memory json find >>= (λ r. on_db memory json (op r)))
          (on_db plain json find' >>= (λ r. on_db plain json (op' r)))
  called-Serving find op find' op' k = record {
    at = λ s h.
        subst
          (λ q.
            Same see_server InServer q
              ((on_db plain json find' >>= (λ r. on_db plain json (op' r))) (see_server s)))
          (sym (on_db-bind memory json find op s))
          (subst (λ q. Same see_server InServer (on_db memory json (find >>= op) s) q)
            (sym (on_db-bind plain json find' op' (see_server s)))
            ((on_db-Serving (find >>= op) (find' >>= op') k).at s h));
  }

  queue_message_for_subscriber-Serving :
      (m : QueuedMessage) (c : Bytes)
      → Serving
          (queue_message_for_subscriber memory json m c)
          (queue_message_for_subscriber plain json m c)
  unfolding queue_message_for_subscriber
  queue_message_for_subscriber-Serving m c =
      let notify = client_message_notification c in
      Follows-bind _ _ _ _ now-Serving (λ time.
        let id = generate_message_id time in
        Follows-bind _ _ _ _ (Follows-lift (encode_message plain json (record m { id = id })))
          (λ raw.
            Follows-bind _ _ _ _
              (Follows-if (m.qos == qos0) _ _ _ _ (Follows-pure tt)
                (Follows-ignore _ _ (on_db-Serving _ _ (store_message-InStep json c id raw))))
              (λ _.
                called-Serving (memory.queue_of notify) (λ q. memory.push q raw)
                  (plain.queue_of notify) (λ q. plain.push q raw)
                  (push-OnMemory broker_kind notify raw (at_notify c)))))

  pub queue_message_for_subscribers-Serving :
      (m : QueuedMessage)
      → Serving
          (queue_message_for_subscribers memory json m)
          (queue_message_for_subscribers plain json m)
  unfolding queue_message_for_subscribers
  queue_message_for_subscribers-Serving m =
      let subs = topic_subscribers_set m.topic in
      Follows-call (on_db memory json (memory.set_of subs))
        (λ r. on_db memory json (memory.members r)) (on_db plain json (plain.set_of subs))
        (λ r. on_db plain json (plain.members r)) _ _
        (called-Serving (memory.set_of subs) memory.members (plain.set_of subs) plain.members
          (members-OnMemory broker_kind subs (at_topic m.topic)))
        (λ cs.
          Follows-for_each cs _ _
            (λ c. Follows-ignore _ _ (queue_message_for_subscriber-Serving m c)))
