-- ===== src/Broker.antt =====
-- pkg/mqtt/broker.go: the broker, over any store, any JSON, and any clock.
pub mod Agreement
pub mod Clients
pub mod Delivery
pub mod Frames
pub mod Halts
pub mod Held
pub mod Keys
pub mod Kinds
pub mod Messages
pub mod OnMemory
pub mod Others
pub mod Removal
pub mod Scan
pub mod Serving
pub mod Sets
pub mod Subscriptions
use yodi.Base.{
  ℕ, suc, ◌+◌, ◌-◌, ◌*◌, ◌%◌, ◌^◌, Bytes, [], ◌∷◌, ◌++◌, codes, Option, none, some, Bool, false,
  not, ◌==◌, if◌then◌else◌, Exec, Result, ok, err, pure, raise, lift, ignore, on_part, for_each,
  ◌>>=◌, ◌>>◌, Error,
}
use yodi.Base.Decimal.{decimal}
use yodi.Message.{QueuedMessage, qos0}
use yodi.Store.{Store}
use yodi.Json.{Json}

abbrev pub client_set : Bytes
client_set = codes "/clients"

abbrev pub message_queue : Bytes
message_queue = codes "/messages"

-- `fmt.Sprintf` of the four formats.
pub topic_subscribers_set : Bytes → Bytes
topic_subscribers_set topic = codes "/topic/" ++ (topic ++ codes "/subscribers")

unfoldable pub client_subscriptions_set : Bytes → Bytes
client_subscriptions_set client_id = codes "/client/" ++ (client_id ++ codes "/subscriptions")

unfoldable pub client_message_queue : Bytes → Bytes
client_message_queue client_id = codes "/client/" ++ (client_id ++ codes "/messages")

unfoldable pub client_message_notification : Bytes → Bytes
client_message_notification client_id = codes "/client/" ++ (client_id ++ codes "/notify")

-- The start of 1970, in nanoseconds since the zero `time.Time`.
abbrev unix_epoch : ℕ
unix_epoch = 62135596800 * 1000000000

-- `uint16(time.Now().UnixNano() % math.MaxUint16)`, for a clock that is past 1970.
pub generate_message_id : ℕ → ℕ
generate_message_id now = (now - unix_epoch) % 65535 % 2 ^ 16

-- The store, and the clock: `times i` is what the `i`-th reading of `time.Now` gives, in
-- nanoseconds since the zero `time.Time`,
-- and `readings` counts those that were made. Nothing is assumed of the times.
pub record Server (st : Store) : Type 0 where
  pub db : st.State
  pub times : ℕ → ℕ
  pub readings : ℕ

module _ (st : Store) (json : Json) where
  open st use {
    State, Ref, set_of, queue_of, map_of, add, remove, members, scan, push, pop, map_set,
    map_remove, map_scan, destroy,
  }

  abbrev pub db_of : Server st → State
  db_of s = s.db

  abbrev pub with_db : Server st → State → Server st
  with_db s db = record s { db = db }

  abbrev pub on_db : {A : Type 0} → Exec State A → Exec (Server st) A
  on_db = on_part db_of with_db

  unfoldable pub now : Exec (Server st) ℕ
  now s = (ok (s.times s.readings), record s { readings = suc s.readings })

  -- `b.store.Set(key).Add(ctx, v)` and the like.
  abbrev pub set_add : Bytes → Bytes → Exec State (Unit {0})
  set_add key v = set_of key >>= λ r. add r v

  abbrev pub set_remove : Bytes → Bytes → Exec State (Unit {0})
  set_remove key v = set_of key >>= λ r. remove r v

  unfoldable pub add_client : Bytes → Exec State (Unit {0})
  add_client client_id = set_add client_set client_id

  unfoldable pub remove_client : Bytes → Exec State (Unit {0})
  remove_client client_id = do
    subscriptions ← set_of (client_subscriptions_set client_id)
    topics ← members subscriptions
    for_each topics (λ topic. ignore (set_remove (topic_subscribers_set topic) client_id))
    subscriptions ← set_of (client_subscriptions_set client_id)
    destroy subscriptions
    messages ← map_of (client_message_queue client_id)
    destroy messages
    notifications ← queue_of (client_message_notification client_id)
    destroy notifications
    set_remove client_set client_id

  -- `Subscribe` after the second `Add`, whose error takes the first one back.
  pub finish_subscribe : Bytes → Bytes → Result (Unit {0}) → Exec State (Unit {0})
  finish_subscribe client_id topic (err e) = do
    ignore (set_remove (client_subscriptions_set client_id) topic)
    raise e
  finish_subscribe client_id topic r = λ s. (r, s)

  pub subscribe : Bytes → Bytes → Exec State (Unit {0})
  unfolding finish_subscribe
  subscribe client_id topic = do
    set_add (client_subscriptions_set client_id) topic
    λ s.
        let call = set_add (topic_subscribers_set topic) client_id s in
        finish_subscribe client_id topic call.0 call.1

  pub unsubscribe : Bytes → Bytes → Exec State (Unit {0})
  unsubscribe client_id topic = do
    set_remove (topic_subscribers_set topic) client_id
    set_remove (client_subscriptions_set client_id) topic

  pub encode_message : QueuedMessage → Result Bytes
  encode_message m = elim (json.marshal m) [ none ↦ err Error.marshal_failed | some raw ↦ ok raw ]

  pub decode_message : Bytes → Result QueuedMessage
  decode_message raw = elim (json.unmarshal raw) [
    | none ↦ err Error.unmarshal_failed
    | some m ↦ ok m
  ]

  -- The flags are those of `Store.pop`.
  unfoldable pub pop_from : Bool → Bool → Ref → Exec State QueuedMessage
  unfolding decode_message
  pop_from done takes_done q = do raw ← pop done takes_done q; lift (decode_message raw)

  pub pop_message : Bool → Bool → Bytes → Exec State QueuedMessage
  unfolding pop_from
  pop_message done takes_done queue = do q ← queue_of queue; pop_from done takes_done q

  pub pop_queued_message : Bool → Bool → Exec State QueuedMessage
  unfolding pop_message
  pop_queued_message done takes_done = pop_message done takes_done message_queue

  -- `queuedMessage := QueuedMessage{ID: …, Topic: …, Message: …, QoS: …}`
  abbrev pub new_message : Bytes → Bytes → ℕ → ℕ → QueuedMessage
  new_message topic message id qos = record {
    id = id;
    topic = topic;
    message = message;
    qos = qos;
    duplicate = false;
    send_time = 0;
  }

  pub queue_message : Bytes → Bytes → ℕ → ℕ → Exec State (Unit {0})
  unfolding encode_message
  queue_message topic message id qos = do
    raw ← lift (encode_message (new_message topic message id qos))
    q ← queue_of message_queue
    push q raw

  -- `UpdateQueuedMessageForSubscriber`, and the `Set` of `QueueMessageForSubscriber`.
  pub store_message : Bytes → ℕ → Bytes → Exec State (Unit {0})
  store_message client_id id raw = do
    messages ← map_of (client_message_queue client_id)
    map_set messages (decimal id) raw

  pub queue_message_for_subscriber : QueuedMessage → Bytes → Exec (Server st) (Unit {0})
  unfolding now store_message encode_message
  queue_message_for_subscriber m client_id = do
    time ← now
    let id = generate_message_id time
    raw ← lift (encode_message (record m { id = id }))
    (if m.qos == qos0 then pure tt else ignore (on_db (store_message client_id id raw)))
    q ← on_db (queue_of (client_message_notification client_id))
    on_db (push q raw)

  pub queue_message_for_subscribers : QueuedMessage → Exec (Server st) (Unit {0})
  unfolding queue_message_for_subscriber
  queue_message_for_subscribers m = do
    subscribers ← on_db (set_of (topic_subscribers_set m.topic))
    scan db_of with_db subscribers (λ client_id. ignore (queue_message_for_subscriber m client_id))

  pub unqueue_message_for_subscriber : Bytes → ℕ → Exec State (Unit {0})
  unqueue_message_for_subscriber client_id id = do
    messages ← map_of (client_message_queue client_id)
    map_remove messages (decimal id)

  pub update_queued_message_for_subscriber : Bytes → QueuedMessage → Exec State (Unit {0})
  unfolding encode_message store_message
  update_queued_message_for_subscriber client_id m = do
    raw ← lift (encode_message m)
    store_message client_id m.id raw

  -- The callback of `ScanQueuedMessagesForClient`, which skips what does not decode.
  pub on_entry :
      {W : Type 0} → (QueuedMessage → Exec W (Unit {0})) → Result QueuedMessage → Exec W (Unit {0})
  on_entry f (ok m) = f m
  on_entry f (err e) = pure tt
  on_entry f (Result.halt h) = lift (Result.halt h)

  pub scan_queued_messages_for_client :
      {W : Type 0}
      → (W → State)
      → (W → State → W)
      → Bytes
      → (QueuedMessage → Exec W (Unit {0}))
      → Exec W (Unit {0})
  unfolding on_entry decode_message
  scan_queued_messages_for_client get put client_id f = do
    messages ← on_part get put (map_of (client_message_queue client_id))
    map_scan get put messages (λ k v. on_entry f (decode_message v))
