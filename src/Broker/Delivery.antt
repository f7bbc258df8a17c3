-- ===== src/Broker/Delivery.antt =====
-- `QueueMessageForSubscribers`: who is notified of a message.
use yodi.Base.{
  ℕ, ◌<◌, ◌≡◌, Bytes, List, [], ◌∷◌, ◌++◌, length, true, false, same, same_iff, same_self,
  same-injective, contains, if◌then◌else◌, ok, refl, arith, some, Exec, for_each, ignore,
  Bool-cases, inl, inr,
}
use yodi.Base.Distinct.{Distinct}
use yodi.Message.{QueuedMessage}
use yodi.Json.{Json, IsJson, IsPlain}
use yodi.Store.Contents.{Contents, contents}
use yodi.Broker.{
  Server, encode_message, store_message, client_message_notification, generate_message_id, now,
  queue_message_for_subscriber, queue_message_for_subscribers, topic_subscribers_set,
}
use yodi.Broker.Keys.{key_name_injective, client_notify}

same-notifications :
    (c d : Bytes) → same (client_message_notification c) (client_message_notification d) ≡ same c d
same-notifications c d =
    same-injective client_message_notification c d
      (λ e. cc (key_name_injective (client_notify c) (client_notify d) e))

-- The texts that wait for a client.
abbrev pub notified : Contents → Bytes → List Bytes
notified s client_id = s.queued (client_message_notification client_id)

-- The clients of the list are notified of the message, each under a packet identifier of its own, and no others.
pub record IsDelivered (json : Json) (m : QueuedMessage) (cs : List Bytes) (s s' : Contents)
    : Type 0 where
  pub to_subscriber :
      (d : Bytes)
      → contains cs d ≡ true
      → (raw : Bytes) × (id : ℕ) × (notified s' d ≡ notified s d ++ (raw ∷ []))
        × (json.unmarshal raw ≡ some (record m { id = id }))
  pub to_other : (d : Bytes) → contains cs d ≡ false → notified s' d ≡ notified s d

module _ (capacity : ℕ) (json : Json) (j : IsJson json) (m : QueuedMessage) (p : IsPlain m) where
  generate-lt : (t : ℕ) → generate_message_id t < 65536
  unfolding generate_message_id
  generate-lt t = omega arith

  abbrev numbered : ℕ → QueuedMessage
  numbered t = record m { id = generate_message_id t }

  numbered-IsPlain : (t : ℕ) → IsPlain (numbered t)
  numbered-IsPlain t = record {
    topic_ascii = p.topic_ascii;
    message_ascii = p.message_ascii;
    id_range = generate-lt t;
    qos_range = p.qos_range;
    time_range = p.time_range;
  }

  one_lem :
      (c : Bytes) (s : Server (contents capacity))
      → length (notified s.db c) < capacity
      → let call = queue_message_for_subscriber (contents capacity) json m c s in
        (call.0 ≡ ok tt)
        × ((raw : Bytes) × (json.unmarshal raw ≡ some (numbered (s.times s.readings)))
            × ((d : Bytes)
                → notified call.1.db d
                  ≡ (if same c d then notified s.db d ++ (raw ∷ []) else notified s.db d)))
  unfolding queue_message_for_subscriber now encode_message store_message
  one_lem c s room =
      let (raw, e, back) = j.unmarshal-marshal _ (numbered-IsPlain (s.times s.readings)) in
      (
        ground (arith, same_self (client_message_notification c)),
        (raw, back, λ d. ground (arith, same-notifications c d, same_iff c d)),
      )

  round : Bytes → Exec (Server (contents capacity)) (Unit {0})
  round c = ignore (queue_message_for_subscriber (contents capacity) json m c)

  loop_lem :
      (cs : List Bytes) (s : Server (contents capacity))
      → Distinct cs
      → ((d : Bytes) → contains cs d ≡ true → length (notified s.db d) < capacity)
      → let call = for_each cs round s in (call.0 ≡ ok tt) × IsDelivered json m cs s.db call.1.db
  unfolding for_each contains round
  loop_lem [] s h room = (refl, record { to_subscriber = λ d e. absurd cc; to_other = λ d e. refl })
  loop_lem (c ∷ cs) s h room =
      let s1 = (queue_message_for_subscriber (contents capacity) json m c s).1 in
      let (r, (raw, back, after)) = one_lem c s (room c (ground (arith, same_self c))) in
      let (r', rest) = loop_lem cs s1 h.1 (λ d e. ground (arith, after d, room d, same_iff c d)) in
      let call = for_each (c ∷ cs) round s in
      let run : call ≡ for_each cs round s1 = ground arith in
      rw run (
        r',
        record {
          to_subscriber = λ d e. elim (Bool-cases (same c d)) [
            | inl here ↦
                let last : contains cs d ≡ false = ground (arith, same_iff c d) in
                (
                  raw,
                  generate_message_id (s.times s.readings),
                  ground (arith, after d, rest.to_other d last),
                  back,
                )
            | inr there ↦
                let (raw', id, new, back') = rest.to_subscriber d (ground arith) in
                (raw', id, ground (arith, after d), back')
          ];
          to_other = λ d e. ground (arith, after d, rest.to_other d);
        },
      )

  -- A plain message for a topic whose subscribers are listed once each and have room in their queues:
  -- each subscriber's queue gets one text more, which decodes to the message under a packet identifier;
  -- the queues of others stay.
  pub queue_message_for_subscribers_lem :
      (s : Server (contents capacity))
      → Distinct (s.db.elements (topic_subscribers_set m.topic))
      → ((d : Bytes)
          → contains (s.db.elements (topic_subscribers_set m.topic)) d ≡ true
          → length (notified s.db d) < capacity)
      → let call = queue_message_for_subscribers (contents capacity) json m s in
        (call.0 ≡ ok tt)
        × IsDelivered json m (s.db.elements (topic_subscribers_set m.topic)) s.db call.1.db
  unfolding queue_message_for_subscribers round
  queue_message_for_subscribers_lem s h room =
      loop_lem (s.db.elements (topic_subscribers_set m.topic)) s h room
