-- ===== src/Broker/Messages.antt =====
-- The messages of the broker: published, kept for a subscriber, and dropped.
use yodi.Base.{
  ℕ, ◌<◌, ◌≡◌, Bytes, List, [], ◌∷◌, ◌++◌, length, Bool, false, same, same_iff, same_self,
  same-injective, Option, ◌==◌, ◌&&◌, if◌then◌else◌, ok, err, Error, refl, arith, some, none,
}
use yodi.Base.Assoc.{lookup, has_key, lookup-insert, lookup-erase}
use yodi.Broker.Keys.{key_name_injective, client_messages}
use yodi.Base.Decimal.{decimal, decimal_injective}
use yodi.Message.{QueuedMessage}
use yodi.Json.{Json, IsJson, IsPlain}
use yodi.Store.Contents.{Contents, contents}
use yodi.Broker.{
  queue_message, pop_queued_message, pop_message, new_message, message_queue, encode_message,
  decode_message, store_message, update_queued_message_for_subscriber,
  unqueue_message_for_subscriber, client_message_queue,
}

-- The texts of a queue are those of the messages, one after the other.
abbrev pub Holds : Json → List Bytes → List QueuedMessage → Type 0
Holds json [] [] = Unit
Holds json (raw ∷ raws) (m ∷ ms) = (json.unmarshal raw ≡ some m) × Holds json raws ms
Holds json _ _ = ⊥

Holds-append :
    (json : Json) (raws : List Bytes) (ms : List QueuedMessage) (raw : Bytes) (m : QueuedMessage)
    → Holds json raws ms
    → json.unmarshal raw ≡ some m
    → Holds json (raws ++ (raw ∷ [])) (ms ++ (m ∷ []))
Holds-append json [] [] raw m h e = (e, tt)
Holds-append json (r ∷ raws) (n ∷ ms) raw m h e = (h.0, Holds-append json raws ms raw m h.1 e)
Holds-append json [] (n ∷ ms) raw m h e = absurd h
Holds-append json (r ∷ raws) [] raw m h e = absurd h

pub same-messages :
    (c d : Bytes) → same (client_message_queue c) (client_message_queue d) ≡ same c d
same-messages c d =
    same-injective client_message_queue c d
      (λ e. cc (key_name_injective (client_messages c) (client_messages d) e))

same-decimal : (m n : ℕ) → m < 65536 → n < 65536 → same (decimal m) (decimal n) ≡ (m == n)
same-decimal m n hm hn =
    ground (arith, same_iff (decimal m) (decimal n), decimal_injective m n hm hn)

-- What is kept for a client under a packet identifier.
abbrev pub kept : Contents → Bytes → ℕ → Option Bytes
kept s client_id id = lookup (decimal id) (s.entries (client_message_queue client_id))

module _ (capacity : ℕ) (json : Json) (s : Contents) where
  -- A plain message that is published while there is room goes behind the messages that wait.
  pub queue_message_lem :
      (topic message : Bytes) (id qos : ℕ) (ms : List QueuedMessage)
      → IsJson json
      → IsPlain (new_message (contents capacity) json topic message id qos)
      → Holds json (s.queued message_queue) ms
      → length (s.queued message_queue) < capacity
      → let call = queue_message (contents capacity) json topic message id qos s in
        (call.0 ≡ ok tt)
        × Holds json
            (call.1.queued message_queue)
            (ms ++ (new_message (contents capacity) json topic message id qos ∷ []))
  unfolding queue_message encode_message
  queue_message_lem topic message id qos ms j p h room =
      let (raw, e, back) = j.unmarshal-marshal _ p in
      ground
        (arith, same_self message_queue, Holds-append json (s.queued message_queue) ms raw _ h back)

  pop_from :
      (takes_done : Bool) (m : QueuedMessage) (ms : List QueuedMessage) (raws : List Bytes)
      → s.queued message_queue ≡ raws
      → Holds json raws (m ∷ ms)
      → let call = pop_queued_message (contents capacity) json false takes_done s in
        (call.0 ≡ ok m) × Holds json (call.1.queued message_queue) ms
  unfolding pop_queued_message pop_message decode_message
  pop_from takes_done m ms [] e h = absurd h
  pop_from takes_done m ms (raw ∷ raws) e h = ground (arith, same_self message_queue)

  -- `PopQueuedMessage` takes the first message that waits.
  pub pop_queued_message_lem :
      (takes_done : Bool) (m : QueuedMessage) (ms : List QueuedMessage)
      → Holds json (s.queued message_queue) (m ∷ ms)
      → let call = pop_queued_message (contents capacity) json false takes_done s in
        (call.0 ≡ ok m) × Holds json (call.1.queued message_queue) ms
  pop_queued_message_lem takes_done m ms h =
      pop_from takes_done m ms (s.queued message_queue) refl h

  -- `UpdateQueuedMessageForSubscriber` keeps a plain message, under its identifier and for that client, and changes nothing
  -- that is kept otherwise.
  pub update_queued_message_lem :
      (c : Bytes) (m : QueuedMessage)
      → IsJson json
      → IsPlain m
      → let call = update_queued_message_for_subscriber (contents capacity) json c m s in
        (call.0 ≡ ok tt)
        × ((raw : Bytes) × (json.unmarshal raw ≡ some m)
            × ((d : Bytes) (id : ℕ)
                → id < 65536
                → kept call.1 d id ≡ (if same c d && (m.id == id) then some raw else kept s d id)))
  unfolding update_queued_message_for_subscriber store_message encode_message
  update_queued_message_lem c m j p =
      let (raw, e, back) = j.unmarshal-marshal m p in
      (
        ground arith,
        (
          raw,
          back,
          λ d id h. ground (
            arith,
            same-messages c d,
            same_iff c d,
            same-decimal m.id id p.id_range h,
            lookup-insert (decimal m.id) (decimal id) raw (s.entries (client_message_queue c)),
          ),
        ),
      )

  -- `UnqueueMessageForSubscriber` drops what is kept for the client under the identifier, and nothing
  -- else; it fails where nothing is kept there.
  pub unqueue_message_lem :
      (c : Bytes) (id : ℕ)
      → id < 65536
      → let call = unqueue_message_for_subscriber (contents capacity) json c id s in
        (call.0 ≡ (if has_key (kept s c id) then ok tt else err Error.no_key))
        × ((d : Bytes) (other : ℕ)
            → other < 65536
            → kept call.1 d other ≡ (if same c d && (id == other) then none else kept s d other))
  unfolding unqueue_message_for_subscriber
  unqueue_message_lem c id h = (
    ground arith,
    λ d other h'. ground (
      arith,
      same-messages c d,
      same_iff c d,
      same-decimal id other h h',
      lookup-erase (decimal id) (decimal other) (s.entries (client_message_queue c)),
    ),
  )
