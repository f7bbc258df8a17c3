-- ===== src/Client/Publishing.antt =====
-- A PUBLISH packet, from its bytes to the queue of the published messages.
use yodi.Base.{
  ℕ, ◌≤◌, ◌<◌, ◌≡◌, ◌++◌, Bytes, List, [], ◌∷◌, true, some, ok, length, ◌==◌, if◌then◌else◌, arith,
  All, append_assoc, append-nil, Exec, pure, refl, ◌∙◌,
}
use yodi.Message.{QueuedMessage}
use yodi.Json.{Json, IsJson, IsPlain}
use yodi.Transport.{Transport, IsWhole}
use yodi.Store.Contents.{contents}
use yodi.Auth.{User, authenticate_publish}
use yodi.Wire.Length.Encode.{IsByte}
use yodi.Wire.Header.{Header, header_flags}
use yodi.Wire.Header.Flags.{header_flags_fields}
use yodi.Wire.Header.Write.{header_bytes}
use yodi.Wire.Header.MessageType
use yodi.Wire.Binary.{put_uint16}
use yodi.Packet.{Publication, read_header, parse_publish, write_publish_ack}
use yodi.Packet.Publish.{body_bytes, publish_bytes}
use yodi.Packet.Receive.{read_header_lem, parse_publish_lem, publication}
use yodi.Packet.Acknowledge.{acknowledge_lem}
use yodi.Broker.{new_message, message_queue, queue_message}
use yodi.Broker.Delivery.{notified}
use yodi.Broker.Frames.{queue_message-keeps}
use yodi.Broker.Messages.{Holds, queue_message_lem}
use yodi.Client.{
  Client, on_conn, on_store, on_server, acl_of, user_acl, handle_publish, read_publish, dispatch,
  read_packet,
}
use yodi.Client.Leak.{env}

module _ (t : Transport) (w : IsWhole t) (capacity : ℕ) (json : Json) where
  abbrev E : Type 0
  E = Client (env t capacity json)

  -- What the broker publishes for a packet.
  abbrev pub told : Publication → QueuedMessage
  told p = new_message (contents capacity) json p.topic p.payload p.message_id p.qos

  -- PUBACK, at QoS 1.
  abbrev pub ack_bytes : Publication → Bytes
  ack_bytes p = if p.qos == 0 then [] else 64 ∷ 2 ∷ put_uint16 p.message_id

  -- What an accepted message leaves: the message is behind those that waited, it is acknowledged, and the rest is as it was.
  pub record IsPublished (p : Publication) (ms : List QueuedMessage) (rest : Bytes) (c c' : E)
      : Type 0 where
    pub waits : Holds json (c'.server.db.queued message_queue) (ms ++ (told p ∷ []))
    pub acknowledged : w.sent c'.conn ≡ w.sent c.conn ++ ack_bytes p
    pub unread : w.pending c'.conn ≡ rest
    pub same_sets : c'.server.db.elements ≡ c.server.db.elements
    pub same_notified : (d : Bytes) → notified c'.server.db d ≡ notified c.server.db d

  module _ (j : IsJson json) (user : User) (ms : List QueuedMessage) where
    -- The answer to a message of that QoS.
    answer : Publication → Exec E (Unit {0})
    answer p =
        if p.qos == 0
        then pure tt
        else on_conn (env t capacity json) (write_publish_ack t p.message_id)

    -- The client when the message is in the queue.
    abbrev told_by : Publication → E → E
    told_by p c = record c {
      server = record (c.server) {
        db =
            (queue_message (contents capacity) json p.topic p.payload p.message_id p.qos
              c.server.db).1;
      };
    }

    handle_publish_run :
        (p : Publication) (c : E)
        → c.user ≡ some user
        → authenticate_publish user.acl p.topic p.qos ≡ ok tt
        → (queue_message
            (contents capacity)
            json
            p.topic
            p.payload
            p.message_id
            p.qos
            c.server.db).0
          ≡ ok tt
        → handle_publish (env t capacity json) p c ≡ answer p (told_by p c)
    unfolding handle_publish user_acl acl_of on_store on_server answer
    handle_publish_run p c u a queued = ground (arith, queued)

    answer_lem :
        (p : Publication) (c : E)
        → ((answer p c).0 ≡ ok tt)
          × (w.sent (answer p c).1.conn ≡ w.sent c.conn ++ ack_bytes p)
          × (w.pending (answer p c).1.conn ≡ w.pending c.conn)
          × ((answer p c).1.server ≡ c.server)
    unfolding on_conn answer
    answer_lem p c =
        let (_, ack, _, _, _) = acknowledge_lem t w c.conn 0 p.message_id 0 in
        ground (arith, ack, append-nil (w.sent c.conn))

    handle_publish_lem :
        (p : Publication) (c : E)
        → c.user ≡ some user
        → authenticate_publish user.acl p.topic p.qos ≡ ok tt
        → IsPlain (told p)
        → Holds json (c.server.db.queued message_queue) ms
        → length (c.server.db.queued message_queue) < capacity
        → let call = handle_publish (env t capacity json) p c in
          (call.0 ≡ ok tt) × IsPublished p ms (w.pending c.conn) c call.1
    handle_publish_lem p c u a plain h room =
        let (queued, held) =
          queue_message_lem capacity json c.server.db p.topic p.payload p.message_id p.qos ms j
            plain h room in
        let (sets, notes) =
          queue_message-keeps capacity json p.topic p.payload p.message_id p.qos c.server.db in
        let (done, sent, unread, server) = answer_lem p (told_by p c) in
        rw (handle_publish_run p c u a queued) (
          done,
          record {
            waits = rw server held;
            acknowledged = sent;
            unread = unread;
            same_sets = rw server sets;
            same_notified = λ d. rw server (notes d);
          },
        )

    -- A PUBLISH packet for the message `m`, with its packet identifier at QoS 1.
    pub read_packet-IsPublished :
        (m : QueuedMessage) (rest : Bytes) (c : E)
        → c.registered ≡ true
        → c.user ≡ some user
        → authenticate_publish user.acl m.topic m.qos ≡ ok tt
        → m.qos ≤ 1
        → 0 < length m.topic
        → length m.topic ≤ 64
        → 0 < length m.message
        → length (body_bytes m) < 2097152
        → All IsByte (body_bytes m ++ rest)
        → w.pending c.conn ≡ publish_bytes m ++ rest
        → IsPlain (told (publication m))
        → Holds json (c.server.db.queued message_queue) ms
        → length (c.server.db.queued message_queue) < capacity
        → let call = read_packet (env t capacity json) c in
          (call.0 ≡ ok tt) × IsPublished (publication m) ms rest c call.1
    unfolding read_packet dispatch read_publish on_conn
    read_packet-IsPublished m rest c r u a q ht ht' hm fits bytes e plain held room =
        let len = length (body_bytes m) in
        let hdr : Header = record {
          flags = header_flags MessageType.publish m.qos m.duplicate;
          message_length = len;
        } in
        let d = (read_header t c.conn).1 in
        let (got, unread, sent) =
          read_header_lem t w MessageType.publish len m.qos m.duplicate (body_bytes m ++ rest)
            c.conn fits bytes
            (e
              ∙ append_assoc (header_bytes MessageType.publish len m.qos m.duplicate) (body_bytes m)
                  rest) in
        let (type, level) =
          header_flags_fields MessageType.publish m.qos len m.duplicate (omega arith) q in
        let (parsed, left, sent') =
          parse_publish_lem t w m hdr rest d q level refl ht ht' hm unread in
        let c' : E = record c { conn = (parse_publish t hdr d).1 } in
        let (done, p) = handle_publish_lem (publication m) c' u a plain held room in
        ground (arith, got, type, parsed)
