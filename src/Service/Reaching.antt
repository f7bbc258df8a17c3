-- ===== src/Service/Reaching.antt =====
-- A published message on its way: from the bytes of a PUBLISH packet to the queues of its subscribers.
use mathlib.Core.Path.{subst}
use yodi.Base.{
  ℕ, ◌+◌, ◌≤◌, ◌<◌, ◌≡◌, ◌++◌, Bytes, List, [], ◌∷◌, true, some, ok, length, length-append, arith,
  All, All-append, sym, ap, ◌∙◌, Result,
}
use yodi.Message.{QueuedMessage}
use yodi.Json.{Json, IsJson, IsPlain}
use yodi.Transport.{Transport, IsWhole}
use yodi.Store.Contents.{contents}
use yodi.Auth.{User, authenticate_publish}
use yodi.Wire.Length.Encode.{IsByte}
use yodi.Packet.Publish.{body_bytes, publish_bytes}
use yodi.Packet.Receive.{publication}
use yodi.Broker.{Server, message_queue, topic_subscribers_set}
use yodi.Base.Distinct.{Distinct}
use yodi.Broker.Delivery.{notified}
use yodi.Broker.Messages.{Holds}
use yodi.Client.{Client, read_packet}
use yodi.Client.Leak.{env}
use yodi.Client.Publishing.{told, read_packet-IsPublished}
use yodi.Mailman.{deliver}
use yodi.Mailman.Rounds.{IsMailed, Numbered, wanted, deliver-IsMailed}

-- What the rounds do counts from the state before it, if the sets and the notifications are those of the start.
module _ (capacity : ℕ) (json : Json) (j : IsJson json) where
  IsMailed-before :
      (ms : List QueuedMessage) (s s' : Server (contents capacity))
      (call : Result (Unit {0}) × Server (contents capacity))
      → s'.db.elements ≡ s.db.elements
      → ((d : Bytes) → notified s'.db d ≡ notified s.db d)
      → IsMailed capacity json j ms s' call
      → IsMailed capacity json j ms s call
  IsMailed-before ms s s' call sets notes h = record {
    returned = h.returned;
    emptied = h.emptied;
    same_sets = h.same_sets ∙ sets;
    mailed = λ d.
        let (raws, new, numbered) = h.mailed d in
        (
          raws,
          new ∙ ap (λ q. q ++ raws) (notes d),
          subst (λ e. Numbered json raws (wanted e d ms)) sets numbered,
        );
  }

module _ (t : Transport) (w : IsWhole t) (capacity : ℕ) (json : Json) (j : IsJson json)
    (user : User) (ms : List QueuedMessage) where
  -- A PUBLISH packet with a message of QoS 0 or 1 comes to the broker, from a registered client whose user may publish it,
  -- on a connection without short reads or writes: with a topic of 1 to 64 bytes, a payload that is not empty, a body shorter
  -- than 2^21 bytes, and text that is plain. Over the abstract store, where the plain messages `ms` wait, no topic lists a
  -- subscriber twice, and there is room in every queue: the packet is handled, and the rounds of the mailman for `ms` and this
  -- message bring each client exactly the messages for the topics that it subscribes to, in order, behind what waited for it.
  pub publish_reaches :
      (m : QueuedMessage) (rest : Bytes) (c : Client (env t capacity json))
      → c.registered ≡ true
      → c.user ≡ some user
      → authenticate_publish user.acl m.topic m.qos ≡ ok tt
      → m.qos ≤ 1
      → 0 < length m.topic
      → length m.topic ≤ 64
      → 0 < length m.message
      → length (body_bytes m) < 2097152
      → All IsByte (body_bytes m ++ rest)
      → w.pending c.conn ≡ publish_bytes m ++ rest
      → IsPlain (told t w capacity json (publication m))
      → All IsPlain ms
      → Holds json (c.server.db.queued message_queue) ms
      → length (c.server.db.queued message_queue) < capacity
      → ((topic : Bytes) → Distinct (c.server.db.elements (topic_subscribers_set topic)))
      → ((d : Bytes) → length (notified c.server.db d) + length ms < capacity)
      → let call = read_packet (env t capacity json) c in
        let all = ms ++ (told t w capacity json (publication m) ∷ []) in
        (call.0 ≡ ok tt)
        × IsMailed capacity json j all c.server
            (deliver (contents capacity) json (length all) call.1.server)
  publish_reaches m rest c r u a q ht ht' hm fits bytes e plain plains held room apart few =
      let (done, p) =
        read_packet-IsPublished t w capacity json j user ms m rest c r u a q ht ht' hm fits bytes e
          plain held room in
      let after = (read_packet (env t capacity json) c).1.server in
      let new = told t w capacity json (publication m) in
      let mailed =
        deliver-IsMailed capacity json j (ms ++ (new ∷ [])) after p.waits
          (All-append IsPlain ms (new ∷ []) plains (plain, tt))
          (λ topic.
            subst (λ sets. Distinct (sets (topic_subscribers_set topic))) (sym p.same_sets)
              (apart topic))
          (λ d. rw (p.same_notified d) (omega (arith, few d, length-append ms (new ∷ [])))) in
      (
        done,
        IsMailed-before capacity json j (ms ++ (new ∷ [])) c.server after _ p.same_sets
            p.same_notified mailed,
      )
