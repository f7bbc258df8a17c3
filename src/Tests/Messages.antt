-- ===== src/Tests/Messages.antt =====
-- Messages that are published, delivered and kept.
use yodi.Base.{
  ℕ, ◌≡◌, ◌∷◌, [], ◌++◌, Bytes, codes, length, Bool, true, false, if◌then◌else◌, some, ok, refl,
  arith, take-append, drop-append,
}
use yodi.Message.{QueuedMessage}
use yodi.Json.{IsJson}
use yodi.Store.Contents
use yodi.Store.Contents.{Contents, contents, update}
use yodi.Broker.Scan.{note, scan_queued_messages_lem}
use yodi.Broker.{scan_queued_messages_for_client, new_message}
use yodi.Tests.Pipe.{json, unmarshal, alice, door}

pub json-IsJson : IsJson json
json-IsJson = record {
  unmarshal-marshal =
      λ m p. (_, refl, same_text m.id m.topic m.message m.qos m.duplicate m.send_time);
}
  where
    same_text :
        (id : ℕ) (topic message : Bytes) (qos : ℕ) (duplicate : Bool) (send_time : ℕ)
        → let m : QueuedMessage = record {
          id = id;
          topic = topic;
          message = message;
          qos = qos;
          duplicate = duplicate;
          send_time = send_time;
        } in
          unmarshal
            (id ∷ qos ∷ (if duplicate then 1 else 0) ∷ send_time ∷ length topic ∷ topic ++ message)
          ≡ some m
    same_text id topic message qos true send_time =
        ground (arith, take-append topic message, drop-append topic message)
    same_text id topic message qos false send_time =
        ground (arith, take-append topic message, drop-append topic message)

abbrev opened : QueuedMessage
opened = new_message (contents 64) json door (codes "open") 7 1

-- Every map has an entry that does not decode, and one for the message.
abbrev with_junk : Contents
with_junk = record Contents.empty {
  entries = λ k. (codes "junk", []) ∷ (codes "7", 7 ∷ 1 ∷ 0 ∷ 0 ∷ 4 ∷ door ++ codes "open") ∷ [];
}

scan_queued_messages_lem_example :
    scan_queued_messages_for_client
      (contents 64)
      json
      (λ w. w.0)
      (λ w db. (db, w.1))
      alice
      note
      (with_junk, [])
    ≡ (ok tt, (with_junk, opened ∷ []))
scan_queued_messages_lem_example = scan_queued_messages_lem 64 json alice with_junk []
