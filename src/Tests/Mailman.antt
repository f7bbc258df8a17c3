-- ===== src/Tests/Mailman.antt =====
-- The mailman at work: published messages and their subscribers.
use yodi.Base.{
  ◌∷◌, [], ◌++◌, Bytes, Bool, codes, contains, same, false, true, if◌then◌else◌, arith, refl,
}
use yodi.Message.{QueuedMessage}
use yodi.Json.{IsPlain, IsAscii}
use yodi.Store.Contents
use yodi.Store.Contents.{contents, update}
use yodi.Broker.{Server, new_message, message_queue, topic_subscribers_set}
use yodi.Base.Distinct.{Distinct}
use yodi.Broker.Messages.{Holds}
use yodi.Mailman.{deliver}
use yodi.Mailman.Rounds.{IsMailed, deliver-IsMailed}
use yodi.Tests.Pipe.{json, alice, door}
use yodi.Tests.Messages.{json-IsJson}

abbrev told : Bytes → QueuedMessage
told text = new_message (contents 64) json door text 7 1

abbrev text_of : Bytes → Bytes
text_of text = 7 ∷ 1 ∷ 0 ∷ 0 ∷ 4 ∷ door ++ text

-- Alice and Bob listen to "door", and two messages for it wait.
abbrev published : Server (contents 64)
published = record {
  db = record Contents.empty {
    elements = update (λ k. []) (topic_subscribers_set door) (alice ∷ codes "bob" ∷ []);
    queued = update (λ k. []) message_queue (text_of (codes "open") ∷ text_of (codes "shut") ∷ []);
  };
  times = λ i. 63713433600000000000;
  readings = 0;
}

waiting :
    Holds json (published.db.queued message_queue) (told (codes "open") ∷ told (codes "shut") ∷ [])
unfolding same
waiting = (refl, (refl, tt))

told-IsPlain : (text : Bytes) → IsAscii text → IsPlain (told text)
told-IsPlain text h = record {
  topic_ascii = ground arith;
  message_ascii = h;
  id_range = omega arith;
  qos_range = omega arith;
  time_range = omega arith;
}

two_or_none : (b : Bool) → Distinct (if b then alice ∷ codes "bob" ∷ [] else [])
unfolding contains same
two_or_none true = (refl, (refl, tt))
two_or_none false = tt

deliver-IsMailed_example :
    IsMailed 64 json json-IsJson
      (told (codes "open") ∷ told (codes "shut") ∷ [])
      published
      (deliver (contents 64) json 2 published)
deliver-IsMailed_example =
    deliver-IsMailed 64 json json-IsJson (told (codes "open") ∷ told (codes "shut") ∷ []) published
      waiting
      (told-IsPlain (codes "open") (ground arith), (told-IsPlain (codes "shut") (ground arith), tt))
      (λ t. two_or_none (same (topic_subscribers_set door) (topic_subscribers_set t)))
      (λ d. ground arith)
