-- ===== src/Tests/Reaching.antt =====
-- A PUBLISH packet, and the queues of its subscribers.
use yodi.Base.{
  ◌≡◌, ◌∷◌, [], ◌++◌, Bool, codes, contains, same, false, true, some, ok, if◌then◌else◌, arith,
  refl,
}
use yodi.Base.Assoc.{lookup}
use yodi.Base.Distinct.{Distinct}
use yodi.Message.{QueuedMessage}
use yodi.Json.{IsPlain}
use yodi.Auth.{User, authenticate_publish, check_publish}
use yodi.Store.Contents
use yodi.Store.Contents.{contents, update}
use yodi.Broker.{Server, topic_subscribers_set}
use yodi.Client.{Client, read_packet}
use yodi.Client.Publishing.{told}
use yodi.Packet.Publish.{publish_bytes}
use yodi.Packet.Receive.{publication}
use yodi.Mailman.{deliver}
use yodi.Mailman.Rounds.{IsMailed}
use yodi.Service.Reaching.{publish_reaches}
use yodi.Tests.Pipe.{pipe, pipe-IsWhole, pipe_env, holding, json, alice, door}
use yodi.Tests.Messages.{json-IsJson}

abbrev publisher : User
publisher = record {
  acl = (door, record { may_publish = true; may_subscribe = false; qos = 1 }) ∷ [];
  password = codes "p";
}

-- Alice and Bob listen to "door".
abbrev listening : Server (contents 64)
listening = record {
  db = record Contents.empty {
    elements = update (λ k. []) (topic_subscribers_set door) (alice ∷ codes "bob" ∷ []);
  };
  times = λ i. 63713433600000000000;
  readings = 0;
}

abbrev opened : QueuedMessage
opened = record {
  id = 258;
  topic = door;
  message = codes "open";
  qos = 1;
  duplicate = false;
  send_time = 0;
}

-- The client "carol" sends the message, and a ping behind it.
abbrev carol : Client pipe_env
carol = record {
  conn = holding (publish_bytes opened ++ (192 ∷ 0 ∷ []));
  server = listening;
  client_id = codes "carol";
  registered = true;
  started = false;
  last_ping_time = 0;
  user = some publisher;
}

opened-IsPlain : IsPlain (told pipe pipe-IsWhole 64 json (publication opened))
opened-IsPlain = record {
  topic_ascii = ground arith;
  message_ascii = ground arith;
  id_range = omega arith;
  qos_range = omega arith;
  time_range = omega arith;
}

may_open : authenticate_publish publisher.acl door 1 ≡ ok tt
unfolding authenticate_publish check_publish lookup same
may_open = refl

both_or_none : (b : Bool) → Distinct (if b then alice ∷ codes "bob" ∷ [] else [])
unfolding contains same
both_or_none true = (refl, (refl, tt))
both_or_none false = tt

publish_reaches_example :
    let call = read_packet pipe_env carol in
    let all = told pipe pipe-IsWhole 64 json (publication opened) ∷ [] in
    (call.0 ≡ ok tt)
    × IsMailed 64 json json-IsJson all listening (deliver (contents 64) json 1 call.1.server)
publish_reaches_example =
    publish_reaches pipe pipe-IsWhole 64 json json-IsJson publisher [] opened (192 ∷ 0 ∷ []) carol
      refl refl may_open (omega arith) (omega arith) (omega arith) (omega arith) (omega arith)
      (ground arith) refl opened-IsPlain tt tt (omega arith)
      (λ t. both_or_none (same (topic_subscribers_set door) (topic_subscribers_set t)))
      (λ d. omega arith)
