-- ===== src/Tests/Pipe.antt =====
-- Concrete connections, a concrete JSON, and the data of the tests.
use yodi.Base.{
  ℕ, ◌≡◌, ◌≤◌, ◌==◌, ◌∷◌, [], ◌++◌, Bytes, codes, length, take, drop, true, false, if◌then◌else◌,
  Option, some, none, Exec, ok, err, Error, refl, arith,
}
use yodi.Message.{QueuedMessage}
use yodi.Transport.{Transport, IsWhole}
use yodi.Json.{Json}
use yodi.Packet.{Credentials}
use yodi.Auth.{User, TopicAcl, users_map}
use yodi.Store.Contents
use yodi.Store.Contents.{Contents, contents, update}
use yodi.Broker.{Server}
use yodi.Client.{Env}

-- A `bytes.Buffer` in each direction.
pub record Pipe : Type 0 where
  pub pending : Bytes
  pub sent : Bytes

abbrev pub pipe_read : ℕ → Exec Pipe Bytes
pipe_read n c = if n == 0 then (ok [], c) else elim c.pending [
  | [] ↦ (err Error.eof, c)
  | b ∷ bs ↦ (ok (take n (b ∷ bs)), record c { pending = drop n (b ∷ bs) })
]

abbrev pub pipe : Transport
pipe = record {
  Conn = Pipe;
  read = pipe_read;
  write = λ p c. (ok (length p), record c { sent = c.sent ++ p });
}

pub pipe_read_whole :
    (n : ℕ) (p s : Bytes)
    → n ≤ length p
    → let call = pipe_read n (record { pending = p; sent = s }) in
      (call.0 ≡ ok (take n p)) × (call.1.pending ≡ drop n p) × (call.1.sent ≡ s)
pipe_read_whole n [] s h = ground arith
pipe_read_whole n (b ∷ bs) s h = ground arith

pub pipe_read_end : (c : Pipe) → c.pending ≡ [] → (pipe_read 1 c).0 ≡ err Error.eof
pipe_read_end c h = ground arith

abbrev pub pipe-IsWhole : IsWhole pipe
pipe-IsWhole = record {
  pending = λ c. c.pending;
  sent = λ c. c.sent;
  read_whole = λ n c h. pipe_read_whole n c.pending c.sent h;
  read_end = λ c h. (Error.eof, pipe_read_end c h);
  write_whole = λ p c. (refl, refl, refl);
}

-- A pipe whose other end is closed.
abbrev pub broken_pipe : Transport
broken_pipe = record { Conn = Pipe; read = pipe_read; write = λ p c. (err Error.io_failed, c) }

abbrev pub holding : Bytes → Pipe
holding bs = record { pending = bs; sent = [] }

abbrev pub nothing : Pipe
nothing = holding []

abbrev pub alice : Bytes
alice = codes "alice"

abbrev pub door : Bytes
door = codes "door"

-- The user may subscribe to "door" at QoS 0, and not publish.
abbrev pub door_acl : TopicAcl
door_acl = record { may_publish = false; may_subscribe = true; qos = 0 }

abbrev pub user : User
user = record { acl = (door, door_acl) ∷ []; password = codes "p" }

-- The numbers in front, then the topic and the message.
abbrev pub marshal : QueuedMessage → Option Bytes
marshal m = some (
    m.id ∷ m.qos ∷ (if m.duplicate then 1 else 0) ∷ m.send_time ∷ length m.topic ∷ m.topic
    ++ m.message)

abbrev pub unmarshal : Bytes → Option QueuedMessage
unmarshal (id ∷ qos ∷ duplicate ∷ send_time ∷ n ∷ rest) = some (record {
  id = id;
  topic = take n rest;
  message = drop n rest;
  qos = qos;
  duplicate = duplicate == 1;
  send_time = send_time;
})
unmarshal _ = none

abbrev pub json : Json
json = record { marshal = marshal; unmarshal = unmarshal; unmarshal_user = λ raw. some user }

-- A store that knows the user "u".
abbrev pub with_user : Contents
with_user = record Contents.empty {
  entries = update (λ k. []) users_map ((codes "u", codes "{}") ∷ []);
}

-- A clock that stands still, on 1 January 2020.
abbrev pub server : Server (contents 64)
server = record { db = with_user; times = λ i. 63713433600000000000; readings = 0 }

abbrev pub pipe_env : Env
pipe_env = record { transport = pipe; store = contents 64; json = json }

-- A CONNECT packet of the client "alice", user "u" and password "p".
abbrev pub connect_packet : Bytes
connect_packet =
    16 ∷ 23 ∷ 0 ∷ 4 ∷ codes "MQTT"
    ++ (4 ∷ 192 ∷ 0 ∷ 60 ∷ 0 ∷ 5 ∷ alice ++ (0 ∷ 1 ∷ codes "u" ++ (0 ∷ 1 ∷ codes "p")))

abbrev pub alice_logs_in : Credentials
alice_logs_in = record { client_id = alice; username = codes "u"; password = codes "p" }
