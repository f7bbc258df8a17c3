-- ===== src/Client.antt =====
-- pkg/mqtt/client.go and the handlers of its packets (connect.go, publish.go, publish_ack.go,
-- subscribe.go, unsubscribe.go, ping.go, ping_response.go): one client of the broker.
pub mod Alike
pub mod Same
pub mod Session
pub mod Steady
pub mod Database
pub mod Ending
pub mod Gate
pub mod Indices
pub mod Isolation
pub mod Leak
pub mod Names
pub mod OnMemory
pub mod Publishing
use yodi.Base.{
  ℕ, ◌-◌, ◌*◌, ◌≡◌, Bytes, [], Option, none, some, Bool, true, false, not, ltb, ◌==◌, if◌then◌else◌,
  Exec, Result, ok, err, halt, Halt, pure, raise, stop, lift, modify, fail_if, ignore, on_part,
  gets, ◌>>=◌, ◌>>◌, Error, zero, suc, head_or, length,
}
use yodi.Message.{qos0}
use yodi.Transport.{Transport}
use yodi.Store.{Store}
use yodi.Json.{Json}
use yodi.Auth.{Acl, User, authenticate_publish, authenticate_subscribe, authenticate_user}
use yodi.Broker
use yodi.Broker.{Server}
use yodi.Packet
use yodi.Packet.{Credentials, Publication, max_topic_length}
use yodi.Wire.Header.{Header, message_type}
use yodi.Wire.Header.MessageType
use yodi.Wire.Binary.{uint16, read_struct}
use yodi.Wire.Text.{read_string}

-- What a client works with: its connection, the store, and JSON.
pub record Env : Type 1 where
  pub transport : Transport
  pub store : Store
  pub json : Json

-- A `Client` with the connection and the broker that it points to. `started` says whether
-- `startMessagesRoutine` has run. Times are in nanoseconds since the zero `time.Time`.
pub record Client (e : Env) : Type 0 where
  pub conn : e.transport.Conn
  pub server : Server e.store
  pub client_id : Bytes
  pub registered : Bool
  pub started : Bool
  pub last_ping_time : ℕ
  pub user : Option User

-- `time.Second * 20`
abbrev pub min_ping_interval : ℕ
min_ping_interval = 20 * 1000000000

-- `n == 0`, of a read into a buffer.
abbrev no_bytes : Bytes → Bool
no_bytes bs = length bs == 0

module _ (e : Env) where
  open e use {transport.{Conn}, store, json}

  -- `NewClient`, on a connection whose deadline could be set.
  unfoldable pub new_client : Conn → Server store → Client e
  new_client conn server = record {
    conn = conn;
    server = server;
    client_id = [];
    registered = false;
    started = false;
    last_ping_time = 0;
    user = none;
  }

  unfoldable pub on_conn : {A : Type 0} → Exec Conn A → Exec (Client e) A
  on_conn = on_part (λ c. c.conn) (λ c conn. record c { conn = conn })

  unfoldable pub on_server : {A : Type 0} → Exec (Server store) A → Exec (Client e) A
  on_server = on_part (λ c. c.server) (λ c server. record c { server = server })

  unfoldable pub on_store : {A : Type 0} → Exec (store.State) A → Exec (Client e) A
  on_store m = on_server (Broker.on_db store json m)

  -- `c.user.ACL`, which panics on a nil user.
  pub acl_of : Option User → Exec (Client e) Acl
  acl_of none = stop Halt.panics
  acl_of (some user) = pure user.acl

  pub user_acl : Exec (Client e) Acl
  user_acl c = acl_of c.user c

  -- An error of `m` is answered with a CONNACK packet, whose own error is dropped.
  unfoldable pub answer_error : ℕ → Result (Unit {0}) → Exec (Client e) (Unit {0})
  answer_error code (ok _) = pure tt
  answer_error code (err x) = do
    ignore (on_conn (Packet.write_connect_ack e.transport code))
    raise x
  answer_error code (halt h) = stop h

  -- `authenticateConnect`: the user is nil where there is an error.
  unfoldable pub keep_user : Result User → Exec (Client e) (Unit {0})
  keep_user (ok user) = modify (λ c. record c { user = some user })
  keep_user (err x) = do modify (λ c. record c { user = none }); raise x
  keep_user (halt h) = stop h

  unfoldable pub authenticate_connect : Bytes → Bytes → Exec (Client e) (Unit {0})
  authenticate_connect username password c =
      let call = on_store (authenticate_user store json.unmarshal_user username password) c in
      keep_user call.0 call.1

  -- `if err := m; err != nil { write a CONNACK; return err }`
  abbrev pub or_answer : ℕ → Exec (Client e) (Unit {0}) → Exec (Client e) (Unit {0})
  or_answer code m c = answer_error code (m c).0 (m c).1

  unfoldable pub handle_connect : Credentials → Exec (Client e) (Unit {0})
  handle_connect who = do
    or_answer Packet.refused_identifier_rejected (authenticate_connect who.username who.password)
    or_answer Packet.refused_server_unavailable
        (on_store (Broker.add_client store json who.client_id))
    modify (λ c. record c { registered = true })
    on_conn (Packet.write_connect_ack e.transport Packet.connection_accepted)
    modify (λ c. record c { client_id = who.client_id })

  unfoldable pub read_connect : Header → Exec (Client e) (Unit {0})
  read_connect hdr = do who ← on_conn (Packet.parse_connect e.transport hdr); handle_connect who

  pub handle_publish : Publication → Exec (Client e) (Unit {0})
  handle_publish p = do
    acl ← user_acl
    lift (authenticate_publish acl p.topic p.qos)
    on_store (Broker.queue_message store json p.topic p.payload p.message_id p.qos)
    (if p.qos == qos0 then pure tt else on_conn (Packet.write_publish_ack e.transport p.message_id))

  pub read_publish : Header → Exec (Client e) (Unit {0})
  read_publish hdr = do p ← on_conn (Packet.parse_publish e.transport hdr); handle_publish p

  pub handle_publish_ack : ℕ → Exec (Client e) (Unit {0})
  handle_publish_ack message_id = do
    client_id ← gets (λ c. c.client_id)
    on_store (Broker.unqueue_message_for_subscriber store json client_id message_id)

  pub read_publish_ack : Exec (Client e) (Unit {0})
  read_publish_ack = do buf ← on_conn (read_struct e.transport 2); handle_publish_ack (uint16 buf)

  -- The last step is `startMessagesRoutine.Do`, which starts the two message routines once.
  pub handle_subscribe : ℕ → Bytes → ℕ → Exec (Client e) (Unit {0})
  handle_subscribe message_id topic qos = do
    acl ← user_acl
    lift (authenticate_subscribe acl topic qos)
    client_id ← gets (λ c. c.client_id)
    on_store (Broker.subscribe store json client_id topic)
    on_conn (Packet.write_subscribe_ack e.transport message_id qos)
    modify (λ c. record c { started = true })

  pub handle_unsubscribe : ℕ → Bytes → Exec (Client e) (Unit {0})
  handle_unsubscribe message_id topic = do
    client_id ← gets (λ c. c.client_id)
    on_store (Broker.unsubscribe store json client_id topic)
    on_conn (Packet.write_unsubscribe_ack e.transport message_id)

  -- `readSubscribe` and `readUnsubscribe` return nil where the packet identifier cannot be read.
  pub after_id : (ℕ → Exec (Client e) (Unit {0})) → Result Bytes → Exec (Client e) (Unit {0})
  after_id rest (ok buf) = rest (uint16 buf)
  after_id rest (err x) = pure tt
  after_id rest (halt h) = stop h

  abbrev with_id : (ℕ → Exec (Client e) (Unit {0})) → Exec (Client e) (Unit {0})
  with_id rest c = let call = on_conn (read_struct e.transport 2) c in after_id rest call.0 call.1

  pub read_topic : Exec (Client e) Bytes
  read_topic = do
    topic ← on_conn (read_string e.transport max_topic_length)
    fail_if (no_bytes topic) Error.empty_topic
    pure topic

  pub read_subscribe : Exec (Client e) (Unit {0})
  read_subscribe = with_id (λ message_id. do
    topic ← read_topic
    qos ← on_conn (e.transport.read 1)
    fail_if (no_bytes qos) Error.bad_qos
    handle_subscribe message_id topic (head_or 0 qos))

  pub read_unsubscribe : Exec (Client e) (Unit {0})
  read_unsubscribe =
      with_id (λ message_id. do topic ← read_topic; handle_unsubscribe message_id topic)

  -- `time.Now().Sub(c.lastPingTime)` is not negative: `last_ping_time` is a time that has passed.
  pub read_ping : Header → Exec (Client e) (Unit {0})
  read_ping hdr = do
    time ← on_server (Broker.now store json)
    last ← gets (λ c. c.last_ping_time)
    fail_if (ltb (time - last) min_ping_interval) Error.pings_too_often
    fail_if (not (hdr.message_length == 0)) Error.ping_has_payload
    on_conn (Packet.handle_ping e.transport)

  pub read_ping_response : Header → Exec (Client e) (Unit {0})
  read_ping_response hdr = fail_if (not (hdr.message_length == 0)) Error.ping_response_has_payload

  -- The `switch messageType` of `readPacket`.
  pub dispatch : Header → Exec (Client e) (Unit {0})
  dispatch hdr =
      let type = message_type hdr in
      if type == MessageType.publish
      then read_publish hdr
      else if type == MessageType.publish_ack
      then read_publish_ack
      else if type == MessageType.ping_request
      then read_ping hdr
      else if type == MessageType.ping_response
      then read_ping_response hdr
      else if type == MessageType.subscribe
      then read_subscribe
      else if type == MessageType.unsubscribe
      then read_unsubscribe
      else if type == MessageType.disconnect
      then raise Error.disconnected
      else raise Error.unknown_message_type

  unfoldable pub read_packet : Exec (Client e) (Unit {0})
  read_packet = do
    hdr ← on_conn (Packet.read_header e.transport)
    registered ← gets (λ c. c.registered)
    (if registered
        then dispatch hdr
        else if message_type hdr == MessageType.connect
        then read_connect hdr
        else raise Error.must_connect_first)

  -- `Run`, for at most `fuel` packets: it ends with the error of a packet.
  pub run : ℕ → Exec (Client e) (Unit {0})
  run zero = stop Halt.out_of_fuel
  run (suc fuel) = read_packet >> run fuel

  -- `Close`, whose last step cancels the client's context.
  unfoldable pub close : Exec (Client e) (Unit {0})
  close = do
    registered ← gets (λ c. c.registered)
    client_id ← gets (λ c. c.client_id)
    (if registered then ignore (on_store (Broker.remove_client store json client_id)) else pure tt)

  -- `handle` of cmd/broker/main.go, and what `handleMQTT` of cmd/web/main.go does with its connection:
  -- a client runs, and is closed however `Run` ends.
  pub handle : ℕ → Conn → Server store → Client e
  handle fuel conn server = (close (run fuel (new_client conn server)).1).1
