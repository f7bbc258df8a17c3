-- ===== src/Client/Alike.antt =====
-- The handlers of a client of the broker on a memory store follow those on the contents of the store:
-- pkg/mqtt/client.go and the handlers of its packets, over pkg/store/memory_store.go.
use yodi.Base.{
  ap, Bytes, ℕ, zero, suc, true, Option, none, some, Exec, Result, ok, err, halt, modify, gets,
  refl,
}
use yodi.Base.Follows.{Follows, Follows-bind, Follows-then, follow_rules}
use yodi.Json.{Json}
use yodi.Transport.{Transport}
use yodi.Auth.{User}
use yodi.Wire.Header.{Header}
use yodi.Wire.Binary.{uint16, read_struct}
use yodi.Packet.{Publication, Credentials, write_connect_ack, connection_accepted}
use yodi.Store.Contents.{Contents}
use yodi.Store.Memory.{MemoryStore}
use yodi.Store.Memory.View.{IsSound}
use yodi.Store.Memory.Instance.{memory}
use yodi.Store.Memory.Calls.{plain}
use yodi.Broker
use yodi.Broker.{Server}
use yodi.Broker.Kinds.{broker_kind}
use yodi.Broker.OnMemory.{
  InStep, see_server, add_client-InStep, remove_client-InStep, subscribe-InStep, unsubscribe-InStep,
  login-InStep, queue_message-InStep, unqueue-InStep,
}
use yodi.Client.{
  Env, Client, on_conn, on_server, on_store, acl_of, user_acl, read_topic, after_id, with_id,
  handle_publish, read_publish, handle_publish_ack, read_publish_ack, handle_subscribe,
  handle_unsubscribe, read_subscribe, read_unsubscribe, read_ping, read_ping_response, dispatch,
  authenticate_connect, keep_user, answer_error, or_answer, handle_connect, read_connect,
  read_packet, run, close,
}

module _ (t : Transport) (json : Json) where
  abbrev pub on_memory : Env
  on_memory = record { transport = t; store = memory; json = json }

  abbrev pub on_contents : Env
  on_contents = record { transport = t; store = plain; json = json }

  -- A client with the contents of its store in place of the store.
  abbrev pub see_client : Client on_memory → Client on_contents
  see_client c = record {
    conn = c.conn;
    server = see_server c.server;
    client_id = c.client_id;
    registered = c.registered;
    started = c.started;
    last_ping_time = c.last_ping_time;
    user = c.user;
  }

  abbrev pub InClient : Client on_memory → Type 0
  InClient c = IsSound broker_kind c.server.db

  abbrev pub Alike : {A : Type 0} → Exec (Client on_memory) A → Exec (Client on_contents) A → Type 0
  Alike = Follows see_client InClient

  on_conn-Alike :
      {A : Type 0} (m : Exec (t.Conn) A) → Alike (on_conn on_memory m) (on_conn on_contents m)
  unfolding on_conn
  on_conn-Alike m = record { at = λ d h. (refl, refl, h) }

  now-Alike :
      Alike
        (on_server on_memory (Broker.now memory json))
        (on_server on_contents (Broker.now plain json))
  unfolding on_server Broker.now
  now-Alike = record { at = λ d h. (refl, refl, h) }

  on_store-Alike :
      {A : Type 0} (m : Exec MemoryStore A) (m' : Exec Contents A)
      → InStep m m'
      → Alike (on_store on_memory m) (on_store on_contents m')
  unfolding on_store on_server
  on_store-Alike m m' k = record {
    at = λ d h.
        let (answer, effect, kept) = k.at d.server.db h in
        (
          answer,
          ap (λ s. record (see_client d) { server = record (see_server d.server) { db = s } })
              effect,
          kept,
        );
  }

  acl_of-Alike : (u : Option User) → Alike (acl_of on_memory u) (acl_of on_contents u)
  unfolding acl_of
  acl_of-Alike none = search follow_rules
  acl_of-Alike (some u) = search follow_rules

  user_acl-Alike : Alike (user_acl on_memory) (user_acl on_contents)
  unfolding user_acl
  user_acl-Alike = record { at = λ d. (acl_of-Alike d.user).at d }

  started-Alike :
      Alike (modify (λ d. record d { started = true })) (modify (λ d. record d { started = true }))
  started-Alike = record { at = λ d h. (refl, refl, h) }

  registered-Alike :
      Alike
        (modify (λ d. record d { registered = true }))
        (modify (λ d. record d { registered = true }))
  registered-Alike = record { at = λ d h. (refl, refl, h) }

  named-Alike :
      (id : Bytes)
      → Alike
          (modify (λ d. record d { client_id = id }))
          (modify (λ d. record d { client_id = id }))
  named-Alike id = record { at = λ d h. (refl, refl, h) }

  id-Alike : Alike (gets (λ d. d.client_id)) (gets (λ d. d.client_id))
  id-Alike = record { at = λ d h. (refl, refl, h) }

  is_registered-Alike : Alike (gets (λ d. d.registered)) (gets (λ d. d.registered))
  is_registered-Alike = record { at = λ d h. (refl, refl, h) }

  last-Alike : Alike (gets (λ d. d.last_ping_time)) (gets (λ d. d.last_ping_time))
  last-Alike = record { at = λ d h. (refl, refl, h) }

  keep_user-Alike : (r : Result User) → Alike (keep_user on_memory r) (keep_user on_contents r)
  unfolding keep_user
  keep_user-Alike (ok u) = record { at = λ d h. (refl, refl, h) }
  keep_user-Alike (err x) = record { at = λ d h. (refl, refl, h) }
  keep_user-Alike (halt x) = record { at = λ d h. (refl, refl, h) }

  answer_error-Alike :
      (code : ℕ) (r : Result (Unit {0}))
      → Alike (answer_error on_memory code r) (answer_error on_contents code r)
  unfolding answer_error
  answer_error-Alike code (ok u) = search follow_rules
  answer_error-Alike code (err x) = search (follow_rules, on_conn-Alike)
  answer_error-Alike code (halt x) = search follow_rules

  or_answer-Alike :
      (code : ℕ) (m : Exec (Client on_memory) (Unit {0}))
      (m' : Exec (Client on_contents) (Unit {0}))
      → Alike m m'
      → Alike (or_answer on_memory code m) (or_answer on_contents code m')
  or_answer-Alike code m m' k = Follows-then m m' _ _ k (answer_error-Alike code)

  ruleset alike_rules = (
    follow_rules, on_conn-Alike, on_store-Alike, user_acl-Alike, now-Alike, started-Alike,
    registered-Alike, named-Alike, id-Alike, is_registered-Alike, last-Alike, keep_user-Alike,
    or_answer-Alike,
  )

  read_topic-Alike : Alike (read_topic on_memory) (read_topic on_contents)
  unfolding read_topic
  read_topic-Alike = search alike_rules

  after_id-Alike :
      (rest : ℕ → Exec (Client on_memory) (Unit {0}))
      (rest' : ℕ → Exec (Client on_contents) (Unit {0})) (r : Result Bytes)
      → ((id : ℕ) → Alike (rest id) (rest' id))
      → Alike (after_id on_memory rest r) (after_id on_contents rest' r)
  unfolding after_id
  after_id-Alike rest rest' (ok buf) k = k (uint16 buf)
  after_id-Alike rest rest' (err x) k = search follow_rules
  after_id-Alike rest rest' (halt x) k = search follow_rules

  with_id-Alike :
      (rest : ℕ → Exec (Client on_memory) (Unit {0}))
      (rest' : ℕ → Exec (Client on_contents) (Unit {0}))
      → ((id : ℕ) → Alike (rest id) (rest' id))
      → Alike (with_id on_memory rest) (with_id on_contents rest')
  with_id-Alike rest rest' k =
      Follows-then _ _ _ _ (on_conn-Alike (read_struct t 2)) (λ r. after_id-Alike rest rest' r k)

  authenticate_connect-Alike :
      (username password : Bytes)
      → Alike
          (authenticate_connect on_memory username password)
          (authenticate_connect on_contents username password)
  unfolding authenticate_connect
  authenticate_connect-Alike username password =
      Follows-then _ _ _ _
        (on_store-Alike _ _ (login-InStep json json.unmarshal_user username password))
        keep_user-Alike

  handle_connect-Alike :
      (who : Credentials) → Alike (handle_connect on_memory who) (handle_connect on_contents who)
  unfolding handle_connect
  handle_connect-Alike who =
      Follows-bind _ _ _ _
        (or_answer-Alike _ _ _ (authenticate_connect-Alike who.username who.password))
        (λ _.
          Follows-bind _ _ _ _
            (or_answer-Alike _ _ _ (on_store-Alike _ _ (add_client-InStep json who.client_id)))
            (λ _. Follows-bind _ _ _ _ registered-Alike (λ _.
              Follows-bind _ _ _ _ (on_conn-Alike (write_connect_ack t connection_accepted))
                (λ _. named-Alike who.client_id))))

  handle_publish-Alike :
      (p : Publication) → Alike (handle_publish on_memory p) (handle_publish on_contents p)
  unfolding handle_publish
  handle_publish-Alike p = search (alike_rules, queue_message-InStep) depth 8

  handle_publish_ack-Alike :
      (id : ℕ) → Alike (handle_publish_ack on_memory id) (handle_publish_ack on_contents id)
  unfolding handle_publish_ack
  handle_publish_ack-Alike id = search (alike_rules, unqueue-InStep)

  handle_subscribe-Alike :
      (id : ℕ) (topic : Bytes) (qos : ℕ)
      → Alike (handle_subscribe on_memory id topic qos) (handle_subscribe on_contents id topic qos)
  unfolding handle_subscribe
  handle_subscribe-Alike id topic qos = search (alike_rules, subscribe-InStep) depth 10

  handle_unsubscribe-Alike :
      (id : ℕ) (topic : Bytes)
      → Alike (handle_unsubscribe on_memory id topic) (handle_unsubscribe on_contents id topic)
  unfolding handle_unsubscribe
  handle_unsubscribe-Alike id topic = search (alike_rules, unsubscribe-InStep) depth 8

  read_connect-Alike : (h : Header) → Alike (read_connect on_memory h) (read_connect on_contents h)
  unfolding read_connect
  read_connect-Alike h = search (alike_rules, handle_connect-Alike)

  read_publish-Alike : (h : Header) → Alike (read_publish on_memory h) (read_publish on_contents h)
  unfolding read_publish
  read_publish-Alike h = search (alike_rules, handle_publish-Alike)

  read_publish_ack-Alike : Alike (read_publish_ack on_memory) (read_publish_ack on_contents)
  unfolding read_publish_ack
  read_publish_ack-Alike = search (alike_rules, handle_publish_ack-Alike)

  read_subscribe-Alike : Alike (read_subscribe on_memory) (read_subscribe on_contents)
  unfolding read_subscribe
  read_subscribe-Alike =
      with_id-Alike _ _
        (λ id. search (alike_rules, read_topic-Alike, handle_subscribe-Alike) depth 8)

  read_unsubscribe-Alike : Alike (read_unsubscribe on_memory) (read_unsubscribe on_contents)
  unfolding read_unsubscribe
  read_unsubscribe-Alike =
      with_id-Alike _ _ (λ id. search (alike_rules, read_topic-Alike, handle_unsubscribe-Alike))

  read_ping-Alike : (h : Header) → Alike (read_ping on_memory h) (read_ping on_contents h)
  unfolding read_ping
  read_ping-Alike h = search alike_rules depth 8

  read_ping_response-Alike :
      (h : Header) → Alike (read_ping_response on_memory h) (read_ping_response on_contents h)
  unfolding read_ping_response
  read_ping_response-Alike h = search alike_rules

  dispatch-Alike : (h : Header) → Alike (dispatch on_memory h) (dispatch on_contents h)
  unfolding dispatch
  dispatch-Alike h =
      search
        (
          follow_rules, read_publish-Alike, read_publish_ack-Alike, read_subscribe-Alike,
          read_unsubscribe-Alike, read_ping-Alike, read_ping_response-Alike,
        )
        depth 10

  pub read_packet-Alike : Alike (read_packet on_memory) (read_packet on_contents)
  unfolding read_packet
  read_packet-Alike = search (alike_rules, dispatch-Alike, read_connect-Alike) depth 8

  pub run-Alike : (fuel : ℕ) → Alike (run on_memory fuel) (run on_contents fuel)
  unfolding run
  run-Alike zero = search follow_rules
  run-Alike (suc fuel) = Follows-bind _ _ _ _ read_packet-Alike (λ _. run-Alike fuel)

  pub close-Alike : Alike (close on_memory) (close on_contents)
  unfolding close
  close-Alike = search (alike_rules, remove_client-InStep) depth 8
