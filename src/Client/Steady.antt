-- ===== src/Client/Steady.antt =====
-- What the handlers keep of a client that has connected, and the halts that they never end in: those
-- that no read, no write and no call on the store ends in.
use yodi.Base.{
  true, false, refl, Bool, Error, fail_if, ◌>>◌, ltb, not, ◌==◌, ◌-◌, Bytes, ℕ, ◌≡◌, Option, none,
  some, Exec, Result, ok, err, halt, Halt, modify, ◌≢◌, ◌<◌, suc, length, lift,
}
use yodi.Base.Steady.{Steady, Steady-bind, Steady-lift, Steady-stop, steady_rules}
use yodi.Auth.{User, Acl, authenticate_publish, authenticate_subscribe}
use yodi.Auth.Access.{authenticate_publish-ne-halt, authenticate_subscribe-ne-halt}
use yodi.Wire.Header.{Header}
use yodi.Wire.Binary.{uint16, read_struct}
use yodi.Packet.{Publication}
use yodi.Packet.Steady.{
  read_struct-Steady, read_string-Steady, parse_publish-Steady, write_publish_ack-Steady,
  write_subscribe_ack-Steady, write_unsubscribe_ack-Steady, handle_ping-Steady,
}
use yodi.Broker
use yodi.Client.{
  Env, Client, on_conn, on_server, on_store, acl_of, user_acl, read_topic, after_id, with_id,
  handle_publish, read_publish, handle_publish_ack, read_publish_ack, handle_subscribe,
  handle_unsubscribe, read_subscribe, read_unsubscribe, read_ping, read_ping_response, dispatch,
  min_ping_interval,
}

-- The calls on the store that a client makes never end in `h`.
pub record Returns (e : Env) (h : Halt) : Type 0 where
  pub queue :
      (topic message : Bytes) (id qos : ℕ) (s : e.store.State)
      → (Broker.queue_message e.store e.json topic message id qos s).0 ≢ halt h
  pub unqueue :
      (client_id : Bytes) (id : ℕ) (s : e.store.State)
      → (Broker.unqueue_message_for_subscriber e.store e.json client_id id s).0 ≢ halt h
  pub subscribe :
      (client_id topic : Bytes) (s : e.store.State)
      → (Broker.subscribe e.store e.json client_id topic s).0 ≢ halt h
  pub unsubscribe :
      (client_id topic : Bytes) (s : e.store.State)
      → (Broker.unsubscribe e.store e.json client_id topic s).0 ≢ halt h

-- The invariant holds of the connection, and the client has a user.
module _ (e : Env) (Q : e.transport.Conn → Type 0) where
  pub record IsConnected (c : Client e) : Type 0 where
    pub conn : Q c.conn
    pub user : c.user ≢ none

  module _ (h : Halt) (reads : (n : ℕ) → Steady Q h (e.transport.read n))
      (progress : (n : ℕ) (c : e.transport.Conn) (bs : Bytes)
        → (e.transport.read (suc n) c).0 ≡ ok bs
        → 0 < length bs)
      (writes : (p : Bytes) → Steady Q h (e.transport.write p)) (store : Returns e h) where
    on_conn-Steady :
        {A : Type 0} (m : Exec (e.transport.Conn) A)
        → Steady Q h m
        → Steady IsConnected h (on_conn e m)
    unfolding on_conn
    on_conn-Steady m k = record {
      at = λ d p. ((k.at d.conn p.conn).0, record { conn = (k.at d.conn p.conn).1; user = p.user });
    }

    now-Steady : Steady IsConnected h (on_server e (Broker.now e.store e.json))
    unfolding on_server Broker.now
    now-Steady = record { at = λ d p. (λ e'. cc, record { conn = p.conn; user = p.user }) }

    on_store-Steady :
        {A : Type 0} (m : Exec (e.store.State) A)
        → ((s : e.store.State) → (m s).0 ≢ halt h)
        → Steady IsConnected h (on_store e m)
    unfolding on_store on_server
    on_store-Steady m k = record {
      at = λ d p. (k d.server.db, record { conn = p.conn; user = p.user });
    }

    acl_of-Steady : (u : Option User) → u ≢ none → Steady IsConnected h (acl_of e u)
    unfolding acl_of
    acl_of-Steady none n = absurd (n refl)
    acl_of-Steady (some u) n = search steady_rules

    user_acl-Steady : Steady IsConnected h (user_acl e)
    unfolding user_acl
    user_acl-Steady = record { at = λ d p. (acl_of-Steady d.user p.user).at d p }

    started-Steady : Steady IsConnected h (modify (λ (d : Client e). record d { started = true }))
    started-Steady = record { at = λ d p. (λ e'. cc, record { conn = p.conn; user = p.user }) }

    may_publish-Steady :
        (acl : Acl) (topic : Bytes) (qos : ℕ)
        → Steady IsConnected h (lift (authenticate_publish acl topic qos))
    may_publish-Steady acl topic qos = Steady-lift _ (authenticate_publish-ne-halt acl topic qos h)

    may_subscribe-Steady :
        (acl : Acl) (topic : Bytes) (qos : ℕ)
        → Steady IsConnected h (lift (authenticate_subscribe acl topic qos))
    may_subscribe-Steady acl topic qos =
        Steady-lift _ (authenticate_subscribe-ne-halt acl topic qos h)

    ruleset handler_rules = (
      steady_rules, on_conn-Steady, on_store-Steady, user_acl-Steady, now-Steady, started-Steady,
      may_publish-Steady, may_subscribe-Steady,
    )

    handle_publish-Steady : (p : Publication) → Steady IsConnected h (handle_publish e p)
    unfolding handle_publish
    handle_publish-Steady p =
        search
          (
            handler_rules,
            store.queue,
            write_publish_ack-Steady e.transport Q h reads progress writes,
          )
          depth 10

    handle_publish_ack-Steady : (id : ℕ) → Steady IsConnected h (handle_publish_ack e id)
    unfolding handle_publish_ack
    handle_publish_ack-Steady id = search (handler_rules, store.unqueue)

    handle_subscribe-Steady :
        (id : ℕ) (topic : Bytes) (qos : ℕ) → Steady IsConnected h (handle_subscribe e id topic qos)
    unfolding handle_subscribe
    handle_subscribe-Steady id topic qos =
        search
          (
            handler_rules,
            store.subscribe,
            write_subscribe_ack-Steady e.transport Q h reads progress writes,
          )
          depth 12

    handle_unsubscribe-Steady :
        (id : ℕ) (topic : Bytes) → Steady IsConnected h (handle_unsubscribe e id topic)
    unfolding handle_unsubscribe
    handle_unsubscribe-Steady id topic =
        search
          (
            handler_rules,
            store.unsubscribe,
            write_unsubscribe_ack-Steady e.transport Q h reads progress writes,
          )
          depth 8

    read_topic-Steady : Steady IsConnected h (read_topic e)
    unfolding read_topic
    read_topic-Steady =
        search (handler_rules, read_string-Steady e.transport Q h reads progress writes)

    after_id-Steady :
        (rest : ℕ → Exec (Client e) (Unit {0})) (r : Result Bytes)
        → r ≢ halt h
        → ((id : ℕ) → Steady IsConnected h (rest id))
        → Steady IsConnected h (after_id e rest r)
    unfolding after_id
    after_id-Steady rest (ok buf) n k = k (uint16 buf)
    after_id-Steady rest (err x) n k = search steady_rules
    after_id-Steady rest (halt x) n k = Steady-stop x (λ e'. n (cc))

    with_id-Steady :
        (rest : ℕ → Exec (Client e) (Unit {0}))
        → ((id : ℕ) → Steady IsConnected h (rest id))
        → Steady IsConnected h (with_id e rest)
    with_id-Steady rest k = record {
      at = λ d p.
          let call = on_conn e (read_struct e.transport 2) d in
          let first =
            (on_conn-Steady _ (read_struct-Steady e.transport Q h reads progress writes 2)).at d
              p in
          (after_id-Steady rest call.0 first.0 k).at call.1 first.1;
    }

    read_publish-Steady : (hdr : Header) → Steady IsConnected h (read_publish e hdr)
    unfolding read_publish
    read_publish-Steady hdr = search (
      handler_rules,
      handle_publish-Steady,
      parse_publish-Steady e.transport Q h reads progress writes,
    )

    read_publish_ack-Steady : Steady IsConnected h (read_publish_ack e)
    unfolding read_publish_ack
    read_publish_ack-Steady = search (
      handler_rules,
      handle_publish_ack-Steady,
      read_struct-Steady e.transport Q h reads progress writes,
    )

    read_subscribe-Steady : Steady IsConnected h (read_subscribe e)
    unfolding read_subscribe
    read_subscribe-Steady =
        with_id-Steady _
          (λ id. search (handler_rules, reads, read_topic-Steady, handle_subscribe-Steady) depth 10)

    read_unsubscribe-Steady : Steady IsConnected h (read_unsubscribe e)
    unfolding read_unsubscribe
    read_unsubscribe-Steady =
        with_id-Steady _
          (λ id. search (handler_rules, read_topic-Steady, handle_unsubscribe-Steady))

    two_tests :
        (a b : Bool) (x y : Error) (m : Exec (Client e) (Unit {0}))
        → Steady IsConnected h m
        → Steady IsConnected h (fail_if a x >> (fail_if b y >> m))
    two_tests true b x y m k = record { at = λ d p. (λ e'. cc, p) }
    two_tests false true x y m k = record { at = λ d p. (λ e'. cc, p) }
    two_tests false false x y m k = record { at = k.at }

    read_ping-Steady : (hdr : Header) → Steady IsConnected h (read_ping e hdr)
    unfolding read_ping
    read_ping-Steady hdr =
        let ping = on_conn-Steady _ (handle_ping-Steady e.transport Q h reads progress writes) in
        Steady-bind _ _ now-Steady (λ time. record {
          at = λ d p.
              (two_tests (ltb (time - d.last_ping_time) min_ping_interval)
                  (not (hdr.message_length == 0)) Error.pings_too_often Error.ping_has_payload _
                  ping).at
                d p;
        })

    read_ping_response-Steady : (hdr : Header) → Steady IsConnected h (read_ping_response e hdr)
    unfolding read_ping_response
    read_ping_response-Steady hdr = search steady_rules

    -- Every packet after CONNECT.
    pub dispatch-Steady : (hdr : Header) → Steady IsConnected h (dispatch e hdr)
    unfolding dispatch
    dispatch-Steady hdr =
        search
          (
            steady_rules, read_publish-Steady, read_publish_ack-Steady, read_subscribe-Steady,
            read_unsubscribe-Steady, read_ping-Steady, read_ping_response-Steady,
          )
          depth 10
