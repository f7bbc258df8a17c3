-- ===== src/Client/Database.antt =====
-- What the calls of the broker keep of its store, a client keeps: whatever its packets are, and however
-- their handling ends.
use yodi.Base.{
  Bytes, ℕ, zero, suc, true, Option, none, some, Exec, Result, ok, err, halt, modify, gets, ◌>>=◌,
}
use yodi.Base.Keeps.{Keeps, Keeps-bind, Keeps-lift, keeps_rules}
use yodi.Auth.{User, authenticate_user}
use yodi.Wire.Header.{Header}
use yodi.Wire.Binary.{uint16, read_struct}
use yodi.Packet
use yodi.Packet.{Publication, Credentials}
use yodi.Broker
use yodi.Broker.{Server}
use yodi.Client.{
  Env, Client, on_conn, on_server, on_store, acl_of, user_acl, read_topic, after_id, with_id,
  handle_publish, read_publish, handle_publish_ack, read_publish_ack, handle_subscribe,
  handle_unsubscribe, read_subscribe, read_unsubscribe, read_ping, read_ping_response, dispatch,
  authenticate_connect, keep_user, answer_error, or_answer, handle_connect, read_connect,
  read_packet, run, close,
}

-- The calls on the store of its broker that a client makes for a packet other than CONNECT keep `P`, if its name is one
-- of `names`.
pub record IsHandled (e : Env) (P : e.store.State → Type 0) (names : Bytes → Type 0) : Type 0 where
  pub queue :
      (topic message : Bytes) (id qos : ℕ)
      → Keeps P (Broker.queue_message e.store e.json topic message id qos)
  pub unqueue :
      (client_id : Bytes) (id : ℕ)
      → names client_id
      → Keeps P (Broker.unqueue_message_for_subscriber e.store e.json client_id id)
  pub subscribe :
      (client_id topic : Bytes)
      → names client_id
      → Keeps P (Broker.subscribe e.store e.json client_id topic)
  pub unsubscribe :
      (client_id topic : Bytes)
      → names client_id
      → Keeps P (Broker.unsubscribe e.store e.json client_id topic)

abbrev pub AnyName : Bytes → Type 0
AnyName id = Unit

-- All calls that it makes on it do, whatever its name.
pub record IsKept (e : Env) (P : e.store.State → Type 0) : Type 0 where
  pub login :
      (username password : Bytes)
      → Keeps P (authenticate_user e.store e.json.unmarshal_user username password)
  pub add_client : (id : Bytes) → Keeps P (Broker.add_client e.store e.json id)
  pub remove_client : (id : Bytes) → Keeps P (Broker.remove_client e.store e.json id)
  pub handled : IsHandled e P AnyName

module _ (e : Env) (P : e.store.State → Type 0) (names : Bytes → Type 0) where
  abbrev pub InStore : Client e → Type 0
  InStore c = P c.server.db × names c.client_id

  -- What is done under the client's own name.
  by_name-InStore :
      {A : Type 0} (f : Bytes → Exec (Client e) A)
      → ((id : Bytes) → names id → Keeps InStore (f id))
      → Keeps InStore (gets (λ c. c.client_id) >>= f)
  by_name-InStore f k = record { at = λ d h. (k d.client_id h.1).at d h }

  on_conn-InStore : {A : Type 0} (m : Exec (e.transport.Conn) A) → Keeps InStore (on_conn e m)
  unfolding on_conn
  on_conn-InStore m = record { at = λ d h. h }

  now-InStore : Keeps InStore (on_server e (Broker.now e.store e.json))
  unfolding on_server Broker.now
  now-InStore = record { at = λ d h. h }

  on_store-InStore :
      {A : Type 0} (m : Exec (e.store.State) A) → Keeps P m → Keeps InStore (on_store e m)
  unfolding on_store on_server
  on_store-InStore m k = record { at = λ d h. (k.at d.server.db h.0, h.1) }

  acl_of-InStore : (u : Option User) → Keeps InStore (acl_of e u)
  unfolding acl_of
  acl_of-InStore none = search keeps_rules
  acl_of-InStore (some u) = search keeps_rules

  user_acl-InStore : Keeps InStore (user_acl e)
  unfolding user_acl
  user_acl-InStore = record { at = λ d. (acl_of-InStore d.user).at d }

  started-InStore : Keeps InStore (modify (λ (d : Client e). record d { started = true }))
  started-InStore = record { at = λ d h. h }

  registered-InStore : Keeps InStore (modify (λ (d : Client e). record d { registered = true }))
  registered-InStore = record { at = λ d h. h }

  named-InStore :
      (id : Bytes)
      → names id
      → Keeps InStore (modify (λ (d : Client e). record d { client_id = id }))
  named-InStore id n = record { at = λ d h. (h.0, n) }

  keep_user-InStore : (r : Result User) → Keeps InStore (keep_user e r)
  unfolding keep_user
  keep_user-InStore (ok u) = record { at = λ d h. h }
  keep_user-InStore (err x) = record { at = λ d h. h }
  keep_user-InStore (halt x) = record { at = λ d h. h }

  answer_error-InStore : (code : ℕ) (r : Result (Unit {0})) → Keeps InStore (answer_error e code r)
  unfolding answer_error
  answer_error-InStore code (ok u) = search keeps_rules
  answer_error-InStore code (err x) = search (keeps_rules, on_conn-InStore)
  answer_error-InStore code (halt x) = search keeps_rules

  or_answer-InStore :
      (code : ℕ) (m : Exec (Client e) (Unit {0}))
      → Keeps InStore m
      → Keeps InStore (or_answer e code m)
  or_answer-InStore code m k = record {
    at = λ d h. (answer_error-InStore code (m d).0).at (m d).1 (k.at d h);
  }

  ruleset store_rules = (
    keeps_rules, on_conn-InStore, on_store-InStore, user_acl-InStore, now-InStore, started-InStore,
    registered-InStore, named-InStore, keep_user-InStore, or_answer-InStore,
  )

  read_topic-InStore : Keeps InStore (read_topic e)
  unfolding read_topic
  read_topic-InStore = search store_rules

  after_id-InStore :
      (rest : ℕ → Exec (Client e) (Unit {0})) (r : Result Bytes)
      → ((id : ℕ) → Keeps InStore (rest id))
      → Keeps InStore (after_id e rest r)
  unfolding after_id
  after_id-InStore rest (ok buf) k = k (uint16 buf)
  after_id-InStore rest (err x) k = search keeps_rules
  after_id-InStore rest (halt x) k = search keeps_rules

  with_id-InStore :
      (rest : ℕ → Exec (Client e) (Unit {0}))
      → ((id : ℕ) → Keeps InStore (rest id))
      → Keeps InStore (with_id e rest)
  with_id-InStore rest k = record {
    at = λ d h.
        let call = on_conn e (read_struct e.transport 2) d in
        (after_id-InStore rest call.0 k).at call.1
          ((on_conn-InStore (read_struct e.transport 2)).at d h);
  }

  module _ (k : IsHandled e P names) where
    handle_publish-InStore : (p : Publication) → Keeps InStore (handle_publish e p)
    unfolding handle_publish
    handle_publish-InStore p = search (store_rules, k.queue) depth 8

    handle_publish_ack-InStore : (id : ℕ) → Keeps InStore (handle_publish_ack e id)
    unfolding handle_publish_ack
    handle_publish_ack-InStore id = by_name-InStore _ (λ c n. on_store-InStore _ (k.unqueue c id n))

    handle_subscribe-InStore :
        (id : ℕ) (topic : Bytes) (qos : ℕ) → Keeps InStore (handle_subscribe e id topic qos)
    unfolding handle_subscribe
    handle_subscribe-InStore id topic qos = Keeps-bind _ _ user_acl-InStore (λ acl.
        Keeps-bind _ _ (Keeps-lift _) (λ u. by_name-InStore _ (λ c n.
          Keeps-bind _ _ (on_store-InStore _ (k.subscribe c topic n)) (λ u.
            Keeps-bind _ _ (on_conn-InStore (Packet.write_subscribe_ack e.transport id qos))
              (λ u. started-InStore)))))

    handle_unsubscribe-InStore :
        (id : ℕ) (topic : Bytes) → Keeps InStore (handle_unsubscribe e id topic)
    unfolding handle_unsubscribe
    handle_unsubscribe-InStore id topic = by_name-InStore _ (λ c n.
        Keeps-bind _ _ (on_store-InStore _ (k.unsubscribe c topic n))
          (λ u. on_conn-InStore (Packet.write_unsubscribe_ack e.transport id)))

    read_publish-InStore : (h : Header) → Keeps InStore (read_publish e h)
    unfolding read_publish
    read_publish-InStore h = search (store_rules, handle_publish-InStore)

    read_publish_ack-InStore : Keeps InStore (read_publish_ack e)
    unfolding read_publish_ack
    read_publish_ack-InStore = search (store_rules, handle_publish_ack-InStore)

    read_subscribe-InStore : Keeps InStore (read_subscribe e)
    unfolding read_subscribe
    read_subscribe-InStore =
        with_id-InStore _
          (λ id. search (store_rules, read_topic-InStore, handle_subscribe-InStore) depth 8)

    read_unsubscribe-InStore : Keeps InStore (read_unsubscribe e)
    unfolding read_unsubscribe
    read_unsubscribe-InStore =
        with_id-InStore _
          (λ id. search (store_rules, read_topic-InStore, handle_unsubscribe-InStore))

    read_ping-InStore : (h : Header) → Keeps InStore (read_ping e h)
    unfolding read_ping
    read_ping-InStore h = search store_rules depth 8

    read_ping_response-InStore : (h : Header) → Keeps InStore (read_ping_response e h)
    unfolding read_ping_response
    read_ping_response-InStore h = search store_rules

    pub dispatch-InStore : (h : Header) → Keeps InStore (dispatch e h)
    unfolding dispatch
    dispatch-InStore h =
        search
          (
            keeps_rules, read_publish-InStore, read_publish_ack-InStore, read_subscribe-InStore,
            read_unsubscribe-InStore, read_ping-InStore, read_ping_response-InStore,
          )
          depth 10

  module _ (all : (id : Bytes) → names id)
      (login : (username password : Bytes)
        → Keeps P (authenticate_user e.store e.json.unmarshal_user username password))
      (add : (id : Bytes) → Keeps P (Broker.add_client e.store e.json id)) where
    authenticate_connect-InStore :
        (username password : Bytes) → Keeps InStore (authenticate_connect e username password)
    unfolding authenticate_connect
    authenticate_connect-InStore username password = record {
      at = λ d h.
          let call =
            on_store e (authenticate_user e.store e.json.unmarshal_user username password) d in
          (keep_user-InStore call.0).at call.1
            ((on_store-InStore _ (login username password)).at d h);
    }

    handle_connect-InStore : (who : Credentials) → Keeps InStore (handle_connect e who)
    unfolding handle_connect
    handle_connect-InStore who =
        search (store_rules, authenticate_connect-InStore, add, all) depth 10

    pub read_connect-InStore : (h : Header) → Keeps InStore (read_connect e h)
    unfolding read_connect
    read_connect-InStore h = search (store_rules, handle_connect-InStore)

module _ (e : Env) (P : e.store.State → Type 0) (k : IsKept e P) where
  abbrev Everyone : Client e → Type 0
  Everyone = InStore e P AnyName

  any_packet-Keeps : Keeps Everyone (read_packet e)
  unfolding read_packet
  any_packet-Keeps =
      search
        (
          keeps_rules,
          on_conn-InStore e P AnyName,
          dispatch-InStore e P AnyName k.handled,
          read_connect-InStore e P AnyName (λ id. tt) k.login k.add_client,
        )
        depth 8

  pub read_packet-InStore : Keeps (λ c. P c.server.db) (read_packet e)
  read_packet-InStore = record { at = λ d h. (any_packet-Keeps.at d (h, tt)).0 }

  pub run-InStore : (fuel : ℕ) → Keeps (λ c. P c.server.db) (run e fuel)
  unfolding run
  run-InStore zero = search keeps_rules
  run-InStore (suc fuel) = Keeps-bind (read_packet e) _ read_packet-InStore (λ _. run-InStore fuel)

  any_closing-Keeps : Keeps Everyone (close e)
  unfolding close
  any_closing-Keeps = search (keeps_rules, on_store-InStore e P AnyName, k.remove_client) depth 8

  pub close-InStore : Keeps (λ c. P c.server.db) (close e)
  close-InStore = record { at = λ d h. (any_closing-Keeps.at d (h, tt)).0 }
