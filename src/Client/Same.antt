-- ===== src/Client/Same.antt =====
-- What the handlers of packets other than CONNECT leave alone.
use yodi.Base.{Bytes, ℕ, ◌≡◌, true, Option, none, some, Exec, Result, ok, err, halt, arith, modify}
use yodi.Base.Keeps.{Keeps, keeps_rules}
use yodi.Auth.{User}
use yodi.Wire.Header.{Header}
use yodi.Wire.Binary.{uint16, read_struct}
use yodi.Packet.{Publication}
use yodi.Broker.{Server}
use yodi.Client.{
  Env, Client, on_conn, on_server, on_store, acl_of, user_acl, read_topic, after_id, with_id,
  handle_publish, read_publish, handle_publish_ack, read_publish_ack, handle_subscribe,
  handle_unsubscribe, read_subscribe, read_unsubscribe, read_ping, read_ping_response, dispatch,
}

module _ (e : Env) where
  -- What a handler other than that of CONNECT leaves alone.
  pub record IsSame (c d : Client e) : Type 0 where
    pub registered : d.registered ≡ c.registered
    pub client_id : d.client_id ≡ c.client_id
    pub user : d.user ≡ c.user
    pub last_ping_time : d.last_ping_time ≡ c.last_ping_time

  module _ (c : Client e) where
    on_conn-IsSame : {A : Type 0} (m : Exec (e.transport.Conn) A) → Keeps (IsSame c) (on_conn e m)
    unfolding on_conn
    on_conn-IsSame m = record { at = λ d h. ground arith }

    on_server-IsSame : {A : Type 0} (m : Exec (Server e.store) A) → Keeps (IsSame c) (on_server e m)
    unfolding on_server
    on_server-IsSame m = record { at = λ d h. ground arith }

    on_store-IsSame : {A : Type 0} (m : Exec (e.store.State) A) → Keeps (IsSame c) (on_store e m)
    unfolding on_store
    on_store-IsSame m = on_server-IsSame _

    acl_of-IsSame : (u : Option User) → Keeps (IsSame c) (acl_of e u)
    unfolding acl_of
    acl_of-IsSame none = search keeps_rules
    acl_of-IsSame (some u) = search keeps_rules

    user_acl-IsSame : Keeps (IsSame c) (user_acl e)
    unfolding user_acl
    user_acl-IsSame = record { at = λ d. (acl_of-IsSame d.user).at d }

    started-IsSame : Keeps (IsSame c) (modify (λ (d : Client e). record d { started = true }))
    started-IsSame = record { at = λ d h. ground arith }

    ruleset same_rules = (
      keeps_rules, on_conn-IsSame, on_server-IsSame, on_store-IsSame, user_acl-IsSame,
      started-IsSame,
    )

    handle_publish-IsSame : (p : Publication) → Keeps (IsSame c) (handle_publish e p)
    unfolding handle_publish
    handle_publish-IsSame p = search same_rules

    handle_publish_ack-IsSame : (id : ℕ) → Keeps (IsSame c) (handle_publish_ack e id)
    unfolding handle_publish_ack
    handle_publish_ack-IsSame id = search same_rules

    handle_subscribe-IsSame :
        (id : ℕ) (topic : Bytes) (qos : ℕ) → Keeps (IsSame c) (handle_subscribe e id topic qos)
    unfolding handle_subscribe
    handle_subscribe-IsSame id topic qos = search same_rules depth 8

    handle_unsubscribe-IsSame :
        (id : ℕ) (topic : Bytes) → Keeps (IsSame c) (handle_unsubscribe e id topic)
    unfolding handle_unsubscribe
    handle_unsubscribe-IsSame id topic = search same_rules

    read_topic-IsSame : Keeps (IsSame c) (read_topic e)
    unfolding read_topic
    read_topic-IsSame = search same_rules

    after_id-IsSame :
        (rest : ℕ → Exec (Client e) (Unit {0})) (r : Result Bytes)
        → ((id : ℕ) → Keeps (IsSame c) (rest id))
        → Keeps (IsSame c) (after_id e rest r)
    unfolding after_id
    after_id-IsSame rest (ok buf) k = k (uint16 buf)
    after_id-IsSame rest (err x) k = search keeps_rules
    after_id-IsSame rest (halt x) k = search keeps_rules

    with_id-IsSame :
        (rest : ℕ → Exec (Client e) (Unit {0}))
        → ((id : ℕ) → Keeps (IsSame c) (rest id))
        → Keeps (IsSame c) (with_id e rest)
    with_id-IsSame rest k = record {
      at = λ d h.
          let call = on_conn e (read_struct e.transport 2) d in
          (after_id-IsSame rest call.0 k).at call.1
            ((on_conn-IsSame (read_struct e.transport 2)).at d h);
    }

    ruleset read_rules = (
      same_rules, handle_publish-IsSame, handle_publish_ack-IsSame, handle_subscribe-IsSame,
      handle_unsubscribe-IsSame, read_topic-IsSame, with_id-IsSame,
    )

    read_publish-IsSame : (h : Header) → Keeps (IsSame c) (read_publish e h)
    unfolding read_publish
    read_publish-IsSame h = search read_rules

    read_publish_ack-IsSame : Keeps (IsSame c) (read_publish_ack e)
    unfolding read_publish_ack
    read_publish_ack-IsSame = search read_rules

    read_subscribe-IsSame : Keeps (IsSame c) (read_subscribe e)
    unfolding read_subscribe
    read_subscribe-IsSame = with_id-IsSame _ (λ id. search read_rules)

    read_unsubscribe-IsSame : Keeps (IsSame c) (read_unsubscribe e)
    unfolding read_unsubscribe
    read_unsubscribe-IsSame = with_id-IsSame _ (λ id. search read_rules)

    read_ping-IsSame : (h : Header) → Keeps (IsSame c) (read_ping e h)
    unfolding read_ping
    read_ping-IsSame h = search read_rules

    read_ping_response-IsSame : (h : Header) → Keeps (IsSame c) (read_ping_response e h)
    unfolding read_ping_response
    read_ping_response-IsSame h = search read_rules

    -- Every packet after CONNECT leaves the user and the time of the last ping as they are.
    pub dispatch-IsSame : (h : Header) → Keeps (IsSame c) (dispatch e h)
    unfolding dispatch
    dispatch-IsSame h =
        search
          (
            read_rules, read_publish-IsSame, read_publish_ack-IsSame, read_subscribe-IsSame,
            read_unsubscribe-IsSame, read_ping-IsSame, read_ping_response-IsSame,
          )
          depth 10
