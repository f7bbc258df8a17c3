-- ===== src/Client/Isolation.antt =====
-- The packets of one client, and the data of another.
use yodi.Base.{
  ℕ, ◌≢◌, Bytes, Bool, true, false, refl, arith, Result-cases, inl, inr, if◌then◌else◌, raise,
  Error, ◌==◌,
}
use yodi.Base.Keeps.{Keeps}
use yodi.Json.{Json}
use yodi.Transport.{Transport}
use yodi.Store.Contents.{Contents, contents}
use yodi.Auth.{authenticate_user, find_user}
use yodi.Wire.Header.{Header, message_type}
use yodi.Wire.Header.MessageType
use yodi.Packet.{read_header}
use yodi.Broker.{add_client}
use yodi.Broker.Keys.{same-set_topic, same-set_client}
use yodi.Broker.Others.{
  IsUntouched, queue_message-IsUntouched, unqueue-IsUntouched, subscribe-IsUntouched,
  unsubscribe-IsUntouched,
}
use yodi.Client.{Client, on_conn, read_connect, dispatch, read_packet}
use yodi.Client.Database.{IsHandled, AnyName, dispatch-InStore, read_connect-InStore}
use yodi.Client.Leak.{env}

module _ (t : Transport) (capacity : ℕ) (json : Json) (d : Bytes) where
  module _ (s0 : Contents) where
    login-IsUntouched :
        (username password : Bytes)
        → Keeps
            (IsUntouched d s0)
            (authenticate_user (contents capacity) json.unmarshal_user username password)
    unfolding authenticate_user find_user
    login-IsUntouched username password = record { at = λ s h. h }

    add_client-IsUntouched :
        (id : Bytes) → Keeps (IsUntouched d s0) (add_client (contents capacity) json id)
    unfolding add_client
    add_client-IsUntouched id = record {
      at = λ s h. record {
        subscribers = λ topic. ground (arith, h.subscribers topic, same-set_topic topic);
        subscriptions = ground (arith, h.subscriptions, same-set_client d);
        kept = ground (arith, h.kept);
        notifications = ground (arith, h.notifications);
      };
    }

    others-IsHandled : IsHandled (env t capacity json) (IsUntouched d s0) (λ id. id ≢ d)
    others-IsHandled = record {
      queue = queue_message-IsUntouched capacity json d s0;
      unqueue = λ c id n. unqueue-IsUntouched capacity json d s0 c n id;
      subscribe = λ c topic n. subscribe-IsUntouched capacity json d s0 c n topic;
      unsubscribe = λ c topic n. unsubscribe-IsUntouched capacity json d s0 c n topic;
    }

    -- What `readPacket` does behind the header.
    after_header-IsUntouched :
        (hdr : Header) (c : Client (env t capacity json))
        → c.client_id ≢ d
        → IsUntouched d s0 c.server.db
        → IsUntouched d s0
            ((if c.registered
                then dispatch (env t capacity json) hdr
                else if message_type hdr == MessageType.connect
                then read_connect (env t capacity json) hdr
                else raise Error.must_connect_first)
              c).1.server.db
    after_header-IsUntouched hdr c n h =
        branch c.registered (message_type hdr == MessageType.connect)
      where
        branch :
            (r q : Bool)
            → IsUntouched d s0
                ((if r
                    then dispatch (env t capacity json) hdr
                    else if q
                    then read_connect (env t capacity json) hdr
                    else raise Error.must_connect_first)
                  c).1.server.db
        branch true q =
            ((dispatch-InStore (env t capacity json) (IsUntouched d s0) (λ id. id ≢ d)
                others-IsHandled hdr).at
              c (h, n)).0
        branch false true =
            ((read_connect-InStore (env t capacity json) (IsUntouched d s0) AnyName (λ id. tt)
                login-IsUntouched add_client-IsUntouched hdr).at
              c (h, tt)).0
        branch false false = h

  -- Over the abstract store, a packet of a client that does not bear the name `d`, whatever it is and however its handling ends,
  -- leaves all that the broker keeps for `d`: its subscriptions, in both indices, the messages that wait for its
  -- acknowledgement, and its notifications.
  pub read_packet-IsUntouched :
      (c : Client (env t capacity json))
      → c.client_id ≢ d
      → IsUntouched d c.server.db (read_packet (env t capacity json) c).1.server.db
  unfolding read_packet on_conn
  read_packet-IsUntouched c n =
      let u = (on_conn (env t capacity json) (read_header t) c).1 in
      let start : IsUntouched d c.server.db c.server.db = record {
        subscribers = λ topic. refl;
        subscriptions = refl;
        kept = refl;
        notifications = refl;
      } in
      elim (Result-cases (read_header t c.conn).0) [
        | inl (hdr, r) ↦ rw r (after_header-IsUntouched c.server.db hdr u n start)
        | inr (inl (x, r)) ↦ rw r start
        | inr (inr (x, r)) ↦ rw r start
      ]
