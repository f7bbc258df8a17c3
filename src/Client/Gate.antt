-- ===== src/Client/Gate.antt =====
-- What a client may do before it has connected, and what the access rules stop.
use yodi.Broker.{Server}
use yodi.Client.{run, new_client}
use yodi.Client.Session.{run-IsSession}
use yodi.Base.{
  ◌<◌, ◌⊎◌, inl, inr, Bool-cases, ltb, ℕ, ◌≡◌, ◌≢◌, ◌≤◌, false, some, ok, err, arith, Error, ◌==◌,
  if◌then◌else◌, Bytes,
}
use yodi.Auth.{User, authenticate_publish, authenticate_subscribe}
use yodi.Broker.{now}
use yodi.Packet.{Publication, read_header, handle_ping}
use yodi.Wire.Header.{Header, message_type}
use yodi.Wire.Header.MessageType
use yodi.Client.{
  Env, Client, on_conn, on_server, acl_of, user_acl, handle_publish, handle_subscribe, read_ping,
  read_packet, min_ping_interval,
}

module _ (e : Env) (c : Client e) where
  -- A packet other than CONNECT from a client that is not registered is refused: after its
  -- header nothing is read or written, and the store, the clock and the client are as they were.
  pub must_connect_first :
      (hdr : Header)
      → c.registered ≡ false
      → (read_header e.transport c.conn).0 ≡ ok hdr
      → message_type hdr ≢ MessageType.connect
      → read_packet e c
        ≡ (err Error.must_connect_first, record c { conn = (read_header e.transport c.conn).1 })
  unfolding read_packet on_conn
  must_connect_first hdr f r m = ground arith

  -- A publish that the access rules refuse ends with their error; nothing is queued, nothing is
  -- written, and the client is as it was.
  pub publish_refused :
      (user : User) (p : Publication) (x : Error)
      → c.user ≡ some user
      → authenticate_publish user.acl p.topic p.qos ≡ err x
      → handle_publish e p c ≡ (err x, c)
  unfolding handle_publish user_acl acl_of
  publish_refused user p x u a = ground arith

  -- A subscription that the access rules refuse ends with their error; nothing is stored, nothing is
  -- written, and the client is as it was.
  pub subscribe_refused :
      (user : User) (id : ℕ) (topic : Bytes) (qos : ℕ) (x : Error)
      → c.user ≡ some user
      → authenticate_subscribe user.acl topic qos ≡ err x
      → handle_subscribe e id topic qos c ≡ (err x, c)
  unfolding handle_subscribe user_acl acl_of
  subscribe_refused user id topic qos x u a = ground arith

  read_ping_cases :
      (hdr : Header)
      → c.last_ping_time ≡ 0
      → let t = c.server.times c.server.readings in
        (t < min_ping_interval) × ((read_ping e hdr c).0 ≡ err Error.pings_too_often)
        ⊎ (min_ping_interval ≤ t)
          × ((read_ping e hdr c).0 ≡ (
              if hdr.message_length == 0
              then (handle_ping e.transport c.conn).0
              else err Error.ping_has_payload))
  unfolding read_ping on_conn on_server now
  read_ping_cases hdr z =
      elim (Bool-cases (ltb (c.server.times c.server.readings) min_ping_interval)) [
        | inl early ↦ inl (ground (arith, early), ground (arith, early, z))
        | inr late ↦ inr (ground (arith, late), ground (arith, late, z))
      ]

module _ (e : Env) where
  -- A client that NewClient made, after any number of packets, whatever they are, pings among them: whether a ping is refused
  -- as one too many depends on the clock alone, and not on the pings before it. It is refused in the first 20 seconds of the zero
  -- time; after them it is answered if it has no payload, and refused for its payload if it has one.
  pub run-read_ping :
      (fuel : ℕ) (conn : e.transport.Conn) (server : Server e.store) (hdr : Header)
      → let c = (run e fuel (new_client e conn server)).1 in
        let t = c.server.times c.server.readings in
        (t < min_ping_interval) × ((read_ping e hdr c).0 ≡ err Error.pings_too_often)
        ⊎ (min_ping_interval ≤ t)
          × ((read_ping e hdr c).0 ≡ (
              if hdr.message_length == 0
              then (handle_ping e.transport c.conn).0
              else err Error.ping_has_payload))
  run-read_ping fuel conn server hdr =
      read_ping_cases e (run e fuel (new_client e conn server)).1 hdr
        (run-IsSession e fuel conn server).no_ping
