-- ===== src/Client/Session.antt =====
-- What holds of a client between two packets.
use yodi.Base.{
  Bool-cases, ◌==◌, if◌then◌else◌, raise, Error, Bytes, ℕ, zero, suc, ◌≡◌, ◌≢◌, true, false, none,
  ok, refl, arith, Result-cases, inl, inr,
}
use yodi.Base.Keeps.{Keeps, Keeps-bind, keeps_rules}
use yodi.Wire.Header.{Header, message_type}
use yodi.Packet.{Credentials, parse_connect, read_header}
use yodi.Wire.Header.MessageType
use yodi.Broker.{Server}
use yodi.Client.{
  Env, Client, on_conn, on_server, on_store, authenticate_connect, keep_user, answer_error,
  handle_connect, dispatch, read_packet, read_connect, run, new_client,
}
use yodi.Client.Same.{dispatch-IsSame}

-- A registered client has a user, so no handler meets a nil pointer, and no ping has been timed.
pub record IsSession {e : Env} (c : Client e) : Type 0 where
  pub has_user : c.registered ≡ true → c.user ≢ none
  pub no_ping : c.last_ping_time ≡ 0

module _ (e : Env) where
  authenticate_connect-user :
      (username password : Bytes) (c : Client e)
      → let call = authenticate_connect e username password c in
        (call.1.registered ≡ c.registered)
        × (call.1.last_ping_time ≡ c.last_ping_time)
        × (call.0 ≡ ok tt → call.1.user ≢ none)
  unfolding authenticate_connect keep_user on_store on_server
  authenticate_connect-user username password c = ground arith

  handle_connect-IsSession :
      (who : Credentials) (c : Client e)
      → c.registered ≡ false
      → c.last_ping_time ≡ 0
      → IsSession (handle_connect e who c).1
  unfolding handle_connect answer_error on_conn on_store on_server
  handle_connect-IsSession who c f p =
      ground (arith, authenticate_connect-user who.username who.password c)

  read_connect-IsSession :
      (h : Header) (c : Client e)
      → c.registered ≡ false
      → c.last_ping_time ≡ 0
      → IsSession (read_connect e h c).1
  unfolding read_connect on_conn
  read_connect-IsSession h c f p =
      let call = on_conn e (parse_connect e.transport h) c in
      elim (Result-cases call.0) [
        | inl (who, r) ↦ ground (arith, handle_connect-IsSession who call.1)
        | inr (inl (x, r)) ↦ ground arith
        | inr (inr (x, r)) ↦ ground arith
      ]

  dispatch-IsSession : (h : Header) (c : Client e) → IsSession c → IsSession (dispatch e h c).1
  dispatch-IsSession h c k =
      let same =
        (dispatch-IsSame e c h).at c
          (record { registered = refl; client_id = refl; user = refl; last_ping_time = refl }) in
      ground arith

  -- What `readPacket` does behind the header.
  after_header-IsSession :
      (h : Header) (c : Client e)
      → IsSession c
      → IsSession
          ((if c.registered
              then dispatch e h
              else if message_type h == MessageType.connect
              then read_connect e h
              else raise Error.must_connect_first)
            c).1
  after_header-IsSession h c k = elim (Bool-cases c.registered) [
    | inl r ↦ ground (arith, dispatch-IsSession h c k)
    | inr r ↦ ground (arith, read_connect-IsSession h c r k.no_ping)
  ]

  pub read_packet-IsSession : (c : Client e) → IsSession c → IsSession (read_packet e c).1
  unfolding read_packet on_conn
  read_packet-IsSession c k =
      let d = (on_conn e (read_header e.transport) c).1 in
      let kd : IsSession d = record { has_user = k.has_user; no_ping = k.no_ping } in
      elim (Result-cases (read_header e.transport c.conn).0) [
        | inl (hdr, r) ↦ rw r (after_header-IsSession hdr d kd)
        | inr (inl (x, r)) ↦ rw r kd
        | inr (inr (x, r)) ↦ rw r kd
      ]

  pub new_client-IsSession :
      (conn : e.transport.Conn) (server : Server e.store) → IsSession (new_client e conn server)
  unfolding new_client
  new_client-IsSession conn server = record { has_user = λ h. cc; no_ping = refl }

  -- A client that `NewClient` made, after any number of packets, whatever they are and however their
  -- handling ends: once it is registered it has a user, and the time of its last ping is still zero.
  pub run-IsSession :
      (fuel : ℕ) (conn : e.transport.Conn) (server : Server e.store)
      → IsSession (run e fuel (new_client e conn server)).1
  unfolding run
  run-IsSession fuel conn server = (loop fuel).at _ (new_client-IsSession conn server)
    where
      loop : (fuel : ℕ) → Keeps IsSession (run e fuel)
      loop zero = search keeps_rules
      loop (suc fuel) =
          Keeps-bind (read_packet e) _ (record { at = read_packet-IsSession }) (λ _. loop fuel)
