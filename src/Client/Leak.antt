-- ===== src/Client/Leak.antt =====
-- A CONNECT whose acknowledgement cannot be sent.
use yodi.Base.{
  ℕ, ◌≡◌, ◌≢◌, true, false, ok, err, arith, Error, [], contains, contains-append, same_iff,
  same_self,
}
use yodi.Json.{Json}
use yodi.Transport.{Transport}
use yodi.Store.Contents.{contents}
use yodi.Auth.{find_user, authenticate_user}
use yodi.Broker.{add_client, remove_client, client_set}
use yodi.Broker.Removal.{clients-remove_client}
use yodi.Packet.{Credentials, connection_accepted, write_connect_ack}
use yodi.Client.{
  Env, Client, on_conn, on_store, on_server, keep_user, answer_error, authenticate_connect,
  handle_connect, close,
}

module _ (t : Transport) (capacity : ℕ) (json : Json) where
  abbrev pub env : Env
  env = record { transport = t; store = contents capacity; json = json }

  -- After the failed acknowledgement the client is registered, with no client ID, and the set of
  -- clients holds its name.
  connect_unacknowledged :
      (who : Credentials) (c : Client env) (x : Error)
      → (authenticate_connect env who.username who.password c).0 ≡ ok tt
      → contains (c.server.db.elements client_set) who.client_id ≡ false
      → (write_connect_ack t connection_accepted c.conn).0 ≡ err x
      → let call = handle_connect env who c in
        (call.0 ≡ err x)
        × (call.1.registered ≡ true)
        × (call.1.client_id ≡ c.client_id)
        × (contains (call.1.server.db.elements client_set) who.client_id ≡ true)
  unfolding handle_connect authenticate_connect keep_user answer_error on_conn on_store on_server
      add_client authenticate_user find_user
  connect_unacknowledged who c x a n w = ground (
    arith,
    same_self client_set,
    same_self who.client_id,
    contains-append (c.server.db.elements client_set) who.client_id who.client_id,
  )

  db-close :
      (c : Client env)
      → c.registered ≡ true
      → (close env c).1.server.db
        ≡ (remove_client (contents capacity) json c.client_id c.server.db).1
  unfolding close on_store on_server
  db-close c r = ground arith

  -- When the acknowledgement of an accepted CONNECT cannot be sent, `Close` removes the empty client
  -- ID in place of the client's own, which stays in the set of clients.
  pub close_leaks_client :
      (who : Credentials) (c : Client env) (x : Error)
      → c.client_id ≡ []
      → who.client_id ≢ []
      → (authenticate_connect env who.username who.password c).0 ≡ ok tt
      → contains (c.server.db.elements client_set) who.client_id ≡ false
      → (write_connect_ack t connection_accepted c.conn).0 ≡ err x
      → let c' = (handle_connect env who c).1 in
        ((handle_connect env who c).0 ≡ err x)
        × (contains ((close env c').1.server.db.elements client_set) who.client_id ≡ true)
  close_leaks_client who c x i ne a n w =
      let c' = (handle_connect env who c).1 in
      ground (
        arith,
        connect_unacknowledged who c x a n w,
        db-close c',
        clients-remove_client capacity json c'.client_id c'.server.db who.client_id,
        same_iff [] who.client_id,
      )
