-- ===== src/Client/Names.antt =====
-- What a packet does to the name of its client and to the set of clients of the broker.
use yodi.Base.{
  ℕ, ◌≡◌, ◌≢◌, ◌⊎◌, inl, inr, Bytes, List, [], ◌∷◌, ◌++◌, contains, true, false, ok, refl, arith,
  same_self, same, not, ◌&&◌, Result-cases, Bool, if◌then◌else◌, raise, Error, ◌==◌,
}
use yodi.Json.{Json}
use yodi.Transport.{Transport}
use yodi.Auth.{authenticate_user, find_user}
use yodi.Wire.Header.{Header, message_type}
use yodi.Wire.Header.MessageType
use yodi.Packet.Bounds.{parse_connect-named}
use yodi.Packet.{Credentials, parse_connect, read_header}
use yodi.Broker.{add_client, client_set}
use yodi.Broker.Clients.{
  HasClients, queue_message-HasClients, unqueue-HasClients, subscribe-HasClients,
  unsubscribe-HasClients,
}
use yodi.Client.{
  Client, on_conn, on_store, on_server, keep_user, answer_error, authenticate_connect,
  handle_connect, read_connect, dispatch, read_packet, close,
}
use yodi.Broker.Removal.{clients-remove_client}
use yodi.Client.Database.{AnyName, dispatch-InStore}
use yodi.Client.Same.{dispatch-IsSame}
use yodi.Client.Leak.{env}

module _ (t : Transport) (capacity : ℕ) (json : Json) where
  abbrev E : Type 0
  E = Client (env t capacity json)

  abbrev pub names : E → List Bytes
  names c = c.server.db.elements client_set

  -- The names stay as they are.
  pub record IsQuiet (ids : List Bytes) (client_id : Bytes) (registered : Bool) (c : E)
      : Type 0 where
    pub same_names : names c ≡ ids
    pub same_id : c.client_id ≡ client_id
    pub same_registered : c.registered ≡ registered

  -- A CONNECT adds the name `id`, which was not there. The client has no name when its acknowledgement fails.
  pub record IsJoined (ids : List Bytes) (client_id id : Bytes) (c : E) : Type 0 where
    pub some_name : id ≢ []
    pub new : contains ids id ≡ false
    pub more : names c ≡ ids ++ (id ∷ [])
    pub has_registered : c.registered ≡ true
    pub named : (c.client_id ≡ client_id) ⊎ (c.client_id ≡ id)

  abbrev pub Turn : E → E → Type 0
  Turn c c' =
      IsQuiet (names c) c.client_id c.registered c'
      ⊎ (id : Bytes) × IsJoined (names c) c.client_id id c'

  authenticate_connect-IsQuiet :
      (username password : Bytes) (c : E)
      → IsQuiet
          (names c)
          c.client_id
          c.registered
          (authenticate_connect (env t capacity json) username password c).1
  unfolding authenticate_connect keep_user on_store on_server authenticate_user find_user
  authenticate_connect-IsQuiet username password c = record {
    same_names = ground arith;
    same_id = ground arith;
    same_registered = ground arith;
  }

  handle_connect_cases :
      (who : Credentials) (c : E)
      → let c' = (handle_connect (env t capacity json) who c).1 in
        ((names c' ≡ names c) × (c'.client_id ≡ c.client_id) × (c'.registered ≡ c.registered))
        ⊎ ((contains (names c) who.client_id ≡ false)
            × (names c' ≡ names c ++ (who.client_id ∷ []))
            × (c'.registered ≡ true)
            × ((c'.client_id ≡ c.client_id) ⊎ (c'.client_id ≡ who.client_id)))
  unfolding handle_connect answer_error on_conn on_store on_server add_client
  handle_connect_cases who c =
      let q = authenticate_connect-IsQuiet who.username who.password c in
      ground (arith, same_self client_set, q.same_names, q.same_id, q.same_registered)

  handle_connect-Turn :
      (who : Credentials) (c : E)
      → who.client_id ≢ []
      → Turn c (handle_connect (env t capacity json) who c).1
  handle_connect-Turn who c n = elim (handle_connect_cases who c) [
    | inl (old, id, r) ↦ inl (record { same_names = old; same_id = id; same_registered = r })
    | inr (new, more, r, named) ↦ inr (
      who.client_id,
      record { some_name = n; new = new; more = more; has_registered = r; named = named },
    )
  ]

  IsQuiet-self : (c : E) → IsQuiet (names c) c.client_id c.registered c
  IsQuiet-self c = record { same_names = refl; same_id = refl; same_registered = refl }

  read_connect-Turn : (hdr : Header) (c : E) → Turn c (read_connect (env t capacity json) hdr c).1
  unfolding read_connect on_conn
  read_connect-Turn hdr c =
      let call = on_conn (env t capacity json) (parse_connect t hdr) c in
      elim (Result-cases (parse_connect t hdr c.conn).0) [
        | inl (who, r) ↦
            rw r (handle_connect-Turn who call.1 (parse_connect-named t hdr c.conn who r))
        | inr (inl (x, r)) ↦ rw r (inl (IsQuiet-self call.1))
        | inr (inr (x, r)) ↦ rw r (inl (IsQuiet-self call.1))
      ]

  dispatch-IsQuiet :
      (hdr : Header) (c : E)
      → IsQuiet (names c) c.client_id c.registered (dispatch (env t capacity json) hdr c).1
  dispatch-IsQuiet hdr c =
      let e = env t capacity json in
      let same =
        (dispatch-IsSame e c hdr).at c
          (record { registered = refl; client_id = refl; user = refl; last_ping_time = refl }) in
      record {
        same_names =
            ((dispatch-InStore e (HasClients capacity json (names c)) AnyName
                (record {
                  queue = queue_message-HasClients capacity json (names c);
                  unqueue = λ id n u. unqueue-HasClients capacity json (names c) id n;
                  subscribe = λ id topic u. subscribe-HasClients capacity json (names c) id topic;
                  unsubscribe =
                      λ id topic u. unsubscribe-HasClients capacity json (names c) id topic;
                })
                hdr).at
              c (refl, tt)).0;
        same_id = same.client_id;
        same_registered = same.registered;
      }

  -- What `readPacket` does behind the header.
  after_header-Turn :
      (hdr : Header) (c : E)
      → Turn c
          ((if c.registered
              then dispatch (env t capacity json) hdr
              else if message_type hdr == MessageType.connect
              then read_connect (env t capacity json) hdr
              else raise Error.must_connect_first)
            c).1
  after_header-Turn hdr c = branch c.registered (message_type hdr == MessageType.connect)
    where
      branch :
          (r q : Bool)
          → Turn c
              ((if r
                  then dispatch (env t capacity json) hdr
                  else if q
                  then read_connect (env t capacity json) hdr
                  else raise Error.must_connect_first)
                c).1
      branch true q = inl (dispatch-IsQuiet hdr c)
      branch false true = read_connect-Turn hdr c
      branch false false = inl (IsQuiet-self c)

  -- A packet, whatever it is and however its handling ends.
  pub read_packet-Turn : (c : E) → Turn c (read_packet (env t capacity json) c).1
  unfolding read_packet on_conn
  read_packet-Turn c =
      let d = (on_conn (env t capacity json) (read_header t) c).1 in
      elim (Result-cases (read_header t c.conn).0) [
        | inl (hdr, r) ↦ rw r (after_header-Turn hdr d)
        | inr (inl (x, r)) ↦ rw r (inl (IsQuiet-self d))
        | inr (inr (x, r)) ↦ rw r (inl (IsQuiet-self d))
      ]

  -- `Close` takes the name of a registered client out of the set.
  pub names-close :
      (c : E) (d : Bytes)
      → contains (names (close (env t capacity json) c).1) d
        ≡ (contains (names c) d && not (c.registered && same c.client_id d))
  unfolding close on_store on_server
  names-close c d = ground (arith, clients-remove_client capacity json c.client_id c.server.db d)

  -- A CONNECT under a name of the set does not succeed.
  pub handle_connect_taken :
      (who : Credentials) (c : E)
      → contains (names c) who.client_id ≡ true
      → (handle_connect (env t capacity json) who c).0 ≢ ok tt
  unfolding handle_connect answer_error on_conn on_store on_server add_client
  handle_connect_taken who c taken = ground (
    arith,
    same_self client_set,
    (authenticate_connect-IsQuiet who.username who.password c).same_names,
  )
