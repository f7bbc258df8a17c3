-- ===== src/Web.antt =====
-- cmd/web/main.go: what the web server does with a connection to /mqtt, and who may see its other pages.
pub mod Access
pub mod Indices
use yodi.Base.{
  ◌==◌, ℕ, Bytes, List, [], ◌∷◌, codes, same, Bool, true, false, not, if◌then◌else◌, Option, none,
  some, Exec, Result, ok, err, halt, Error,
}
use yodi.Store.{Store}
use yodi.Json.{Json}
use yodi.Auth.{User, authenticate_user}
use yodi.Broker.{Server}
use yodi.WebSocket.{WebSocket, WebSocketConn, web_socket}
use yodi.Client.{Client, handle}

-- `errors.Is(err, mqtt.ErrBadCredentials)`
abbrev pub is_bad_credentials : Error → Bool
is_bad_credentials Error.bad_credentials = true
is_bad_credentials _ = false

-- What the `Validator` makes of the answer of `AuthenticateUser`.
pub check_login : Result User → Result Bool
check_login (ok user) = ok true
check_login (err e) = if is_bad_credentials e then ok false else err e
check_login (halt h) = halt h

-- `strings.HasPrefix(s, prefix)`
abbrev pub has_prefix : Bytes → Bytes → Bool
has_prefix s [] = true
has_prefix [] (x ∷ prefix) = false
has_prefix (y ∷ s) (x ∷ prefix) = if y == x then has_prefix s prefix else false

-- The `Skipper`, on the path of the URL.
pub skips_login : Bytes → Bool
skips_login path = not (has_prefix path (codes "/static"))

-- `mqtt.WebSocketProtocol`
abbrev pub web_socket_protocol : Bytes
web_socket_protocol = codes "mqtt"

module _ (st : Store) (json : Json) where
  pub validate : Bytes → Bytes → Exec st.State Bool
  unfolding check_login
  validate username password s =
      let call = authenticate_user st json.unmarshal_user username password s in
      (check_login call.0, call.1)

-- What `handleMQTT` calls of gorilla/websocket beside the socket itself: the upgrade of a request, the subprotocol that was agreed
-- on, and the end of the connection.
pub record Upgrader (ws : WebSocket) : Type 1 where
  pub Request : Type 0
  pub upgrade : Request → Result ws.Socket
  pub subprotocol : ws.Socket → Bytes
  pub close_socket : ws.Socket → ws.Socket

module _ (ws : WebSocket) (u : Upgrader ws) (st : Store) (json : Json)
    (rounds : ℕ → WebSocketConn ws → ℕ) where
  -- The socket after the deferred `Close`, if there was one, and the server.
  pub record Handled : Type 0 where
    pub closed : Option ws.Socket
    pub server : Server st

  pub served :
      Client (record { transport = web_socket ws rounds; store = st; json = json })
      → Result (Unit {0}) × Handled
  served c = (ok tt, record { closed = some (u.close_socket c.conn.socket); server = c.server })

  -- `handleMQTT` with the connection that was upgraded; the packets of its client are bounded by `fuel`.
  pub serve : ℕ → Result ws.Socket → Server st → Result (Unit {0}) × Handled
  unfolding served
  serve fuel (err e) server = (err e, record { closed = none; server = server })
  serve fuel (halt h) server = (halt h, record { closed = none; server = server })
  serve fuel (ok socket) server =
      if not (same (u.subprotocol socket) web_socket_protocol)
      then (
        err Error.bad_request,
        record { closed = some (u.close_socket socket); server = server },
      )
      else served (handle _ fuel (record { socket = socket; frame = false }) server)

  pub handle_mqtt : ℕ → u.Request → Server st → Result (Unit {0}) × Handled
  unfolding serve
  handle_mqtt fuel request server = serve fuel (u.upgrade request) server
