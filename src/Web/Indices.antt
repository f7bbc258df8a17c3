-- ===== src/Web/Indices.antt =====
-- The connections of the web server, and the indices of the subscriptions.
use yodi.Client.{handle}
use yodi.Client.Leak.{env}
use yodi.Base.{Bool, if◌then◌else◌, some, Error, ℕ, Result, ok, err, halt, not, same, true, false}
use yodi.Json.{Json}
use yodi.Store.Contents.{contents}
use yodi.Broker.{Server}
use yodi.Broker.Subscriptions.{IsAgreed}
use yodi.WebSocket.{WebSocket, WebSocketConn, web_socket}
use yodi.Client.Indices.{handle-IsAgreed}
use yodi.Web.{Upgrader, serve, served, web_socket_protocol, handle_mqtt}

module _ (ws : WebSocket) (u : Upgrader ws) (capacity : ℕ) (json : Json)
    (rounds : ℕ → WebSocketConn ws → ℕ) where
  serve-IsAgreed :
      (fuel : ℕ) (r : Result ws.Socket) (server : Server (contents capacity))
      → IsAgreed server.db
      → IsAgreed (serve ws u (contents capacity) json rounds fuel r server).1.server.db
  unfolding serve served
  serve-IsAgreed fuel (err e) server h = h
  serve-IsAgreed fuel (halt x) server h = h
  serve-IsAgreed fuel (ok socket) server h =
      branch (not (same (u.subprotocol socket) web_socket_protocol))
    where
      branch :
          (b : Bool)
          → IsAgreed
              (if b
                then (
                  err Error.bad_request,
                  record { closed = some (u.close_socket socket); server = server },
                )
                else served ws u (contents capacity) json rounds (
                    handle
                      (env (web_socket ws rounds) capacity json)
                      fuel
                      (record { socket = socket; frame = false })
                      server)).1.server.db
      branch true = h
      branch false =
          handle-IsAgreed (web_socket ws rounds) capacity json fuel
            (record { socket = socket; frame = false }) server h

  -- Whatever comes over a connection to /mqtt, and whether or not it becomes one of MQTT, indices that were in step are in step after it.
  pub handle_mqtt-IsAgreed :
      (fuel : ℕ) (request : u.Request) (server : Server (contents capacity))
      → IsAgreed server.db
      → IsAgreed (handle_mqtt ws u (contents capacity) json rounds fuel request server).1.server.db
  unfolding handle_mqtt
  handle_mqtt-IsAgreed fuel request server h = serve-IsAgreed fuel (u.upgrade request) server h
