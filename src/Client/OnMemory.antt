-- ===== src/Client/OnMemory.antt =====
-- A client of the broker on a memory store: pkg/mqtt/client.go over pkg/store/memory_store.go. It follows
-- the same client on the contents of the store.
use yodi.Base.{ap, ◌∙◌, ℕ, err, halt, refl, ◌≡◌}
use yodi.Json.{Json}
use yodi.Transport.{Transport}
use yodi.Store.Memory.View.{IsSound}
use yodi.Store.Memory.Instance.{memory}
use yodi.Broker.{Server}
use yodi.Broker.Kinds.{broker_kind}
use yodi.Broker.OnMemory.{see_server}
use yodi.Client.{run, close, handle, new_client}
use yodi.Transport.{IsFinite}
use yodi.Base.{Error, Halt, inl, inr, ◌⊎◌, ◌<◌}
use yodi.Store.Memory.{buffer_size}
use yodi.Client.Ending.{run_ends}
use yodi.Client.Alike.{on_memory, on_contents, see_client, InClient, run-Alike, close-Alike}

module _ (t : Transport) (json : Json) where
  pub see-new_client :
      (conn : t.Conn) (server : Server memory)
      → see_client t json (new_client (on_memory t json) conn server)
        ≡ new_client (on_contents t json) conn (see_server server)
  unfolding new_client
  see-new_client conn server = refl

  pub new_client-InClient :
      (conn : t.Conn) (server : Server memory)
      → IsSound broker_kind server.db
      → InClient t json (new_client (on_memory t json) conn server)
  unfolding new_client
  new_client-InClient conn server h = h

  -- On a sound memory store a client is handled as on the contents of that store: it ends in the same
  -- state, and the store is left sound, with the contents that the other is left with.
  pub handle-Refines :
      (fuel : ℕ) (conn : t.Conn) (server : Server memory)
      → IsSound broker_kind server.db
      → (see_client t json (handle (on_memory t json) fuel conn server)
          ≡ handle (on_contents t json) fuel conn (see_server server))
        × IsSound broker_kind (handle (on_memory t json) fuel conn server).server.db
  unfolding handle new_client
  handle-Refines fuel conn server sound =
      let (answer, effect, kept) =
        (run-Alike t json fuel).at (new_client (on_memory t json) conn server) sound in
      let (answer', effect', kept') =
        (close-Alike t json).at
          (run (on_memory t json) fuel (new_client (on_memory t json) conn server)).1 kept in
      (effect' ∙ ap (λ c. (close (on_contents t json) c).1) effect, kept')

  -- A client over a sound memory store, on a connection that brings finitely many bytes, in as many rounds as
  -- there are bytes and one more: `Run` ends, with the error of a packet, or waits for room in a queue that is full.
  -- No type assertion of the store fails, nothing else panics, and it does not go on for ever.
  pub run_ends_on_memory :
      (f : IsFinite t) (fuel : ℕ) (conn : t.Conn) (server : Server memory)
      → IsSound broker_kind server.db
      → f.left conn < fuel
      → let call = run (on_memory t json) fuel (new_client (on_memory t json) conn server) in
        ((x : Error) × (call.0 ≡ err x)) ⊎ (call.0 ≡ halt Halt.blocks)
  unfolding new_client
  run_ends_on_memory f fuel conn server sound few =
      let (answer, _, _) =
        (run-Alike t json fuel).at (new_client (on_memory t json) conn server) sound in
      elim (run_ends t f buffer_size json fuel conn (see_server server) few) [
        | inl (x, e) ↦ inl (x, answer ∙ e)
        | inr e ↦ inr (answer ∙ e)
      ]
