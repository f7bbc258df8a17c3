-- ===== src/Service/OnMemory.antt =====
-- A service on a memory store follows one on the contents of the store: pkg/store/memory_store.go under
-- the broker, its clients and the mailman.
use mathlib.Core.Path.{subst}
use yodi.Base.{ℕ, ◌≡◌, sym, ◌∙◌, ◌==◌, Bool, true, false, if◌then◌else◌, refl, Result, ok}
use yodi.Json.{Json}
use yodi.Transport.{Transport}
use yodi.Store.Memory.View.{IsSound}
use yodi.Store.Memory.Instance.{memory}
use yodi.Base.{Bytes, Option, none, some, ap, ◌⊎◌, inl, inr}
use yodi.Store.Contents
use yodi.Store.Contents.{Contents}
use yodi.Store.Memory.{buffer_size, MemoryStore, MemoryRef}
use yodi.Store.Memory.View.{queues}
use yodi.Store.Memory.Refines.{view}
use yodi.Store.Memory.Stale.{queue_of-seen, queue_of-IsHeld, current_or_stale}
use yodi.Broker.Held.{pop_from_current, pop_from-IsUnseen}
use yodi.Service.Held.{IsListening, Step-IsListening}
use yodi.Base.Assoc.{lookup}
use yodi.Broker.{Server, client_message_notification}
use yodi.Broker.Kinds.{broker_kind, at_notify}
use yodi.Client.Indices.{InOrder}
use yodi.Broker.OnMemory.{see_server, update-InStep}
use yodi.Client.{Client, new_client, close, read_packet}
use yodi.Client.Alike.{on_memory, on_contents, see_client, read_packet-Alike, close-Alike}
use yodi.Client.OnMemory.{see-new_client, new_client-InClient}
use yodi.Mailman.OnMemory.{deliver_one-Serving}
use yodi.Service.{
  Step, accept, packet, close_client, listen, notify, update, publish, mail, Steps, here, next,
  start, phase_after, Service, Phase, closed, put, put_down, client_at, put_db, send, IsReturned,
  pop_of,
}
use yodi.Service.Names.{IsOrderly, start-IsOrderly, Steps-IsOrderly}

module _ {A B : Type 0} (g : A → B) where
  map-if : (b : Bool) (x y : A) → g (if b then x else y) ≡ (if b then g x else g y)
  map-if true x y = refl
  map-if false x y = refl

  map-put : (i : ℕ) (x : A) (f : ℕ → A) → (λ j. g (put i x f j)) ≡ put i (g x) (λ j. g (f j))
  map-put i x f = λ k j. map-if (i == j) x (f j) k

returned : {A : Type 0} (r r' : Result A) → r ≡ r' → IsReturned r → IsReturned r'
returned r r' e k h p = k h (e ∙ p)

module _ (t : Transport) (json : Json) where
  abbrev M : Type 0
  M = Service (on_memory t json)

  -- A reference, with its key in place of its object.
  abbrev see_ref : Option MemoryRef → Option Contents.Ref
  see_ref none = none
  see_ref (some q) = some (Contents.queue_ref q.key)

  abbrev pub see_service : M → Service (on_contents t json)
  see_service s = record {
    server = see_server s.server;
    clients = λ i. see_client t json (s.clients i);
    phases = s.phases;
    queues = λ i. see_ref (s.queues i);
  }

  abbrev InService : M → Type 0
  InService s = IsSound broker_kind s.server.db

  see-put_down :
      (s : M) (i : ℕ) (call : Result (Unit {0}) × Client (on_memory t json))
      (call' : Result (Unit {0}) × Client (on_contents t json)) (f : Result (Unit {0}) → Phase)
      → call.0 ≡ call'.0
      → see_client t json call.1 ≡ call'.1
      → see_service (put_down (on_memory t json) s i (f call.0) call.1)
        ≡ put_down (on_contents t json) (see_service s) i (f call'.0) call'.1
  see-put_down s i call call' f e p =
      let c = see_client t json call.1 in
      (λ k. record {
        server = c.server;
        clients = map-put (see_client t json) i call.1 s.clients k;
        phases = put i (f call.0) s.phases;
        queues = λ j. see_ref (s.queues j);
      })
      ∙ (λ k. put_down (on_contents t json) (see_service s) i (f (e k)) (p k))

  -- The step is one on the contents of the store, or nothing is seen of it, and it leaves the store sound.
  abbrev Seen : M → M → Type 0
  Seen s u =
      (Step (on_contents t json) (see_service s) (see_service u) ⊎ (see_service u ≡ see_service s))
      × InService u

  shown :
      (s u : M) (v : Service (on_contents t json))
      → Step (on_contents t json) (see_service s) v
      → see_service u ≡ v
      → InService u
      → Seen s u
  shown s u v step e kept =
      (inl (subst (Step (on_contents t json) (see_service s)) (sym e) step), kept)

  -- A step that changes the store alone.
  see_db :
      (s : M) (db : MemoryStore) (db' : Contents)
      → view broker_kind db ≡ db'
      → see_service (put_db (on_memory t json) s db)
        ≡ put_db (on_contents t json) (see_service s) db'
  see_db s db db' e = ap (put_db (on_contents t json) (see_service s)) e

  see-listen :
      (s : M) (i : ℕ) (q : MemoryRef) (db : MemoryStore) (k : Bytes)
      → view broker_kind db ≡ view broker_kind s.server.db
      → q.key ≡ k
      → see_service (record (put_db (on_memory t json) s db) { queues = put i (some q) s.queues })
        ≡ record (see_service s) {
          queues = put i (some (Contents.queue_ref k)) (see_service s).queues;
        }
  see-listen s i q db k e bears =
      (λ x. record (see_service (put_db (on_memory t json) s db)) {
        queues = map-put see_ref i (some q) s.queues x;
      })
      ∙ (λ x. record (see_service s) {
        server = record (see_server s.server) { db = e x };
        queues = put i (some (Contents.queue_ref (bears x))) (see_service s).queues;
      })

  notify_current :
      (s : M) (i : ℕ) (q : MemoryRef) (done takes_done : Bool)
      → s.queues i ≡ some q
      → IsReturned (pop_of (on_memory t json) s q done takes_done).0
      → InService s
      → broker_kind q.key ≡ queues
      → lookup q.key s.server.db.items ≡ some q.address
      → Seen s (put_db (on_memory t json) s (pop_of (on_memory t json) s q done takes_done).1)
  notify_current s i q done takes_done o r h of at =
      let (answer, effect, kept) = pop_from_current json q done takes_done s.server.db h of at in
      shown s _ _
        (notify i (Contents.queue_ref q.key) done takes_done (ap see_ref o) (returned _ _ answer r))
        (see_db s _ _ effect) kept

  Step-Seen :
      {s u : M} → Step (on_memory t json) s u → InService s → IsListening t json s → Seen s u
  Step-Seen {s} (packet i r k) h l =
      let (answer, effect, kept) =
        (read_packet-Alike t json).at (client_at (on_memory t json) s i) h in
      let call = read_packet (on_memory t json) (client_at (on_memory t json) s i) in
      let call' =
        read_packet (on_contents t json) (client_at (on_contents t json) (see_service s) i) in
      shown s _ _ (packet i r (returned _ _ answer k))
        (see-put_down s i call call' phase_after answer effect) kept
  Step-Seen {s} (accept i conn v) h l =
      shown s _ _ (accept i conn v)
        (see-put_down s i (ok tt, new_client (on_memory t json) conn s.server)
          (ok tt, new_client (on_contents t json) conn (see_server s.server)) phase_after refl
          (see-new_client t json conn s.server))
        (new_client-InClient t json conn s.server h)
  Step-Seen {s} (close_client i r) h l =
      let (answer, effect, kept) = (close-Alike t json).at (client_at (on_memory t json) s i) h in
      let call = close (on_memory t json) (client_at (on_memory t json) s i) in
      let call' = close (on_contents t json) (client_at (on_contents t json) (see_service s) i) in
      shown s _ _ (close_client i r) (see-put_down s i call call' (λ x. closed) answer effect) kept
  Step-Seen {s} (listen i q o new r) h l =
      let k = client_message_notification (s.clients i).client_id in
      let at = at_notify (s.clients i).client_id in
      let (seen, kept) = queue_of-seen broker_kind s.server.db k h at in
      let (held, bears) = queue_of-IsHeld broker_kind s.server.db k q h at r in
      shown s _ _ (listen i (Contents.queue_ref k) o (ap see_ref new) refl)
        (see-listen s i q (memory.queue_of k s.server.db).1 k seen bears) kept
  Step-Seen {s} (notify i q done takes_done o r) h l =
      let (held, of) = l i q o in
      elim (current_or_stale broker_kind q s.server.db h held) [
        | inl at ↦ notify_current s i q done takes_done o r h of at
        | inr unseen ↦
            let left = (pop_from-IsUnseen json q done takes_done _).at s.server.db unseen in
            (inr (see_db s _ _ left.seen), left.sound)
      ]
  Step-Seen {s} (update i m o) h l =
      let (answer, effect, kept) =
        (update-InStep json (s.clients i).client_id m).at s.server.db h in
      shown s _ _ (update i m o) (see_db s _ _ effect) kept
  Step-Seen {s} (publish i m o) h l =
      shown s _ _ (publish i m o)
        (ap (λ cs. record (see_service s) { clients = cs })
          (map-put (see_client t json) i (send (on_memory t json) m (s.clients i)).1 s.clients))
        h
  Step-Seen {s} (mail r) h l =
      let (answer, effect, kept) = (deliver_one-Serving json false false).at s.server h in
      shown s _ _ (mail (returned _ _ answer r))
        (ap (λ v. record (see_service s) { server = v }) effect) kept

  after_step :
      (s u v : M)
      → Steps (on_contents t json) (see_service s) (see_service u)
      → Step (on_contents t json) (see_service u) (see_service v) ⊎ (see_service v ≡ see_service u)
      → Steps (on_contents t json) (see_service s) (see_service v)
  after_step s u v run (inl step) = next run step
  after_step s u v run (inr e) = subst (Steps (on_contents t json) (see_service s)) (sym e) run

  Steps-Seen :
      {s u : M}
      → Steps (on_memory t json) s u
      → InService s
      → IsListening t json s
      → Steps (on_contents t json) (see_service s) (see_service u)
        × InService u
        × IsListening t json u
  Steps-Seen here h l = (here, h, l)
  Steps-Seen {s} (next {u} {v} run step) h l =
      let (run', sound, listening) = Steps-Seen run h l in
      let (step', sound') = Step-Seen step sound listening in
      (after_step s u v run' step', sound', Step-IsListening t json step sound listening)

  -- From a sound memory store and no connections, whatever steps follow: the service that has the contents of the store
  -- in place of the store comes by some steps of its own to the state that is seen of this one, and the store is sound.
  -- A notifying routine holds the queue that it found at its start: what it takes from that queue after the key was destroyed
  -- is not seen.
  pub Steps-Refines :
      (server : Server memory) (clients : ℕ → Client (on_memory t json)) {u : M}
      → IsSound broker_kind server.db
      → Steps (on_memory t json) (start (on_memory t json) server clients) u
      → Steps
          (on_contents t json)
          (start (on_contents t json) (see_server server) (λ i. see_client t json (clients i)))
          (see_service u)
        × IsSound broker_kind u.server.db
  Steps-Refines server clients sound run =
      let (run', sound', _) = Steps-Seen run sound (λ i q e. absurd cc) in (run', sound')

  -- From a sound memory store whose contents are in order and no connections, whatever steps follow: the contents
  -- of the store are in order, and no two open clients bear one name.
  pub memory-IsOrderly :
      (server : Server memory) (clients : ℕ → Client (on_memory t json)) {u : M}
      → IsSound broker_kind server.db
      → InOrder t buffer_size json (see_server server).db
      → Steps (on_memory t json) (start (on_memory t json) server clients) u
      → IsOrderly t buffer_size json (see_service u)
  memory-IsOrderly server clients sound agreed run =
      Steps-IsOrderly t buffer_size json (Steps-Refines server clients sound run).0 (
        start-IsOrderly t buffer_size json (see_server server) (λ i. see_client t json (clients i))
          agreed)
