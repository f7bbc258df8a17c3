-- ===== src/Service/Held.antt =====
-- The queues that the goroutines of `notifyClient` hold, on a memory store: pkg/mqtt/broker.go and pkg/store/memory_store.go.
use mathlib.Core.Path.{subst}
use yodi.Base.{◌⊎◌, inl, inr, Bool-cases, ℕ, ◌≡◌, Option, some, false, ◌==◌, arith, ap, ◌∙◌, refl}
use yodi.Json.{Json}
use yodi.Transport.{Transport}
use yodi.Store.Memory.{MemoryRef}
use yodi.Store.Memory.View.{queues, IsSound}
use yodi.Store.Memory.Held.{IsHeld, find_or_add-IsHeld}
use yodi.Store.Memory.Stale.{queue_of-IsHeld}
use yodi.Broker.Kinds.{broker_kind, at_notify}
use yodi.Broker.Held
use yodi.Mailman.OnMemory.{deliver_one-IsHeld}
use yodi.Client.{new_client}
use yodi.Client.Alike.{on_memory}
use yodi.Client.Database.{IsKept, read_packet-InStore, close-InStore}
use yodi.Service.{
  Service, Step, accept, packet, close_client, listen, notify, update, publish, mail, client_at,
  put, queue_for,
}

module _ (t : Transport) (json : Json) where
  abbrev M : Type 0
  M = Service (on_memory t json)

  pub IsKept-IsHeld : (q : MemoryRef) → IsKept (on_memory t json) (IsHeld q)
  IsKept-IsHeld q = record {
    login = Held.login-IsHeld json q json.unmarshal_user;
    add_client = Held.add_client-IsHeld json q;
    remove_client = Held.remove_client-IsHeld json q;
    handled = record {
      queue = Held.queue_message-IsHeld json q;
      unqueue = λ c id n. Held.unqueue-IsHeld json q c id;
      subscribe = λ c topic n. Held.subscribe-IsHeld json q c topic;
      unsubscribe = λ c topic n. Held.unsubscribe-IsHeld json q c topic;
    };
  }

  -- A step keeps a reference that is held.
  pub Step-IsHeld :
      {s u : M} (q : MemoryRef)
      → Step (on_memory t json) s u
      → IsHeld q s.server.db
      → IsHeld q u.server.db
  unfolding new_client
  Step-IsHeld q (accept i conn v) h = h
  Step-IsHeld {s} q (packet i r k) h =
      (read_packet-InStore (on_memory t json) (IsHeld q) (IsKept-IsHeld q)).at
        (client_at (on_memory t json) s i) h
  Step-IsHeld {s} q (close_client i r) h =
      (close-InStore (on_memory t json) (IsHeld q) (IsKept-IsHeld q)).at
        (client_at (on_memory t json) s i) h
  Step-IsHeld {s} q (listen i p o new r) h = (find_or_add-IsHeld q _ _ _).at s.server.db h
  Step-IsHeld {s} q (notify i p done takes_done o r) h =
      (Held.pop_from-IsHeld json q done takes_done p).at s.server.db h
  Step-IsHeld {s} q (update i m o) h =
      (Held.update-IsHeld json q (s.clients i).client_id m).at s.server.db h
  Step-IsHeld q (publish i m o) h = h
  Step-IsHeld {s} q (mail r) h = (deliver_one-IsHeld json q false false).at s.server h

  -- What each goroutine holds is a queue's, and its own.
  abbrev pub IsListening : M → Type 0
  IsListening s =
      (i : ℕ) (q : MemoryRef)
      → s.queues i ≡ some q
      → IsHeld q s.server.db × (broker_kind q.key ≡ queues)

  -- A step that leaves the references as they are keeps that.
  same_queues :
      (s u : M) → Step (on_memory t json) s u → u.queues ≡ s.queues → IsListening s → IsListening u
  same_queues s u step e l i q f =
      let (held, of) = l i q (rw e at f) in (Step-IsHeld q step held, of)

  put_cases :
      (i j : ℕ) (q p : MemoryRef) (f : ℕ → Option MemoryRef)
      → put i (some q) f j ≡ some p
      → (q ≡ p) ⊎ (f j ≡ some p)
  put_cases i j q p f e = elim (Bool-cases (i == j)) [
    | inl here ↦ inl (ground (arith, e, here))
    | inr other ↦ inr (ground (arith, e, other))
  ]

  pub Step-IsListening :
      {s u : M}
      → Step (on_memory t json) s u
      → IsSound broker_kind s.server.db
      → IsListening s
      → IsListening u
  Step-IsListening {s} (listen i q o new r) h l = λ j p e. elim (put_cases i j q p s.queues e) [
    | inl is_q ↦
        let (held, bears) =
          queue_of-IsHeld broker_kind s.server.db _ q h (at_notify (s.clients i).client_id) r in
        subst (λ x. IsHeld x (queue_for (on_memory t json) s i).1 × (broker_kind x.key ≡ queues))
          is_q (held, ap broker_kind bears ∙ at_notify (s.clients i).client_id)
    | inr old ↦ (Step-IsHeld {s = s} p (listen i q o new r) (l j p old).0, (l j p old).1)
  ]
  Step-IsListening {s} (accept i conn v) h l = same_queues s _ (accept i conn v) refl l
  Step-IsListening {s} (packet i r k) h l = same_queues s _ (packet i r k) refl l
  Step-IsListening {s} (close_client i r) h l = same_queues s _ (close_client i r) refl l
  Step-IsListening {s} (notify i q done takes_done o r) h l =
      same_queues s _ (notify i q done takes_done o r) refl l
  Step-IsListening {s} (update i m o) h l = same_queues s _ (update i m o) refl l
  Step-IsListening {s} (publish i m o) h l = same_queues s _ (publish i m o) refl l
  Step-IsListening {s} (mail r) h l = same_queues s _ (mail r) refl l
