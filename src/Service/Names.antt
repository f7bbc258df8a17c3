-- ===== src/Service/Names.antt =====
-- The names of the clients of a service, over the abstract store.
use yodi.Base.{
  ℕ, ◌≡◌, ◌≢◌, inl, inr, Bytes, [], contains, contains-append, same_iff, same_self, Result, ok, err,
  halt, Bool, true, false, refl, arith,
}
use yodi.Json.{Json}
use yodi.Transport.{Transport}
use yodi.Broker.{Server, client_set}
use yodi.Client.{Client, new_client, read_packet, close}
use yodi.Client.Leak.{env}
use yodi.Client.Names.{names, IsQuiet, IsJoined, names-close, read_packet-Turn}
use yodi.Client.Indices.{InOrder, read_packet-InOrder, close-InOrder}
use yodi.Broker.Clients.{pop_from-HasSets, update-HasSets}
use yodi.Mailman.Sets.{deliver_one-HasSets}
use yodi.Store.Contents.{contents}
use yodi.Service.{
  Step, accept, packet, close_client, listen, notify, update, publish, mail, Steps, here, next,
  start, phase_after, Service, Phase, running, vacant, closed, is_open, put_down, client_at,
}

module _ (t : Transport) (capacity : ℕ) (json : Json) where
  abbrev pub Sv : Type 0
  Sv = Service (env t capacity json)

  abbrev pub known : Sv → Bytes → Bool
  known s d = contains (s.server.db.elements client_set) d

  -- The connection `i` has a client that has not been closed.
  abbrev pub IsOpen : Sv → ℕ → Type 0
  IsOpen s i = is_open (s.phases i) ≡ true

  -- What holds between two steps.
  pub record IsOrderly (s : Sv) : Type 0 where
    pub in_order : InOrder t capacity json s.server.db
    pub unnamed :
        (i : ℕ) → IsOpen s i → (s.clients i).registered ≡ false → (s.clients i).client_id ≡ []
    pub listed :
        (i : ℕ) → IsOpen s i → (s.clients i).client_id ≢ [] → known s (s.clients i).client_id ≡ true
    pub apart :
        (i j : ℕ)
        → IsOpen s i
        → IsOpen s j
        → (s.clients i).client_id ≢ []
        → (s.clients i).client_id ≡ (s.clients j).client_id
        → i ≡ j

  module _ (s : Sv) (h : IsOrderly s) (i : ℕ) (c : Client (env t capacity json)) (phase : Phase)
      (in_order : InOrder t capacity json c.server.db) (there : IsOpen s i)
      (stays : is_open phase ≡ true) where
    quiet-IsOrderly :
        IsQuiet t capacity json
          (names t capacity json (client_at (env t capacity json) s i))
          (s.clients i).client_id
          (s.clients i).registered
          c
        → IsOrderly (put_down (env t capacity json) s i phase c)
    quiet-IsOrderly q = record {
      in_order = in_order;
      unnamed = λ j. ground (arith, q.same_id, q.same_registered, h.unnamed j);
      listed = λ j. ground (arith, q.same_id, q.same_names, h.listed j);
      apart = λ j k. ground (arith, q.same_id, h.apart j k);
    }

    joined-IsOrderly :
        (id : Bytes)
        → IsJoined t capacity json
            (names t capacity json (client_at (env t capacity json) s i))
            (s.clients i).client_id
            id
            c
        → IsOrderly (put_down (env t capacity json) s i phase c)
    joined-IsOrderly id q = record {
      in_order = in_order;
      unnamed = λ j. ground (arith, q.has_registered, h.unnamed j);
      listed = λ j. ground (
        arith,
        q.named,
        q.more,
        same_self id,
        contains-append (s.server.db.elements client_set) id (s.clients j).client_id,
        contains-append (s.server.db.elements client_set) id id,
        h.listed j,
      );
      apart = λ j k. ground (arith, q.named, q.new, h.apart j k, h.listed j, h.listed k);
    }

  -- A step that leaves the sets as they are, and the clients but for their connections.
  module _ (s u : Sv) (h : IsOrderly s) (sets : u.server.db.elements ≡ s.server.db.elements)
      (phases : u.phases ≡ s.phases)
      (ids : (i : ℕ) → (u.clients i).client_id ≡ (s.clients i).client_id)
      (registered : (i : ℕ) → (u.clients i).registered ≡ (s.clients i).registered) where
    aside-IsOrderly : IsOrderly u
    aside-IsOrderly = record {
      in_order = (
        record { agree = λ topic id. rw sets (h.in_order.0.agree topic id) },
        λ k. rw sets (h.in_order.1 k),
      );
      unnamed = λ j. ground (arith, phases, ids j, registered j, h.unnamed j);
      listed = λ j. ground (arith, phases, ids j, sets, h.listed j);
      apart = λ j k. ground (arith, phases, ids j, ids k, h.apart j k);
    }

  module _ (s : Sv) (h : IsOrderly s) (i : ℕ) where
    accept-IsOrderly :
        (conn : t.Conn)
        → s.phases i ≡ vacant
        → IsOrderly (
            put_down
              (env t capacity json)
              s
              i
              running
              (new_client (env t capacity json) conn s.server))
    unfolding new_client
    accept-IsOrderly conn v = record {
      in_order = h.in_order;
      unnamed = λ j. ground (arith, h.unnamed j);
      listed = λ j. ground (arith, h.listed j);
      apart = λ j k. ground (arith, h.apart j k);
    }

    abbrev closing : Client (env t capacity json)
    closing = (close (env t capacity json) (client_at (env t capacity json) s i)).1

    close-IsOrderly :
        IsOpen s i
        → InOrder t capacity json closing.server.db
        → IsOrderly (put_down (env t capacity json) s i closed closing)
    close-IsOrderly there in_order = record {
      in_order = in_order;
      unnamed = λ j. ground (arith, h.unnamed j);
      listed = λ j. ground (
        arith,
        names-close t capacity json (client_at (env t capacity json) s i) (s.clients j).client_id,
        same_iff (s.clients i).client_id (s.clients j).client_id,
        h.listed j,
        h.apart i j there,
      );
      apart = λ j k. ground (arith, h.apart j k);
    }

  -- Every step keeps it.
  Step-IsOrderly : {s u : Sv} → Step (env t capacity json) s u → IsOrderly s → IsOrderly u
  Step-IsOrderly {s} (accept i conn v) h = accept-IsOrderly s h i conn v
  Step-IsOrderly {s} (packet i r k) h =
      let e = env t capacity json in
      let c = client_at e s i in
      let call = read_packet e c in
      let in_order = read_packet-InOrder t capacity json c h.in_order in
      elim (read_packet-Turn t capacity json c) [
        | inl q ↦
            quiet-IsOrderly s h i call.1 (phase_after call.0) in_order (ground (arith, r))
              (opens call.0) q
        | inr (id, q) ↦
            joined-IsOrderly s h i call.1 (phase_after call.0) in_order (ground (arith, r))
              (opens call.0) id q
      ]
    where
      opens : (r : Result (Unit {0})) → is_open (phase_after r) ≡ true
      opens (ok u) = refl
      opens (err x) = refl
      opens (halt x) = refl
  Step-IsOrderly {s} (close_client i r) h =
      let e = env t capacity json in
      close-IsOrderly s h i (ground (arith, r))
        (close-InOrder t capacity json (client_at e s i) h.in_order)
  Step-IsOrderly {s} (listen i q o new r) h =
      aside-IsOrderly s _ h refl refl (λ j. refl) (λ j. refl)
  Step-IsOrderly {s} (notify i q done takes_done o r) h =
      aside-IsOrderly s _ h
        ((pop_from-HasSets capacity json s.server.db.elements done takes_done q).at s.server.db
          refl)
        refl (λ j. refl) (λ j. refl)
  Step-IsOrderly {s} (update i m o) h =
      aside-IsOrderly s _ h
        ((update-HasSets capacity json s.server.db.elements (s.clients i).client_id m).at
          s.server.db refl)
        refl (λ j. refl) (λ j. refl)
  Step-IsOrderly {s} (publish i m o) h =
      aside-IsOrderly s _ h refl refl (λ j. ground arith) (λ j. ground arith)
  Step-IsOrderly {s} (mail r) h =
      aside-IsOrderly s _ h
        ((deliver_one-HasSets capacity json s.server.db.elements false false).at s.server refl) refl
        (λ j. refl) (λ j. refl)

  pub Steps-IsOrderly : {s u : Sv} → Steps (env t capacity json) s u → IsOrderly s → IsOrderly u
  Steps-IsOrderly here h = h
  Steps-IsOrderly (next run step) h = Step-IsOrderly step (Steps-IsOrderly run h)

  -- A service that has just started over a store whose indices are in step.
  pub start-IsOrderly :
      (server : Server (contents capacity)) (clients : ℕ → Client (env t capacity json))
      → InOrder t capacity json server.db
      → IsOrderly (start (env t capacity json) server clients)
  start-IsOrderly server clients h = record {
    in_order = h;
    unnamed = λ i o. absurd cc;
    listed = λ i o. absurd cc;
    apart = λ i j o. absurd cc;
  }

  -- Over the abstract store, from no connections and contents in which the two subscription indices are in step and no set
  -- holds a value twice, whatever connections, packets, closings, message routines and rounds of the mailman follow, in
  -- any order: that still holds of the contents, the name of each open client that has one is in the set of clients, no two open
  -- clients bear one name, and a client that is not registered bears none.
  pub started-IsOrderly :
      (server : Server (contents capacity)) (clients : ℕ → Client (env t capacity json)) {u : Sv}
      → InOrder t capacity json server.db
      → Steps (env t capacity json) (start (env t capacity json) server clients) u
      → IsOrderly u
  started-IsOrderly server clients h run = Steps-IsOrderly run (start-IsOrderly server clients h)
