-- ===== src/Service/Locked.antt =====
-- A name that is left in the set of clients without a client.
use mathlib.Core.Path.{subst}
use yodi.Base.{
  ℕ, ◌≡◌, ◌≢◌, inl, inr, Bytes, [], contains-append, same_iff, same_self, true, false, refl, arith,
  ◌∙◌, ok,
}
use yodi.Json.{Json}
use yodi.Transport.{Transport}
use yodi.Broker.{client_set}
use yodi.Broker.Clients.{pop_from-HasSets, update-HasSets}
use yodi.Mailman.Sets.{deliver_one-HasSets}
use yodi.Client.{Client, new_client, handle_connect, close, read_packet}
use yodi.Client.Leak.{env}
use yodi.Client.Names.{
  names, IsQuiet, IsJoined, names-close, read_packet-Turn, handle_connect_taken,
}
use yodi.Service.{
  Step, accept, packet, close_client, listen, notify, update, publish, mail, Steps, here, next,
  phase_after, Phase, put_down, client_at, running, closed,
}
use yodi.Service.Names.{Sv, known, IsOpen, IsOrderly}

module _ (t : Transport) (capacity : ℕ) (json : Json) (d : Bytes) where
  -- The name is in the set, and no open client bears it.
  pub record IsLeaked (s : Sv t capacity json) : Type 0 where
    pub in_set : known t capacity json s d ≡ true
    pub unused : (i : ℕ) → IsOpen t capacity json s i → (s.clients i).client_id ≢ d

module _ (t : Transport) (capacity : ℕ) (json : Json) (d : Bytes) (some_name : d ≢ []) where
  abbrev IsLeft : Sv t capacity json → Type 0
  IsLeft = IsLeaked t capacity json d

  module _ (s : Sv t capacity json) (h : IsLeft s) (i : ℕ) (c : Client (env t capacity json))
      (phase : Phase) where
    quiet-IsLeaked :
        IsOpen t capacity json s i
        → IsQuiet t capacity json
            (names t capacity json (client_at (env t capacity json) s i))
            (s.clients i).client_id
            (s.clients i).registered
            c
        → IsLeft (put_down (env t capacity json) s i phase c)
    quiet-IsLeaked there q = record {
      in_set = ground (arith, q.same_names, h.in_set);
      unused = λ j. ground (arith, q.same_id, h.unused i there, h.unused j);
    }

    joined-IsLeaked :
        (id : Bytes)
        → IsOpen t capacity json s i
        → IsJoined t capacity json
            (names t capacity json (client_at (env t capacity json) s i))
            (s.clients i).client_id
            id
            c
        → IsLeft (put_down (env t capacity json) s i phase c)
    joined-IsLeaked id there q = record {
      in_set =
          ground (arith, q.more, h.in_set, contains-append (s.server.db.elements client_set) id d);
      unused = λ j. ground (arith, q.named, q.new, h.in_set, h.unused i there, h.unused j);
    }

  aside-IsLeaked :
      (s u : Sv t capacity json)
      → IsLeft s
      → u.server.db.elements ≡ s.server.db.elements
      → u.phases ≡ s.phases
      → ((i : ℕ) → (u.clients i).client_id ≡ (s.clients i).client_id)
      → IsLeft u
  aside-IsLeaked s u h sets phases ids = record {
    in_set = ground (arith, sets, h.in_set);
    unused = λ j. ground (arith, phases, ids j, h.unused j);
  }

  accept-IsLeaked :
      (s : Sv t capacity json) (i : ℕ) (conn : t.Conn)
      → IsLeft s
      → IsLeft (
          put_down
            (env t capacity json)
            s
            i
            running
            (new_client (env t capacity json) conn s.server))
  unfolding new_client
  accept-IsLeaked s i conn h = record {
    in_set = h.in_set;
    unused = λ j. ground (arith, some_name, h.unused j);
  }

  close-IsLeaked :
      (s : Sv t capacity json) (i : ℕ)
      → IsOpen t capacity json s i
      → IsLeft s
      → IsLeft (
          put_down
            (env t capacity json)
            s
            i
            closed
            (close (env t capacity json) (client_at (env t capacity json) s i)).1)
  close-IsLeaked s i there h = record {
    in_set = ground (
      arith,
      names-close t capacity json (client_at (env t capacity json) s i) d,
      same_iff (s.clients i).client_id d,
      h.unused i there,
      h.in_set,
    );
    unused = λ j. ground (arith, h.unused j);
  }

  Step-IsLeaked : {s u : Sv t capacity json} → Step (env t capacity json) s u → IsLeft s → IsLeft u
  Step-IsLeaked {s} (accept i conn v) h = accept-IsLeaked s i conn h
  Step-IsLeaked {s} (packet i r k) h =
      let e = env t capacity json in
      let call = read_packet e (client_at e s i) in
      elim (read_packet-Turn t capacity json (client_at e s i)) [
        | inl q ↦ quiet-IsLeaked s h i call.1 (phase_after call.0) (ground (arith, r)) q
        | inr (id, q) ↦ joined-IsLeaked s h i call.1 (phase_after call.0) id (ground (arith, r)) q
      ]
  Step-IsLeaked {s} (close_client i r) h = close-IsLeaked s i (ground (arith, r)) h
  Step-IsLeaked {s} (listen i q o new r) h = aside-IsLeaked s _ h refl refl (λ j. refl)
  Step-IsLeaked {s} (notify i q done takes_done o r) h =
      aside-IsLeaked s _ h
        ((pop_from-HasSets capacity json s.server.db.elements done takes_done q).at s.server.db
          refl)
        refl (λ j. refl)
  Step-IsLeaked {s} (update i m o) h =
      aside-IsLeaked s _ h
        ((update-HasSets capacity json s.server.db.elements (s.clients i).client_id m).at
          s.server.db refl)
        refl (λ j. refl)
  Step-IsLeaked {s} (publish i m o) h = aside-IsLeaked s _ h refl refl (λ j. ground arith)
  Step-IsLeaked {s} (mail r) h =
      aside-IsLeaked s _ h
        ((deliver_one-HasSets capacity json s.server.db.elements false false).at s.server refl) refl
        (λ j. refl)

  Steps-IsLeaked :
      {s u : Sv t capacity json} → Steps (env t capacity json) s u → IsLeft s → IsLeft u
  Steps-IsLeaked here h = h
  Steps-IsLeaked (next run step) h = Step-IsLeaked step (Steps-IsLeaked run h)

  locked_out :
      {s u : Sv t capacity json}
      → IsLeft s
      → Steps (env t capacity json) s u
      → (j : ℕ) (username password : Bytes)
      → (handle_connect
          (env t capacity json)
          (record { client_id = d; username = username; password = password })
          (client_at (env t capacity json) u j)).0
        ≢ ok tt
  locked_out h run j username password =
      handle_connect_taken t capacity json _ _ (Steps-IsLeaked run h).in_set

-- A client that was accepted and has no name leaves one in the set.
module _ (t : Transport) (capacity : ℕ) (json : Json) (s : Sv t capacity json)
    (h : IsOrderly t capacity json s) (i : ℕ) (c : Client (env t capacity json)) (phase : Phase)
    (d : Bytes) where
  joined-leaves :
      IsJoined t capacity json
        (names t capacity json (client_at (env t capacity json) s i))
        (s.clients i).client_id
        d
        c
      → c.client_id ≡ []
      → IsLeaked t capacity json d (put_down (env t capacity json) s i phase c)
  joined-leaves q none = record {
    in_set =
        ground (arith, q.more, same_self d, contains-append (s.server.db.elements client_set) d d);
    unused = λ j. ground (arith, none, q.some_name, q.new, h.listed j);
  }

module _ (t : Transport) (capacity : ℕ) (json : Json) where
  -- Over the abstract store, in a state in which the names of the clients are orderly, let a packet register a client without
  -- giving it a name, as a CONNECT does whose acknowledgement cannot be sent, and let `d` be a name that it added to the set of
  -- clients. Then `d` is not empty and is locked for ever: whatever steps follow, a CONNECT under `d` fails.
  pub unacknowledged_for_ever :
      {s u : Sv t capacity json} (i : ℕ) (d : Bytes)
      → IsOrderly t capacity json s
      → (s.clients i).registered ≡ false
      → let call = read_packet (env t capacity json) (client_at (env t capacity json) s i) in
        let after = put_down (env t capacity json) s i (phase_after call.0) call.1 in
        call.1.registered ≡ true
        → call.1.client_id ≡ []
        → known t capacity json s d ≡ false
        → known t capacity json after d ≡ true
        → Steps (env t capacity json) after u
        → (d ≢ [])
          × ((j : ℕ) (username password : Bytes)
              → (handle_connect
                  (env t capacity json)
                  (record { client_id = d; username = username; password = password })
                  (client_at (env t capacity json) u j)).0
                ≢ ok tt)
  unacknowledged_for_ever {s} i d h new r none fresh added run =
      let e = env t capacity json in
      let call = read_packet e (client_at e s i) in
      elim (read_packet-Turn t capacity json (client_at e s i)) [
        | inl q ↦ absurd (ground (arith, q.same_registered, new, r))
        | inr (id, q) ↦
            let is_d : id ≡ d = ground (
              arith,
              q.more,
              fresh,
              added,
              same_iff id d,
              contains-append (s.server.db.elements client_set) id d,
            ) in
            let named : d ≢ [] = λ none_left. q.some_name (is_d ∙ none_left) in
            let left =
              subst
                (λ x.
                  IsLeaked t capacity json x
                    (put_down (env t capacity json) s i (phase_after call.0) call.1))
                is_d (joined-leaves t capacity json s h i call.1 (phase_after call.0) id q none) in
            (named, locked_out t capacity json d named left run)
      ]
