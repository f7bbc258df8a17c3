-- ===== src/Client/Ending.antt =====
-- How `Run` ends, on a connection that brings finitely many bytes.
use yodi.Base.{
  modify, Bytes, ℕ, zero, suc, ◌≡◌, ◌≢◌, ◌≤◌, ◌<◌, ◌⊎◌, inl, inr, true, Bool-cases, Exec, Result,
  ok, err, halt, Halt, Error, arith, length, raise, ◌==◌, if◌then◌else◌, Result-cases,
}
use yodi.Base.Steady.{Steady, Steady-stop, steady_rules}
use yodi.Json.{Json}
use yodi.Transport.{Transport, IsFinite}
use yodi.Store.Contents.{contents}
use yodi.Wire.Header.{Header, message_type}
use yodi.Wire.Header.MessageType
use yodi.Packet.{read_header}
use yodi.Wire.Length.{decode_remaining_length}
use yodi.Packet.Steady.{decode_loop-Steady, parse_connect-Steady, write_connect_ack-Steady}
use yodi.Broker
use yodi.Broker.{Server}
use yodi.Broker.Halts.{
  login-ne-halt, add_client-ne-halt, queue_message-ne-halt, unqueue-ne-halt, subscribe-ne-halt,
  unsubscribe-ne-halt,
}
use yodi.Client.{
  Env, Client, new_client, on_conn, on_store, on_server, authenticate_connect, keep_user,
  answer_error, or_answer, handle_connect, read_connect, dispatch, read_packet, run,
}
use yodi.Client.Steady.{Returns, dispatch-Steady}
use yodi.Client.Session.{IsSession, new_client-IsSession, read_packet-IsSession}
use yodi.Client.Leak.{env}

module _ (t : Transport) (f : IsFinite t) where
  open t use {Conn, read, write}
  open f use {left}

  abbrev AtMost : ℕ → Conn → Type 0
  AtMost k c = left c ≤ k

  module _ (k : ℕ) (h : Halt) where
    reads : (n : ℕ) → Steady (AtMost k) h (read n)
    reads n = record { at = λ c p. (f.read_returns n c h, omega (arith, f.read_le n c)) }

    writes : (p : Bytes) → Steady (AtMost k) h (write p)
    writes p = record { at = λ c q. (f.write_returns p c h, omega (arith, f.write_le p c)) }

  progress : (n : ℕ) (c : Conn) (bs : Bytes) → (read (suc n) c).0 ≡ ok bs → 0 < length bs
  progress n c bs e = (f.read_some n c bs e).0

  -- A header that is read has taken at least one byte.
  read_header_takes :
      (h : Halt) (c : Conn)
      → ((read_header t c).0 ≢ halt h)
        × (left (read_header t c).1 ≤ left c)
        × ((hdr : Header) → (read_header t c).0 ≡ ok hdr → left (read_header t c).1 < left c)
  unfolding read_header decode_remaining_length
  read_header_takes h c = elim (Result-cases (read 1 c).0) [
    | inl (flags, e) ↦
        let d = (read 1 c).1 in
        let less = (f.read_some 0 c flags e).1 in
        let rest =
          (decode_loop-Steady t (AtMost (left d)) h (reads (left d) h) progress (writes (left d) h)
              4 1 0 0).at
            d (omega arith) in
        ground (arith, less, rest)
    | inr (inl (x, e)) ↦ ground (arith, f.read_le 1 c)
    | inr (inr (x, e)) ↦ ground (arith, f.read_le 1 c, f.read_returns 1 c h)
  ]

  module _ (capacity : ℕ) (json : Json) where
    abbrev e : Env
    e = env t capacity json

    returns : (h : Halt) → h ≢ Halt.blocks → Returns e h
    returns h n = record {
      queue =
          λ topic message id qos s. queue_message-ne-halt capacity json s h topic message id qos n;
      unqueue = λ c id s. unqueue-ne-halt capacity json s h c id;
      subscribe = λ c topic s. subscribe-ne-halt capacity json s h c topic;
      unsubscribe = λ c topic s. unsubscribe-ne-halt capacity json s h c topic;
    }

    -- CONNECT, whose handler may set the user to nil.
    module _ (k : ℕ) (h : Halt) where
      abbrev InConn : Client e → Type 0
      InConn c = AtMost k c.conn

      conn-InConn :
          {A : Type 0} (m : Exec Conn A) → Steady (AtMost k) h m → Steady InConn h (on_conn e m)
      unfolding on_conn
      conn-InConn m s = record { at = λ d p. s.at d.conn p }

      answer_error-InConn :
          (code : ℕ) (r : Result (Unit {0})) → r ≢ halt h → Steady InConn h (answer_error e code r)
      unfolding answer_error
      answer_error-InConn code (ok u) n = search steady_rules
      answer_error-InConn code (err x) n = search (
        steady_rules,
        conn-InConn,
        write_connect_ack-Steady t (AtMost k) h (reads k h) progress (writes k h),
      )
      answer_error-InConn code (halt x) n = Steady-stop x (λ q. n (cc))

      or_answer-InConn :
          (code : ℕ) (m : Exec (Client e) (Unit {0}))
          → Steady InConn h m
          → Steady InConn h (or_answer e code m)
      or_answer-InConn code m s = record {
        at = λ d p. (answer_error-InConn code (m d).0 (s.at d p).0).at (m d).1 (s.at d p).1;
      }

      authenticate_connect-InConn :
          (username password : Bytes) → Steady InConn h (authenticate_connect e username password)
      unfolding authenticate_connect keep_user on_store on_server
      authenticate_connect-InConn username password = record {
        at = λ d p. ground (arith, login-ne-halt capacity json d.server.db h username password);
      }

      add_client-InConn :
          (id : Bytes)
          → Steady InConn h (on_store e (Broker.add_client (contents capacity) json id))
      unfolding on_store on_server
      add_client-InConn id = record {
        at = λ d p. (add_client-ne-halt capacity json d.server.db h id, p);
      }

      registered-InConn :
          Steady InConn h (modify (λ (d : Client e). record d { registered = true }))
      registered-InConn = record { at = λ d p. (λ q. cc, p) }

      named-InConn :
          (id : Bytes) → Steady InConn h (modify (λ (d : Client e). record d { client_id = id }))
      named-InConn id = record { at = λ d p. (λ q. cc, p) }

      read_connect-InConn : (hdr : Header) → Steady InConn h (read_connect e hdr)
      unfolding read_connect handle_connect
      read_connect-InConn hdr =
          search
            (
              steady_rules,
              conn-InConn,
              or_answer-InConn,
              authenticate_connect-InConn,
              add_client-InConn,
              registered-InConn,
              named-InConn,
              write_connect_ack-Steady t (AtMost k) h (reads k h) progress (writes k h),
              parse_connect-Steady t (AtMost k) h (reads k h) progress (writes k h),
            )
            depth 12

    after_header_takes :
        (h : Halt) (hdr : Header) (c : Client e)
        → h ≢ Halt.blocks
        → IsSession c
        → let call =
            (if c.registered
                then dispatch e hdr
                else if message_type hdr == MessageType.connect
                then read_connect e hdr
                else raise Error.must_connect_first)
              c in
          (call.0 ≢ halt h) × (left call.1.conn ≤ left c.conn)
    after_header_takes h hdr c n s = elim (Bool-cases c.registered) [
      | inl r ↦
          let k = left c.conn in
          let done =
            (dispatch-Steady e (AtMost k) h (reads k h) progress (writes k h) (returns h n) hdr).at
              c (record { conn = omega arith; user = s.has_user r }) in
          ground (arith, done.0, done.1.conn)
      | inr r ↦ elim (Bool-cases (message_type hdr == MessageType.connect)) [
        | inl q ↦ ground (arith, (read_connect-InConn (left c.conn) h hdr).at c (omega arith))
        | inr q ↦ ground arith
      ]
    ]

    read_packet_takes :
        (h : Halt) (c : Client e)
        → h ≢ Halt.blocks
        → IsSession c
        → ((read_packet e c).0 ≢ halt h)
          × ((read_packet e c).0 ≡ ok tt → left (read_packet e c).1.conn < left c.conn)
    unfolding read_packet on_conn
    read_packet_takes h c n s =
        let header = read_header_takes h c.conn in
        let d : Client e = record c { conn = (read_header t c.conn).1 } in
        let sd : IsSession d = record { has_user = s.has_user; no_ping = s.no_ping } in
        elim (Result-cases (read_header t c.conn).0) [
          | inl (hdr, q) ↦
              let rest = after_header_takes h hdr d n sd in
              rw q (rest.0, λ z. omega (arith, rest.1, header.2 hdr q))
          | inr (inl (x, q)) ↦ rw q (λ z. cc, λ z. absurd (cc))
          | inr (inr (x, q)) ↦ ground (arith, header.0)
        ]

    run-ne-halt :
        (h : Halt) (fuel : ℕ) (c : Client e)
        → h ≢ Halt.blocks
        → IsSession c
        → left c.conn < fuel
        → (run e fuel c).0 ≢ halt h
    unfolding run
    run-ne-halt h zero c n s l = absurd (omega arith)
    run-ne-halt h (suc fuel) c n s l =
        let takes = read_packet_takes h c n s in
        elim (Result-cases (read_packet e c).0) [
          | inl (u, q) ↦ rw q (
              run-ne-halt h fuel (read_packet e c).1 n (read_packet-IsSession e c s)
                (omega (arith, takes.1 q)))
          | inr (inl (x, q)) ↦ rw q (λ z. cc)
          | inr (inr (x, q)) ↦ ground (arith, takes.0)
        ]

    run-ne-ok : (fuel : ℕ) (c : Client e) → (run e fuel c).0 ≢ ok tt
    unfolding run
    run-ne-ok zero c = λ z. cc
    run-ne-ok (suc fuel) c = elim (Result-cases (read_packet e c).0) [
      | inl (u, q) ↦ rw q (run-ne-ok fuel (read_packet e c).1)
      | inr (inl (x, q)) ↦ rw q (λ z. cc)
      | inr (inr (x, q)) ↦ rw q (λ z. cc)
    ]

    -- A client over the abstract store, on a connection that brings finitely many bytes, in as many rounds
    -- as there are bytes and one more: `Run` ends, with the error of a packet, or waits for room in a
    -- queue that is full. It never panics, it does not go on for ever, and it never returns nil.
    pub run_ends :
        (fuel : ℕ) (conn : Conn) (server : Server (contents capacity))
        → left conn < fuel
        → let call = run e fuel (new_client e conn server) in
          ((x : Error) × (call.0 ≡ err x)) ⊎ (call.0 ≡ halt Halt.blocks)
    unfolding new_client
    run_ends fuel conn server l =
        let c = new_client e conn server in
        let s = new_client-IsSession e conn server in
        elim (Result-cases (run e fuel c).0) [
          | inl (u, q) ↦ absurd (run-ne-ok fuel c q)
          | inr (inl failed) ↦ inl failed
          | inr (inr (x, q)) ↦ inr (
              only_blocks x q (run-ne-halt Halt.panics fuel c (λ z. cc) s l)
                (run-ne-halt Halt.out_of_fuel fuel c (λ z. cc) s l))
        ]
      where
        only_blocks :
            {r : Result (Unit {0})} (x : Halt)
            → r ≡ halt x
            → r ≢ halt Halt.panics
            → r ≢ halt Halt.out_of_fuel
            → r ≡ halt Halt.blocks
        only_blocks Halt.blocks q a b = q
        only_blocks Halt.panics q a b = absurd (a q)
        only_blocks Halt.out_of_fuel q a b = absurd (b q)
