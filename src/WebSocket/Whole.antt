-- ===== src/WebSocket/Whole.antt =====
-- A WebSocket carries an unbroken stream of bytes, whatever its messages are cut into.
use yodi.Base.{
  Exec, ℕ, zero, suc, ◌+◌, ◌-◌, ◌≤◌, ◌<◌, ◌≡◌, ◌⊎◌, inl, inr, Bytes, [], ◌++◌, length, take, drop,
  length-append, Bool, true, false, if◌then◌else◌, continue, pure, Result, ok, err, halt, Error,
  refl, arith, List-cases, ◌∙◌, ap, sym, ◌>>=◌,
}
use mathlib.Core.Path.{subst}
use yodi.Transport.{Transport, IsWhole}
use yodi.WebSocket.{
  WebSocket, WebSocketConn, binary_message, check_type, open_frame, read_chunk, read_loop, write,
  web_socket,
}
use yodi.WebSocket.Frames.{
  concat, IsFramed, take-append_le, drop-append_le, append-nil_right, the_rest,
}
use yodi.WebSocket.Rounds.{pending, frames, IsRound, reading, between, round, opens}

module _ (ws : WebSocket) (l : IsFramed ws) where
  open l use {current, waiting, sent}

  -- What follows a chunk.
  abbrev after_chunk : ℕ → ℕ → Bytes → Exec (WebSocketConn ws) Bytes
  after_chunk fuel n b = read_loop ws fuel (suc n - length b) >>= λ rest. pure (b ++ rest)

  -- A round of the loop, with the reader that it opens.
  data Round (fuel n : ℕ) (c : WebSocketConn ws) : Type 0 where
    round_by :
        (r : ws.Socket) (chunk : Bytes) (d : WebSocketConn ws)
        → (pending ws l (reading ws l r) ≡ pending ws l c)
          × (frames ws l (reading ws l r) ≡ frames ws l c)
          × (sent r ≡ sent c.socket)
        → IsRound ws l n (reading ws l r) chunk d
        → read_loop ws (suc fuel) (suc n) c
          ≡ (read_loop ws fuel (suc n - length chunk) >>= (λ rest s. (ok (chunk ++ rest), s))) d
        → Round fuel n c

  next-Round : (fuel n : ℕ) (c : WebSocketConn ws) → 0 < frames ws l c → Round fuel n c
  unfolding read_loop
  next-Round fuel n c h =
      let (r, opened, p, f, same) = opens ws l c.socket c.frame h in
      let (chunk, d, rd) = round ws l n r in
      round_by r chunk d (p, f, same) rd
        (ap (λ o. continue o.0 (λ _. read_chunk ws (suc n) >>= after_chunk fuel n) o.1) opened
          ∙ ap (λ o. continue o.0 (after_chunk fuel n) o.1) rd.returned)

  -- The call returned the first `n` bytes that are to come, and no others are gone.
  Takes : ℕ → WebSocketConn ws → Result Bytes × WebSocketConn ws → Type 0
  Takes n c call =
      (call.0 ≡ ok (take n (pending ws l c)))
      × (pending ws l call.1 ≡ drop n (pending ws l c))
      × (sent call.1.socket ≡ sent c.socket)

  after_round :
      (n : ℕ) (c d : WebSocketConn ws) (chunk : Bytes) (call : Result Bytes × WebSocketConn ws)
      → (pending ws l c ≡ chunk ++ pending ws l d)
        × (length chunk ≤ n)
        × (sent d.socket ≡ sent c.socket)
      → Takes (n - length chunk) d call
      → Takes n c (continue call.0 (λ rest. pure (chunk ++ rest)) call.1)
  unfolding Takes
  after_round n c d chunk (ok rest, e) (split, fits, same) (r, at, s) = (
    ground (arith, split, r, take-append_le n chunk (pending ws l d) fits),
    ground (arith, split, at, drop-append_le n chunk (pending ws l d) fits),
    s ∙ same,
  )
  after_round n c d chunk (err x, e) h (r, at, s) = absurd (ground (arith, r))
  after_round n c d chunk (halt x, e) h (r, at, s) = absurd (ground (arith, r))

  some_frames :
      (s : ws.Socket) (frame : Bool)
      → 0 < length (pending ws l (record { socket = s; frame = frame }))
      → 0 < frames ws l (record { socket = s; frame = frame })
  some_frames s true h = ground arith
  some_frames s false h = elim (List-cases (waiting s)) [
    | inl e ↦ absurd (ground (arith, e))
    | inr (f, fs, e) ↦ ground (arith, e)
  ]

  read_loop-Takes :
      (fuel n : ℕ) (c : WebSocketConn ws)
      → n + frames ws l c ≤ fuel
      → n ≤ length (pending ws l c)
      → Takes n c (read_loop ws fuel n c)
  unfolding read_loop Takes
  read_loop-Takes fuel zero c en le = (refl, refl, refl)
  read_loop-Takes zero (suc n) c en le = absurd (ground arith)
  read_loop-Takes (suc fuel) (suc n) c en le =
      elim (next-Round fuel n c (some_frames c.socket c.frame (ground arith))) [
        | round_by r chunk d (p, f, same) rd step ↦ subst (Takes (suc n) c) (sym step) (
            after_round (suc n) c d chunk (read_loop ws fuel (suc n - length chunk) d)
              (sym p ∙ rd.split, rd.fits, rd.sends ∙ same)
              (read_loop-Takes fuel (suc n - length chunk) d (ground (arith, rd.moves, f, en))
                (ground (arith, rd.split, p, le, length-append chunk (pending ws l d)))))
      ]

  some_or_none :
      (s : ws.Socket) (frame : Bool)
      → pending ws l (record { socket = s; frame = frame }) ≡ []
      → ((e : Error) × (open_frame ws (record { socket = s; frame = frame })
            ≡ (err e, between ws l (ws.next_reader s).1)))
        ⊎ (0 < frames ws l (record { socket = s; frame = frame }))
  unfolding open_frame check_type
  some_or_none s true h = inr (ground arith)
  some_or_none s false h = elim (List-cases (waiting s)) [
    | inl e ↦
        let (x, q) = l.no_frame s e in inl (x, ap (λ y. check_type ws y (ws.next_reader s).1) q)
    | inr (f, fs, e) ↦ inr (ground (arith, e))
  ]

  read_loop_fails :
      (fuel n : ℕ) (c : WebSocketConn ws)
      → frames ws l c < fuel
      → pending ws l c ≡ []
      → (e : Error) × ((read_loop ws fuel (suc n) c).0 ≡ err e)
  unfolding read_loop
  read_loop_fails zero n c en h = absurd (ground arith)
  read_loop_fails (suc fuel) n c en h = elim (some_or_none c.socket c.frame h) [
    | inl (e, q) ↦
        (e, ap (λ o. (continue o.0 (λ _. read_chunk ws (suc n) >>= after_chunk fuel n) o.1).0) q)
    | inr more ↦ elim (next-Round fuel n c more) [
      | round_by r chunk d (p, f, same) rd step ↦
          let (x, q) =
            read_loop_fails fuel n d
              (ground
                (arith, rd.moves, f, en, length-append chunk (pending ws l d), rd.split, p, h))
              (append-nil_right chunk (pending ws l d) (sym rd.split ∙ p ∙ h)) in
          (
            x,
            ap (λ o. o.0) step
                ∙ ap
                    (λ k.
                      (continue (read_loop ws fuel k d).0 (λ rest. pure (chunk ++ rest))
                        (read_loop ws fuel k d).1).0)
                    (the_rest n chunk
                      (ground (arith, length-append chunk (pending ws l d), rd.split, p, h)))
                ∙ ap
                    (λ y.
                      (continue y (λ rest. pure (chunk ++ rest)) (read_loop ws fuel (suc n) d).1).0)
                    q,
          )
    ]
  ]

  module _ (fuel : ℕ → WebSocketConn ws → ℕ)
      (enough : (n : ℕ) (c : WebSocketConn ws) → n + frames ws l c < fuel n c) where
    abbrev conn : Transport
    conn = web_socket ws fuel

    -- What is unread of the message at hand, if there is one, and the messages that have not begun, one after the other.
    abbrev pub unread : WebSocketConn ws → Bytes
    unread c = (if c.frame then current c.socket else []) ++ concat (waiting c.socket)

    write_lem :
        (p : Bytes) (c : WebSocketConn ws)
        → ((write ws p c).0 ≡ ok (length p))
          × (sent (write ws p c).1.socket ≡ sent c.socket ++ p)
          × (pending ws l (write ws p c).1 ≡ pending ws l c)
    unfolding write
    write_lem p c =
        let (r, s, same_current, same_waiting) = l.written c.socket p in
        let done =
          ap
            (λ y.
              continue y (λ _ d. (ok (length p), d))
                (record c { socket = (ws.write_message binary_message p c.socket).1 }))
            r in
        (
          ap (λ o. o.0) done,
          ap (λ o. sent o.1.socket) done ∙ s,
          ap (λ o. pending ws l o.1) done ∙ ground (arith, same_current, same_waiting),
        )

    -- A `webSocketConn` over a WebSocket that brings binary messages, with more rounds than there are bytes asked for and messages:
    -- a `Read` of `n` bytes, where no fewer are unread, gives the first `n` bytes of the messages put one after the other,
    -- wherever one ends and the next begins, and leaves exactly the others unread; a `Write` is sent whole, and takes nothing
    -- of what is unread.
    pub web_socket_lem :
        (n : ℕ) (p : Bytes) (c : WebSocketConn ws)
        → n ≤ length (unread c)
        → ((conn.read n c).0 ≡ ok (take n (unread c)))
          × (unread (conn.read n c).1 ≡ drop n (unread c))
          × (sent (conn.read n c).1.socket ≡ sent c.socket)
          × ((conn.write p c).0 ≡ ok (length p))
          × (sent (conn.write p c).1.socket ≡ sent c.socket ++ p)
          × (unread (conn.write p c).1 ≡ unread c)
    unfolding Takes
    web_socket_lem n p c h =
        let (answer, left, same) = read_loop-Takes (fuel n c) n c (ground (arith, enough n c)) h in
        let (done, out, rest) = write_lem p c in (answer, left, same, done, out, rest)

    -- Such a connection is whole, with what is unread of the messages as what is to come: at its end a read fails.
    pub web_socket-IsWhole : IsWhole conn
    unfolding Takes
    web_socket-IsWhole = record {
      pending = pending ws l;
      sent = λ c. sent c.socket;
      read_whole = λ n c h. read_loop-Takes (fuel n c) n c (ground (arith, enough n c)) h;
      read_end = λ c h. read_loop_fails (fuel 1 c) 0 c (ground (arith, enough 1 c)) h;
      write_whole = write_lem;
    }
