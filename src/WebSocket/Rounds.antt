-- ===== src/WebSocket/Rounds.antt =====
-- One round of the loop of `Read`: pkg/mqtt/websocket.go.
use yodi.Base.{
  ℕ, suc, ◌+◌, ◌-◌, ◌≤◌, ◌<◌, ◌≡◌, inl, inr, Bytes, [], ◌∷◌, ◌++◌, length, Option, none, Bool, true,
  false, if◌then◌else◌, Result, ok, Error, refl, arith, append_assoc, List-cases, append-nil, ◌∙◌,
  ap,
}
use yodi.WebSocket.{WebSocket, WebSocketConn, check_type, open_frame, check_chunk, read_chunk}
use yodi.WebSocket.Frames.{concat, IsFramed}

module _ (ws : WebSocket) (l : IsFramed ws) where
  open l use {current, waiting, sent}

  -- What is to come, and how many messages it is spread over.
  abbrev pub pending : WebSocketConn ws → Bytes
  pending c = (if c.frame then current c.socket else []) ++ concat (waiting c.socket)

  abbrev pub frames : WebSocketConn ws → ℕ
  frames c = (if c.frame then 1 else 0) + length (waiting c.socket)

  -- With a reader at hand, a round gives the bytes in front, at most `suc n` of them, and where it gives none it ends a message.
  pub record IsRound (n : ℕ) (c : WebSocketConn ws) (chunk : Bytes) (d : WebSocketConn ws)
      : Type 0 where
    pub returned : read_chunk ws (suc n) c ≡ (ok chunk, d)
    pub split : pending c ≡ chunk ++ pending d
    pub fits : length chunk ≤ suc n
    pub moves : (suc n - length chunk) + frames d < suc n + frames c
    pub sends : sent d.socket ≡ sent c.socket

  abbrev pub reading : ws.Socket → WebSocketConn ws
  reading s = record { socket = s; frame = true }

  abbrev pub between : ws.Socket → WebSocketConn ws
  between s = record { socket = s; frame = false }

  checked :
      (p : (Bytes × Option Error) × ws.Socket) {x : Bytes × Option Error}
      {r : Result Bytes × WebSocketConn ws}
      → p.0 ≡ x
      → check_chunk ws (x, p.1) ≡ r
      → check_chunk ws p ≡ r
  checked p e q = ap (λ y. check_chunk ws (y, p.1)) e ∙ q

  on_end :
      (n : ℕ) (s : ws.Socket)
      → current s ≡ []
      → IsRound n (reading s) [] (between (ws.read_frame (suc n) s).1)
  unfolding read_chunk check_chunk
  on_end n s e =
      let (r, at) = l.at_end s n e in
      record {
        returned = checked (ws.read_frame (suc n) s) r refl;
        split = ground (arith, e, l.same_waiting s (suc n));
        fits = omega arith;
        moves = ground (arith, l.same_waiting s (suc n));
        sends = l.same_sent s (suc n);
      }

  nonempty :
      (x : ℕ) (chunk : Bytes) (s : ws.Socket)
      → check_chunk ws ((x ∷ chunk, none), s) ≡ (ok (x ∷ chunk), reading s)
  unfolding check_chunk
  nonempty x chunk s = ground arith

  on_bytes :
      (n : ℕ) (s : ws.Socket) (b : ℕ) (bs : Bytes)
      → current s ≡ b ∷ bs
      → (chunk : Bytes) × (d : WebSocketConn ws) × IsRound n (reading s) chunk d
  unfolding read_chunk check_chunk
  on_bytes n s b bs e =
      let (x, chunk, end, r, at, fits, ends) = l.some_bytes s n b bs e in
      elim ends [
        | inl more ↦ (
          x ∷ chunk,
          reading (ws.read_frame (suc n) s).1,
          record {
            returned =
                checked (ws.read_frame (suc n) s) (r ∙ ap (λ y. (x ∷ chunk, y)) more)
                  (nonempty x chunk (ws.read_frame (suc n) s).1);
            split = ground (
              arith,
              e,
              at,
              l.same_waiting s (suc n),
              append_assoc (x ∷ chunk) (current (ws.read_frame (suc n) s).1) (concat (waiting s)),
            );
            fits = ground (arith);
            moves = ground (arith, l.same_waiting s (suc n));
            sends = l.same_sent s (suc n);
          },
        )
        | inr (last, none_left) ↦ (
          x ∷ chunk,
          between (ws.read_frame (suc n) s).1,
          record {
            returned = checked (ws.read_frame (suc n) s) (r ∙ ap (λ y. (x ∷ chunk, y)) last) refl;
            split = ground (
              arith,
              e,
              at,
              none_left,
              append-nil (x ∷ chunk),
              l.same_waiting s (suc n),
              append_assoc (x ∷ chunk) (current (ws.read_frame (suc n) s).1) (concat (waiting s)),
            );
            fits = ground (arith);
            moves = ground (arith, l.same_waiting s (suc n));
            sends = l.same_sent s (suc n);
          },
        )
      ]

  pub round :
      (n : ℕ) (s : ws.Socket)
      → (chunk : Bytes) × (d : WebSocketConn ws) × IsRound n (reading s) chunk d
  round n s = elim (List-cases (current s)) [
    | inl e ↦ ([], between (ws.read_frame (suc n) s).1, on_end n s e)
    | inr (b, bs, e) ↦ on_bytes n s b bs e
  ]

  -- While there are messages, there is one to read from.
  pub opens :
      (s : ws.Socket) (frame : Bool)
      → 0 < frames (record { socket = s; frame = frame })
      → (r : ws.Socket) × (open_frame ws (record { socket = s; frame = frame })
          ≡ (ok tt, reading r))
        × (pending (reading r) ≡ pending (record { socket = s; frame = frame }))
        × (frames (reading r) ≡ frames (record { socket = s; frame = frame }))
        × (sent r ≡ sent s)
  unfolding open_frame check_type
  opens s true h = (s, refl, refl, refl, refl)
  opens s false h = elim (List-cases (waiting s)) [
    | inl e ↦ absurd (ground (arith, e))
    | inr (f, fs, e) ↦
        let (r, at, rest, same) = l.next_frame s f fs e in
        (
          (ws.next_reader s).1,
          ap (λ y. check_type ws y (ws.next_reader s).1) r,
          ground (arith, at, rest, e),
          ground (arith, rest, e),
          same,
        )
  ]
