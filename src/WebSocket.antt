-- ===== src/WebSocket.antt =====
-- pkg/mqtt/websocket.go: a connection over the binary messages of a WebSocket.
pub mod Frames
pub mod Rounds
pub mod Whole
use yodi.Base.{
  ℕ, zero, suc, ◌+◌, ◌-◌, Bytes, [], ◌∷◌, ◌++◌, length, Option, none, some, Bool, true, false, not,
  ◌==◌, if◌then◌else◌, Exec, Result, ok, err, halt, Halt, Error, pure, stop, on_part, ◌>>=◌, ◌>>◌,
}
use yodi.Transport.{Transport}

-- What the code calls of gorilla/websocket: `NextReader` goes on to the next message and gives its type; `read_frame n` reads
-- from the reader that it returned last into a buffer of `n` bytes, and gives an error beside the bytes.
pub record WebSocket : Type 1 where
  pub Socket : Type 0
  pub next_reader : Exec Socket ℕ
  pub read_frame : ℕ → Socket → (Bytes × Option Error) × Socket
  pub write_message : ℕ → Bytes → Exec Socket (Unit {0})

-- `websocket.BinaryMessage`
abbrev pub binary_message : ℕ
binary_message = 2

module _ (ws : WebSocket) where
  open ws use {Socket, next_reader, read_frame, write_message}

  -- `frame` says whether `frame` is not nil: the reader is then the last one of `NextReader`.
  pub record WebSocketConn : Type 0 where
    pub socket : Socket
    pub frame : Bool

  -- `errors.Is(err, io.EOF)`
  abbrev is_eof : Error → Bool
  is_eof Error.eof = true
  is_eof _ = false

  -- The checks of the type behind `NextReader`.
  pub check_type : Result ℕ → Socket → Result (Unit {0}) × WebSocketConn
  check_type (ok type) s =
      if type == binary_message
      then (ok tt, record { socket = s; frame = true })
      else (err Error.unsupported_message_type, record { socket = s; frame = true })
  check_type (err e) s = (err e, record { socket = s; frame = false })
  check_type (halt h) s = (halt h, record { socket = s; frame = false })

  -- `if c.frame == nil { … }`
  pub open_frame : Exec WebSocketConn (Unit {0})
  unfolding check_type
  open_frame c =
      if c.frame then (ok tt, c) else check_type (next_reader c.socket).0 (next_reader c.socket).1

  -- A chunk, and what its error makes of the frame: the end of the frame is none for the caller.
  pub check_chunk : (Bytes × Option Error) × Socket → Result Bytes × WebSocketConn
  check_chunk ((chunk, none), s) =
      (ok chunk, record { socket = s; frame = not (length chunk == 0) })
  check_chunk ((chunk, some e), s) =
      if is_eof e
      then (ok chunk, record { socket = s; frame = false })
      else (err e, record { socket = s; frame = true })

  pub read_chunk : ℕ → Exec WebSocketConn Bytes
  unfolding check_chunk
  read_chunk n c = check_chunk (read_frame n c.socket)

  -- `Read` into the `missing` bytes that are left of the buffer. A round that reads nothing ends a frame, so the bytes and
  -- the frames bound the rounds.
  pub read_loop : ℕ → ℕ → Exec WebSocketConn Bytes
  read_loop fuel zero = pure []
  read_loop zero (suc missing) = stop Halt.out_of_fuel
  read_loop (suc fuel) (suc missing) = do
    open_frame
    chunk ← read_chunk (suc missing)
    rest ← read_loop fuel (suc missing - length chunk)
    pure (chunk ++ rest)

  pub write : Bytes → Exec WebSocketConn ℕ
  write b = do
    on_part (λ c. c.socket) (λ c s. record c { socket = s }) (write_message binary_message b)
    pure (length b)

  -- `webSocketConn`, with the bound on its rounds.
  abbrev pub web_socket : (ℕ → WebSocketConn → ℕ) → Transport
  web_socket fuel = record {
    Conn = WebSocketConn;
    read = λ n c. read_loop (fuel n c) n c;
    write = write;
  }
