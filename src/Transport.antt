-- ===== src/Transport.antt =====
-- The `io.Reader` and `io.Writer` of a client (client.go, `reader` and `writer`): a connection, as
-- an interface. What a connection promises stands in the two records below it.
use yodi.Base.{
  suc, ◌<◌, ◌≢◌, halt, Halt, ℕ, ◌≤◌, ◌≡◌, Bytes, [], ◌∷◌, ◌++◌, length, take, drop, Exec, Result,
  ok, err, Error, length-append, take-append, drop-append, arith, All,
}

-- `read n` is `Read(p)` with `len(p) = n`, and returns `p[:n']` for the `n'` bytes that it read; it
-- may return fewer than it was asked for. Where `Read` returns bytes beside an error, every caller
-- drops them. `write p` is `Write(p)`, and returns its count.
pub record Transport : Type 1 where
  pub Conn : Type 0
  pub read : ℕ → Exec Conn Bytes
  pub write : Bytes → Exec Conn ℕ

-- An unbroken stream of bytes, in whatever portions they come: a read of one byte takes the next one, and fails at the end.
pub record IsByteStream (t : Transport) : Type 0 where
  pub pending : t.Conn → Bytes
  pub sent : t.Conn → Bytes
  pub read_one :
      (c : t.Conn) (b : ℕ) (rest : Bytes)
      → pending c ≡ b ∷ rest
      → ((t.read 1 c).0 ≡ ok (b ∷ []))
        × (pending (t.read 1 c).1 ≡ rest)
        × (sent (t.read 1 c).1 ≡ sent c)
  pub read_end : (c : t.Conn) → pending c ≡ [] → (e : Error) × ((t.read 1 c).0 ≡ err e)

-- A read fills its buffer as long as the bytes are there, and a write takes all of its bytes, as
-- `webSocketConn` does and a `bytes.Buffer`.
pub record IsWhole (t : Transport) : Type 0 where
  pub pending : t.Conn → Bytes
  pub sent : t.Conn → Bytes
  pub read_whole :
      (n : ℕ) (c : t.Conn)
      → n ≤ length (pending c)
      → ((t.read n c).0 ≡ ok (take n (pending c)))
        × (pending (t.read n c).1 ≡ drop n (pending c))
        × (sent (t.read n c).1 ≡ sent c)
  pub read_end : (c : t.Conn) → pending c ≡ [] → (e : Error) × ((t.read 1 c).0 ≡ err e)
  pub write_whole :
      (p : Bytes) (c : t.Conn)
      → ((t.write p c).0 ≡ ok (length p))
        × (sent (t.write p c).1 ≡ sent c ++ p)
        × (pending (t.write p c).1 ≡ pending c)

-- A connection that brings finitely many bytes before it fails: a read that asks for some returns at least one,
-- or an error, and neither reads nor writes panic or wait for ever. Reads may be short, and both may fail.
pub record IsFinite (t : Transport) : Type 0 where
  pub left : t.Conn → ℕ
  pub read_le : (n : ℕ) (c : t.Conn) → left (t.read n c).1 ≤ left c
  pub read_some :
      (n : ℕ) (c : t.Conn) (bs : Bytes)
      → (t.read (suc n) c).0 ≡ ok bs
      → (0 < length bs) × (left (t.read (suc n) c).1 < left c)
  pub read_returns : (n : ℕ) (c : t.Conn) (h : Halt) → (t.read n c).0 ≢ halt h
  pub write_le : (p : Bytes) (c : t.Conn) → left (t.write p c).1 ≤ left c
  pub write_returns : (p : Bytes) (c : t.Conn) (h : Halt) → (t.write p c).0 ≢ halt h

module _ {t : Transport} (w : IsWhole t) {A : Type 0} where
  open w use {pending, sent}

  -- The call returned `a`, wrote `p`, and read nothing.
  abbrev pub Writes : t.Conn → Result A × t.Conn → A → Bytes → Type 0
  Writes c call a p = (call.0 ≡ ok a) × (sent call.1 ≡ sent c ++ p) × (pending call.1 ≡ pending c)

  -- The call returned `a`, left `rest` unread, and wrote nothing.
  abbrev pub Reads : t.Conn → Result A × t.Conn → A → Bytes → Type 0
  Reads c call a rest = (call.0 ≡ ok a) × (pending call.1 ≡ rest) × (sent call.1 ≡ sent c)

-- A read of exactly the bytes in front.
pub read_exact :
    {t : Transport} (w : IsWhole t) (p rest : Bytes) (c : t.Conn)
    → w.pending c ≡ p ++ rest
    → Reads w c (t.read (length p) c) p rest
read_exact w p rest c e =
    ground (
      arith,
      w.read_whole (length p) c,
      length-append p rest,
      take-append p rest,
      drop-append p rest,
    )

abbrev pub IsWhole-IsByteStream : {t : Transport} → IsWhole t → IsByteStream t
IsWhole-IsByteStream {t} w = record {
  pending = w.pending;
  sent = w.sent;
  read_one = λ c b rest e. read_exact w (b ∷ []) rest c e;
  read_end = w.read_end;
}

-- What `io.Reader` promises of a read: no more bytes than there is room for, each of them below 256.
pub record IsReader (t : Transport) : Type 0 where
  pub read_fits : (n : ℕ) (c : t.Conn) (bs : Bytes) → (t.read n c).0 ≡ ok bs → length bs ≤ n
  pub read_bytes :
      (n : ℕ) (c : t.Conn) (bs : Bytes) → (t.read n c).0 ≡ ok bs → All (λ b. b < 256) bs
