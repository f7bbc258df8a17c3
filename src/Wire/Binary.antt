-- ===== src/Wire/Binary.antt =====
-- What the packets use of encoding/binary: big-endian numbers, and reading a struct, which fills
-- its bytes with `io.ReadFull`.
use yodi.Base.{
  ℕ, zero, suc, ◌+◌, ◌-◌, ◌*◌, ◌/◌, ◌%◌, ◌≡◌, refl, Bytes, [], ◌∷◌, ◌++◌, length, arith, Exec, pure,
  stop, Halt, ◌>>=◌, append-nil, ok,
}
use yodi.Transport.{Transport, IsWhole, Reads, read_exact}

-- `PutUint16`, on a value that is below 2^16 already.
abbrev pub put_uint16 : ℕ → Bytes
put_uint16 v = v / 256 ∷ v % 256 ∷ []

abbrev pub uint16 : Bytes → ℕ
uint16 (hi ∷ lo ∷ _) = hi * 256 + lo
uint16 _ = 0

module _ (t : Transport) where
  open t use {Conn, read}

  -- `io.ReadFull` of the `n` bytes that are missing. A round that reads at least one byte brings the
  -- end nearer, so `n` rounds are enough; rounds without a byte are those of a reader that breaks
  -- the contract of `io.Reader`, and end by the fuel.
  unfoldable pub read_full : ℕ → ℕ → Exec Conn Bytes
  read_full fuel zero = pure []
  read_full zero (suc n) = stop Halt.out_of_fuel
  read_full (suc fuel) (suc n) = do
    buf ← read (suc n)
    rest ← read_full fuel (suc n - length buf)
    pure (buf ++ rest)

  -- `binary.Read` of a struct of `n` bytes, as its bytes.
  unfoldable pub read_struct : ℕ → Exec Conn Bytes
  read_struct n = read_full n n

  -- Where reads fill their buffers, a struct is read whole.
  pub read_struct_lem :
      (w : IsWhole t) (p rest : Bytes) (c : Conn)
      → w.pending c ≡ p ++ rest
      → Reads w c (read_struct (length p) c) p rest
  unfolding read_struct read_full
  read_struct_lem w [] rest c e = (refl, e, refl)
  read_struct_lem w (x ∷ xs) rest c e = ground (
    arith,
    read_exact w (x ∷ xs) rest c e,
    done (read (suc (length xs)) c).1 (length xs) (suc (length xs) - suc (length xs)),
    append-nil xs,
  )
    where
      done : (d : Conn) (fuel n : ℕ) → n ≡ 0 → read_full fuel n d ≡ (ok [], d)
      done d fuel zero h = refl
      done d fuel (suc n) h = absurd (omega arith)
