-- ===== src/Wire/Text.antt =====
-- pkg/mqtt/string.go: a string with its length in front.
use yodi.Base.{
  ℕ, ◌%◌, ◌^◌, ◌≤◌, ◌<◌, ◌≡◌, Bytes, ◌++◌, length, ltb, ◌==◌, not, fail_if, arith, Exec, ◌>>=◌,
  ◌>>◌, Error, append_assoc,
}
use yodi.Transport.{Transport, IsWhole, Reads, Writes, read_exact}
use yodi.Wire.Binary.{put_uint16, uint16}

module _ (t : Transport) where
  open t use {Conn, read, write}

  -- `StringWriter.Write`, which returns the count of its second write.
  pub write_string : Bytes → Exec Conn ℕ
  write_string p = do write (put_uint16 (length p % 2 ^ 16)); write p

  -- `StringReader.Read` into a buffer of `size` bytes: the bytes that it put there.
  unfoldable pub read_string : ℕ → Exec Conn Bytes
  read_string size = do
    buf ← read 2
    fail_if (not (length buf == 2)) Error.failed_to_read_length
    fail_if (ltb size (uint16 buf)) Error.buffer_too_small
    read (uint16 buf)

  pub write_string_lem :
      (w : IsWhole t) (p : Bytes) (c : Conn)
      → length p < 2 ^ 16
      → Writes w c (write_string p c) (length p) (put_uint16 (length p) ++ p)
  unfolding write_string
  write_string_lem w p c h = ground (
    arith,
    w.write_whole (put_uint16 (length p % 2 ^ 16)) c,
    w.write_whole p (write (put_uint16 (length p % 2 ^ 16)) c).1,
    append_assoc (w.sent c) (put_uint16 (length p)) p,
  )

  -- A string that fits is read back as it was written, and what follows it stays.
  pub read_string_lem :
      (w : IsWhole t) (size : ℕ) (p rest : Bytes) (c : Conn)
      → length p ≤ size
      → w.pending c ≡ put_uint16 (length p) ++ (p ++ rest)
      → Reads w c (read_string size c) p rest
  unfolding read_string
  read_string_lem w size p rest c h e =
      let prefix = read_exact w (put_uint16 (length p)) (p ++ rest) c e in
      ground (arith, prefix, read_exact w p rest (read 2 c).1)
