-- ===== src/Wire/Header/Write.antt =====
-- What a header writes on a connection that takes all of its bytes.
use yodi.Base.{ℕ, ◌≤◌, ◌∷◌, Bool, Bytes, false, arith}
use yodi.Transport.{Transport, IsWhole, Writes}
use yodi.Wire.Length.{encode_remaining_length}
use yodi.Wire.Header.{header_flags, write_fixed_header_with_flags, write_fixed_header}

abbrev pub header_bytes : ℕ → ℕ → ℕ → Bool → Bytes
header_bytes type length qos duplicate =
    header_flags type qos duplicate ∷ encode_remaining_length length

module _ (t : Transport) (w : IsWhole t) (type length : ℕ) (c : t.Conn) where
  pub write_fixed_header_with_flags_lem :
      (qos : ℕ) (duplicate : Bool)
      → length ≤ 16383
      → Writes w c
          (write_fixed_header_with_flags t type length qos duplicate c)
          tt
          (header_bytes type length qos duplicate)
  unfolding write_fixed_header_with_flags
  write_fixed_header_with_flags_lem qos duplicate h =
      ground (arith, w.write_whole (header_bytes type length qos duplicate) c)

  pub write_fixed_header_lem :
      length ≤ 16383
      → Writes w c (write_fixed_header t type length c) tt (header_bytes type length 0 false)
  unfolding write_fixed_header
  write_fixed_header_lem h = write_fixed_header_with_flags_lem 0 false h
