-- ===== src/Wire/Length.antt =====
-- pkg/mqtt/length.go: the remaining length of a packet, in groups of seven bits.
pub mod Encode
pub mod Groups
pub mod Decode
use yodi.Base.{
  ℕ, zero, suc, ◌+◌, ◌*◌, ◌/◌, ◌%◌, ◌^◌, bit_and, bit_or, Bytes, [], ◌∷◌, head_or, ltb, ◌==◌,
  if◌then◌else◌, Exec, pure, raise, ◌>>=◌, Error,
}
use yodi.Transport.{Transport}

-- The rounds that are left of `for i := 0; i < 4; i++`.
unfoldable pub encode_loop : ℕ → ℕ → Bytes
encode_loop zero message_length = []
encode_loop (suc rounds) message_length =
    let encoded_byte = message_length % 128 % 256 in
    let message_length' = message_length / 128 in
    let more = encode_loop rounds message_length' in
    (if ltb 0 message_length' then bit_or encoded_byte 128 else encoded_byte)
    ∷ (if message_length' == 0 then [] else more)

unfoldable pub encode_remaining_length : ℕ → Bytes
encode_remaining_length message_length = encode_loop 4 message_length

module _ (t : Transport) where
  open t use {Conn, read}

  -- `encoded_byte` is the one-byte buffer, which a read of no byte leaves as it was.
  unfoldable pub decode_loop : ℕ → ℕ → ℕ → ℕ → Exec Conn ℕ
  decode_loop zero multiplier value encoded_byte = pure value
  decode_loop (suc rounds) multiplier value encoded_byte = do
    buf ← read 1
    let encoded_byte' = head_or encoded_byte buf
    let value' = (value + bit_and encoded_byte' 127 * multiplier) % 2 ^ 32
    let multiplier' = multiplier * 128 % 2 ^ 32
    let more = decode_loop rounds multiplier' value' encoded_byte'
    if ltb (128 * 128 * 128) multiplier'
        then raise Error.malformed_remaining_length
        else (if bit_and encoded_byte' 128 == 0 then pure value' else more)

  unfoldable pub decode_remaining_length : Exec Conn ℕ
  decode_remaining_length = decode_loop 4 1 0 0
