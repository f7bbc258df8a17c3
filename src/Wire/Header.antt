-- ===== src/Wire/Header.antt =====
-- pkg/mqtt/header.go: the fixed header of a packet.
-- The packet types, four bits each, are the constants of MessageType.antt.
pub mod MessageType
pub mod Flags
pub mod Write
use yodi.Base.{
  ℕ, ◌*◌, ◌/◌, ◌%◌, ◌^◌, bit_and, bit_or, Bytes, ◌∷◌, Bool, false, not, ◌&&◌, length, ltb, ◌==◌,
  if◌then◌else◌, Exec, Result, ok, err, pure, raise, fail_if, ◌>>=◌, ◌>>◌, Error,
}
use yodi.Transport.{Transport}
use yodi.Wire.Length.{encode_remaining_length}

pub record Header : Type 0 where
  pub flags : ℕ
  pub message_length : ℕ

abbrev pub qos_mask : ℕ
qos_mask = 6

abbrev pub duplicate_flag : ℕ
duplicate_flag = 8

-- `MessageType(hdr.Flags >> 4)`
unfoldable pub message_type : Header → ℕ
message_type h = h.flags / 2 ^ 4

unfoldable pub get_qos : Header → Result ℕ
get_qos h =
    let qos = bit_and h.flags qos_mask / 2 in
    if not (qos == 0) && not (qos == 1) then err Error.invalid_qos_level else ok qos

-- The first byte, `flags` of `writeFixedHeaderWithFlags`.
pub header_flags : ℕ → ℕ → Bool → ℕ
header_flags message_type qos duplicate =
    let flags = bit_or (message_type * 2 ^ 4 % 2 ^ 8) (qos * 2 % 2 ^ 8) in
    if duplicate then bit_or flags duplicate_flag else flags

module _ (t : Transport) where
  open t use {Conn, write}

  unfoldable pub write_fixed_header_with_flags : ℕ → ℕ → ℕ → Bool → Exec Conn (Unit {0})
  write_fixed_header_with_flags message_type message_length qos duplicate = do
    fail_if (ltb 16383 message_length) Error.message_too_long
    let hdr = header_flags message_type qos duplicate ∷ encode_remaining_length message_length
    n ← write hdr
    fail_if (not (n == length hdr)) Error.header_not_written

  unfoldable pub write_fixed_header : ℕ → ℕ → Exec Conn (Unit {0})
  write_fixed_header message_type message_length =
      write_fixed_header_with_flags message_type message_length 0 false
