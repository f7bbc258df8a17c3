-- ===== src/Packet.antt =====
-- The packets that a client and the broker exchange, below the handlers: what the `write` functions
-- of pkg/mqtt send, and what the `read` functions parse before they hand it on.
pub mod Acknowledge
pub mod Bounds
pub mod Connect
pub mod Publish
pub mod Receive
pub mod Steady
use yodi.Base.{
  ℕ, zero, suc, ◌+◌, ◌-◌, ◌%◌, ◌^◌, bit_and, Bytes, [], ◌∷◌, ◌++◌, not, codes, same, length, take,
  drop, head_or, ltb, leb, ◌==◌, if◌then◌else◌, Exec, Halt, pure, raise, stop, fail_if, ignore,
  ◌>>=◌, ◌>>◌, Error,
}
use yodi.Message.{QueuedMessage, qos0, qos1}
use yodi.Transport.{Transport}
use yodi.Wire.Length.{decode_remaining_length}
use yodi.Wire.Header.{Header, get_qos, write_fixed_header_with_flags, write_fixed_header}
use yodi.Wire.Header.MessageType
use yodi.Wire.Binary.{put_uint16, uint16, read_struct}
use yodi.Wire.Text.{write_string, read_string}

abbrev pub connection_accepted : ℕ
connection_accepted = 0

abbrev pub refused_unacceptable_protocol_version : ℕ
refused_unacceptable_protocol_version = 1

abbrev pub refused_identifier_rejected : ℕ
refused_identifier_rejected = 2

abbrev pub refused_server_unavailable : ℕ
refused_server_unavailable = 3

abbrev pub refused_not_authorized : ℕ
refused_not_authorized = 4

-- `UsernameSet | PasswordSet`
abbrev pub mandatory_connect_flags : ℕ
mandatory_connect_flags = 192

abbrev pub max_topic_length : ℕ
max_topic_length = 64

-- What a CONNECT packet names.
pub record Credentials : Type 0 where
  pub client_id : Bytes
  pub username : Bytes
  pub password : Bytes

-- What a PUBLISH packet carries.
pub record Publication : Type 0 where
  pub topic : Bytes
  pub payload : Bytes
  pub message_id : ℕ
  pub qos : ℕ

-- Subtraction of uint32.
abbrev pub sub32 : ℕ → ℕ → ℕ
sub32 a b = (a + 2 ^ 32 - b) % 2 ^ 32

-- `append` to what a later call returns.
abbrev pub append_to : {S : Type 0} → Bytes → Exec S Bytes → Exec S Bytes
append_to buf m = m >>= λ rest. pure (buf ++ rest)

module _ (t : Transport) where
  open t use {Conn, read, write}

  -- `binary.Write` of a struct: one write of its bytes, whose count is not looked at.
  unfoldable pub write_struct : Bytes → Exec Conn (Unit {0})
  write_struct p = do write p; pure tt

  unfoldable pub write_connect_ack : ℕ → Exec Conn (Unit {0})
  write_connect_ack code = do
    write_fixed_header t MessageType.connect_ack 2
    write_struct (0 ∷ code ∷ [])

  -- An error that the peer is told of, as well as it goes.
  unfoldable pub refuse : ℕ → Error → Exec Conn (Unit {0})
  refuse code e = do ignore (write_connect_ack code); raise e

  pub write_publish_ack : ℕ → Exec Conn (Unit {0})
  write_publish_ack message_id = do
    write_fixed_header t MessageType.publish_ack 2
    write_struct (put_uint16 message_id)

  pub write_subscribe_ack : ℕ → ℕ → Exec Conn (Unit {0})
  write_subscribe_ack message_id qos = do
    write_fixed_header t MessageType.subscribe_ack 3
    write_struct (put_uint16 message_id ++ (qos ∷ []))

  pub write_unsubscribe_ack : ℕ → Exec Conn (Unit {0})
  write_unsubscribe_ack message_id = do
    write_fixed_header t MessageType.unsubscribe_ack 2
    write_struct (put_uint16 message_id)

  -- `handlePing`
  pub handle_ping : Exec Conn (Unit {0})
  handle_ping = write_fixed_header t MessageType.ping_response 0

  -- `int` lengths, so `2 + len + len` does not wrap.
  pub publish : QueuedMessage → Exec Conn (Unit {0})
  publish m = do
    let base_length = 2 + length m.topic + length m.message
    let message_length = if m.qos == qos1 then base_length + 2 else base_length
    fail_if (ltb 255 message_length) Error.message_too_big
    write_fixed_header_with_flags t MessageType.publish message_length m.qos m.duplicate
    n ← write_string t m.topic
    fail_if (not (n == length m.topic)) Error.failed_to_send_topic
    (if m.qos == qos1 then write_struct (put_uint16 m.id) else pure tt)
    n ← write m.message
    fail_if (not (n == length m.message)) Error.failed_to_send_message

  -- The first part of `readPacket`: `flags` is a one-byte buffer of zeroes.
  unfoldable pub read_header : Exec Conn Header
  read_header = do
    flags ← read 1
    length ← decode_remaining_length t
    pure (record { flags = head_or 0 flags; message_length = length })

  -- The loop of `readPublish` that fills `buf`, of which `missing` bytes are still to come. A round
  -- that goes on has read a byte, so `missing` rounds are enough.
  unfoldable pub read_payload : ℕ → ℕ → Exec Conn Bytes
  read_payload fuel zero = pure []
  read_payload zero (suc missing) = stop Halt.out_of_fuel
  read_payload (suc fuel) (suc missing) = do
    buf ← read (suc missing)
    fail_if (length buf == 0) Error.message_truncated
    append_to buf (read_payload fuel (suc missing - length buf))

  -- The `switch qos` of `readPublish`.
  unfoldable pub read_message_id : ℕ → Exec Conn ℕ
  read_message_id qos =
      if qos == qos0
      then pure 0
      else if qos == qos1
      then (read_struct t 2 >>= λ buf. pure (uint16 buf))
      else raise Error.unknown_qos_level

  -- `readPublish` up to `handlePublish`.
  unfoldable pub parse_publish : Header → Exec Conn Publication
  parse_publish hdr = do
    topic ← read_string t max_topic_length
    fail_if (length topic == 0) Error.empty_topic
    qos ← (λ c. (get_qos hdr, c))
    message_id ← read_message_id qos
    let header_size = length topic + 2 + (if qos == qos0 then 0 else 2)
    fail_if (leb hdr.message_length header_size) Error.no_message
    payload ← read_payload (hdr.message_length - header_size) (hdr.message_length - header_size)
    pure (record { topic = topic; payload = payload; message_id = message_id; qos = qos })

  -- One string of a CONNECT packet, into a buffer of `remaining` bytes.
  unfoldable pub read_connect_field : ℕ → Error → Exec Conn Bytes
  read_connect_field remaining empty = do
    buf ← read_string t remaining
    fail_if (length buf == 0) empty
    pure buf

  -- `remainingLength -= uint32(n); if remainingLength <= 2 { return … }; remainingLength -= 2`
  unfoldable pub next_remaining : ℕ → ℕ → Exec Conn ℕ
  next_remaining remaining n = do
    fail_if (leb (sub32 remaining n) 2) Error.invalid_connect
    pure (sub32 remaining n - 2)

  -- `readConnect` up to `handleConnect`. The fixed header is the length of the protocol's name, the
  -- name, the version, the flags, and the keep-alive time.
  unfoldable pub parse_connect : Header → Exec Conn Credentials
  parse_connect hdr = do
    fixed ← read_struct t 10
    fail_if (not (same (take 4 (drop 2 fixed)) (codes "MQTT"))) Error.bad_protocol_name
    (if head_or 0 (drop 6 fixed) == 4
        then pure tt
        else refuse refused_unacceptable_protocol_version Error.bad_protocol_version)
    (if bit_and (head_or 0 (drop 7 fixed)) mandatory_connect_flags == mandatory_connect_flags
        then pure tt
        else refuse refused_not_authorized Error.connect_flags_not_set)
    fail_if (leb hdr.message_length 12) Error.invalid_connect
    let remaining = hdr.message_length - 12
    client_id ← read_connect_field remaining Error.empty_client_id
    remaining ← next_remaining remaining (length client_id)
    username ← read_connect_field remaining Error.empty_username
    remaining ← next_remaining remaining (length username)
    password ← read_connect_field remaining Error.empty_password
    fail_if (not (remaining == length password)) Error.invalid_connect
    pure (record { client_id = client_id; username = username; password = password })
