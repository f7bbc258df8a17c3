-- ===== src/Packet/Publish.antt =====
-- What `publish` sends, and what `readPublish` makes of it.
use yodi.Base.{
  ℕ, ◌+◌, ◌≤◌, ◌<◌, ◌≡◌, ◌++◌, Bytes, [], err, Error, length, length-append, ◌==◌, if◌then◌else◌,
  arith, append_assoc, ◌⊎◌, inl, inr, Bool-cases, ltb,
}
use yodi.Message.{QueuedMessage, qos1}
use yodi.Transport.{Transport, IsWhole, Writes}
use yodi.Wire.Header.{write_fixed_header_with_flags}
use yodi.Wire.Header.MessageType
use yodi.Wire.Header.Write.{header_bytes, write_fixed_header_with_flags_lem}
use yodi.Wire.Binary.{put_uint16}
use yodi.Wire.Text.{write_string, write_string_lem}
use yodi.Packet.{write_struct, publish}

-- The body of a PUBLISH packet of MQTT 3.1.1: the topic behind its length, the packet identifier
-- where the QoS is not 0, and the payload.
abbrev pub id_bytes : QueuedMessage → Bytes
id_bytes m = if m.qos == qos1 then put_uint16 m.id else []

abbrev pub body_bytes : QueuedMessage → Bytes
body_bytes m = put_uint16 (length m.topic) ++ (m.topic ++ (id_bytes m ++ m.message))

abbrev pub publish_bytes : QueuedMessage → Bytes
publish_bytes m =
    header_bytes MessageType.publish (length (body_bytes m)) m.qos m.duplicate ++ body_bytes m

abbrev pub base_length : QueuedMessage → ℕ
base_length m = 2 + length m.topic + length m.message

pub length-body_bytes :
    (m : QueuedMessage)
    → length (body_bytes m) ≡ (if m.qos == qos1 then base_length m + 2 else base_length m)
length-body_bytes m = ground (
  arith,
  length-append m.topic (id_bytes m ++ m.message),
  length-append (put_uint16 m.id) m.message,
)

module _ (t : Transport) (w : IsWhole t) (m : QueuedMessage) (c : t.Conn) where
  open t use {write}
  open w use {sent}

  -- The states after the header and after the topic, for a message of `n` bytes.
  after_header : ℕ → t.Conn
  after_header n = (write_fixed_header_with_flags t MessageType.publish n m.qos m.duplicate c).1

  abbrev header : ℕ → Bytes
  header n = header_bytes MessageType.publish n m.qos m.duplicate

  abbrev topic_bytes : Bytes
  topic_bytes = put_uint16 (length m.topic) ++ m.topic

  publish_qos0 :
      m.qos ≡ 0
      → base_length m ≤ 255
      → Writes w c (publish t m c) tt (header (base_length m) ++ (topic_bytes ++ m.message))
  unfolding publish after_header
  publish_qos0 q fits =
      let n = base_length m in
      ground (
        arith,
        write_fixed_header_with_flags_lem t w MessageType.publish n c m.qos m.duplicate,
        write_string_lem t w m.topic (after_header n),
        w.write_whole m.message (write_string t m.topic (after_header n)).1,
        append_assoc (sent c) (header n) topic_bytes,
        append_assoc (sent c) (header n ++ topic_bytes) m.message,
        append_assoc (header n) topic_bytes m.message,
      )

  publish_qos1 :
      m.qos ≡ 1
      → base_length m + 2 ≤ 255
      → Writes w c
          (publish t m c)
          tt
          (header (base_length m + 2) ++ (topic_bytes ++ (put_uint16 m.id ++ m.message)))
  unfolding publish after_header write_struct
  publish_qos1 q fits =
      let n = base_length m + 2 in
      let c2 = (write_string t m.topic (after_header n)).1 in
      ground (
        arith,
        write_fixed_header_with_flags_lem t w MessageType.publish n c m.qos m.duplicate,
        write_string_lem t w m.topic (after_header n),
        w.write_whole (put_uint16 m.id) c2,
        w.write_whole m.message (write (put_uint16 m.id) c2).1,
        append_assoc (sent c) (header n) topic_bytes,
        append_assoc (sent c) (header n ++ topic_bytes) (put_uint16 m.id),
        append_assoc (sent c) (header n ++ topic_bytes ++ put_uint16 m.id) m.message,
        append_assoc (header n ++ topic_bytes) (put_uint16 m.id) m.message,
        append_assoc (header n) topic_bytes (put_uint16 m.id ++ m.message),
      )

  -- A message of QoS 0 or 1 whose packet body is at most 255 bytes long is sent as the PUBLISH packet
  -- of MQTT, and nothing is read.
  pub publish_lem :
      m.qos ≤ 1 → length (body_bytes m) ≤ 255 → Writes w c (publish t m c) tt (publish_bytes m)
  publish_lem q fits = ground (
    arith,
    length-body_bytes m,
    publish_qos0,
    publish_qos1,
    append_assoc (put_uint16 (length m.topic)) m.topic (id_bytes m ++ m.message),
  )

  publish_too_big : 255 < length (body_bytes m) → publish t m c ≡ (err Error.message_too_big, c)
  unfolding publish
  publish_too_big long = ground (arith, length-body_bytes m)

  -- On a connection that takes all of its bytes, a message of QoS 0 or 1 whose packet body has at most 255 bytes is sent as the
  -- PUBLISH packet of MQTT, and nothing is read; a longer one is refused, and nothing is sent or read.
  pub publish_up_to_255 :
      m.qos ≤ 1
      → (length (body_bytes m) ≤ 255) × Writes w c (publish t m c) tt (publish_bytes m)
        ⊎ (255 < length (body_bytes m)) × (publish t m c ≡ (err Error.message_too_big, c))
  publish_up_to_255 q = elim (Bool-cases (ltb 255 (length (body_bytes m)))) [
    | inl e ↦
        let long : 255 < length (body_bytes m) = ground (arith, e) in
        inr (long, publish_too_big long)
    | inr e ↦
        let fits : length (body_bytes m) ≤ 255 = ground (arith, e) in inl (fits, publish_lem q fits)
  ]
