-- ===== src/Packet/Receive.antt =====
-- What `readPacket` and `readPublish` make of a PUBLISH packet.
use yodi.Base.{
  ℕ, zero, suc, ◌-◌, ◌≤◌, ◌<◌, ◌≡◌, ◌++◌, Bytes, [], ◌∷◌, Bool, ok, length, ◌==◌, if◌then◌else◌,
  arith, append_assoc, append-nil, refl, All, ◌>>=◌, ◌≢◌, halt, Halt, Result-cases, inl, inr,
}
use yodi.Message.{QueuedMessage, qos1}
use yodi.Transport.{Transport, IsWhole, Reads, read_exact, IsWhole-IsByteStream}
use yodi.Wire.Length.{encode_remaining_length}
use yodi.Wire.Length.Encode.{IsByte}
use yodi.Wire.Length.Decode.{decode-encode}
use yodi.Wire.Header.{Header, header_flags, get_qos}
use yodi.Wire.Header.MessageType
use yodi.Wire.Header.Flags.{header_flags_fields}
use yodi.Wire.Header.Write.{header_bytes}
use yodi.Wire.Binary.{put_uint16, read_struct_lem}
use yodi.Wire.Text.{read_string, read_string_lem}
use yodi.Packet.{
  publish, read_header, read_payload, parse_publish, Publication, max_topic_length, read_message_id,
}
use yodi.Packet.Publish.{body_bytes, id_bytes, publish_lem, length-body_bytes}

-- What a packet of the message `m` says.
abbrev pub publication : QueuedMessage → Publication
publication m = record {
  topic = m.topic;
  payload = m.message;
  message_id = if m.qos == qos1 then m.id else 0;
  qos = m.qos;
}

module _ (t : Transport) (w : IsWhole t) where
  open t use {Conn, read}
  open w use {pending, sent}

  pub read_header_lem :
      (type len qos : ℕ) (duplicate : Bool) (rest : Bytes) (c : Conn)
      → len < 2097152
      → All IsByte rest
      → pending c ≡ header_bytes type len qos duplicate ++ rest
      → Reads w c
          (read_header t c)
          (record { flags = header_flags type qos duplicate; message_length = len })
          rest
  unfolding read_header
  read_header_lem type len qos duplicate rest c h all e = ground (
    arith,
    read_exact w (header_flags type qos duplicate ∷ []) (encode_remaining_length len ++ rest) c e,
    decode-encode t (IsWhole-IsByteStream w) len rest (read 1 c).1 h all,
  )

  -- The payload is read in one round.
  read_payload_lem :
      (p rest : Bytes) (c : Conn)
      → pending c ≡ p ++ rest
      → Reads w c (read_payload t (length p) (length p) c) p rest
  unfolding read_payload
  read_payload_lem [] rest c e = (refl, e, refl)
  read_payload_lem (x ∷ xs) rest c e = ground (
    arith,
    read_exact w (x ∷ xs) rest c e,
    done (read (suc (length xs)) c).1 (length xs) (suc (length xs) - suc (length xs)),
    append-nil xs,
  )
    where
      done : (d : Conn) (fuel n : ℕ) → n ≡ 0 → read_payload t fuel n d ≡ (ok [], d)
      done d fuel zero h = refl
      done d fuel (suc n) h = absurd (omega arith)

  read_message_id_lem :
      (m : QueuedMessage) (rest : Bytes) (c : Conn)
      → m.qos ≤ 1
      → pending c ≡ id_bytes m ++ rest
      → Reads w c (read_message_id t m.qos c) (if m.qos == qos1 then m.id else 0) rest
  unfolding read_message_id
  read_message_id_lem m rest c q e = ground (arith, read_struct_lem t w (put_uint16 m.id) rest c)

  pub parse_publish_lem :
      (m : QueuedMessage) (hdr : Header) (rest : Bytes) (c : Conn)
      → m.qos ≤ 1
      → get_qos hdr ≡ ok m.qos
      → hdr.message_length ≡ length (body_bytes m)
      → 0 < length m.topic
      → length m.topic ≤ 64
      → 0 < length m.message
      → pending c ≡ body_bytes m ++ rest
      → Reads w c (parse_publish t hdr c) (publication m) rest
  unfolding parse_publish
  parse_publish_lem m hdr rest c q hq hl ht ht' hm e =
      let behind : Bytes = id_bytes m ++ m.message in
      let c1 = (read_string t max_topic_length c).1 in
      let c2 = (read_message_id t m.qos c1).1 in
      ground (
        arith,
        append_assoc (put_uint16 (length m.topic)) (m.topic ++ behind) rest,
        append_assoc m.topic behind rest,
        append_assoc (id_bytes m) m.message rest,
        read_string_lem t w max_topic_length m.topic (behind ++ rest) c,
        read_message_id_lem m (m.message ++ rest) c1,
        read_payload_lem m.message rest c2,
        length-body_bytes m,
      )

-- The PUBLISH packet that `publish` sends for a message of QoS 0 or 1 is read back by `readPacket`
-- and `readPublish` as the topic, the payload, the QoS and, at QoS 1, the packet identifier of that
-- message, and what follows it stays unread: for a topic of 1 to 64 bytes, a payload that is not
-- empty, and a packet body of at most 255 bytes.
pub receive-publish :
    {t' : Transport} (w' : IsWhole t') {t : Transport} (w : IsWhole t) (m : QueuedMessage)
    (rest : Bytes) (s : t'.Conn) (c : t.Conn)
    → m.qos ≤ 1
    → 0 < length m.topic
    → length m.topic ≤ 64
    → 0 < length m.message
    → length (body_bytes m) ≤ 255
    → All IsByte (body_bytes m ++ rest)
    → w'.sent s ≡ []
    → w.pending c ≡ w'.sent (publish t' m s).1 ++ rest
    → Reads w c ((read_header t >>= parse_publish t) c) (publication m) rest
receive-publish {t'} w' {t} w m rest s c q ht ht' hm fits bytes none e =
    let len = length (body_bytes m) in
    let hdr : Header = record {
      flags = header_flags MessageType.publish m.qos m.duplicate;
      message_length = len;
    } in
    ground (
      arith,
      publish_lem t' w' m s q fits,
      append_assoc (header_bytes MessageType.publish len m.qos m.duplicate) (body_bytes m) rest,
      read_header_lem t w MessageType.publish len m.qos m.duplicate (body_bytes m ++ rest) c,
      header_flags_fields MessageType.publish m.qos len m.duplicate,
      parse_publish_lem t w m hdr rest (read_header t c).1,
    )

module _ (t : Transport) where
  -- The loop that fills the payload's buffer ends: with as many rounds as bytes are missing it never
  -- runs out of them, however few bytes a read returns.
  pub read_payload_ends :
      (fuel missing : ℕ) (c : t.Conn)
      → ((n : ℕ) (d : t.Conn) → (t.read n d).0 ≢ halt Halt.out_of_fuel)
      → missing ≤ fuel
      → (read_payload t fuel missing c).0 ≢ halt Halt.out_of_fuel
  unfolding read_payload
  read_payload_ends fuel zero c h l = λ e. cc
  read_payload_ends zero (suc missing) c h l = absurd (omega arith)
  read_payload_ends (suc fuel) (suc missing) c h l =
      let d = (t.read (suc missing) c).1 in
      elim (Result-cases (t.read (suc missing) c).0) [
        | inl (buf, e) ↦ ground (arith, read_payload_ends fuel (suc missing - length buf) d h)
        | inr (inl (x, e)) ↦ ground arith
        | inr (inr (x, e)) ↦ ground (arith, h (suc missing) c)
      ]
