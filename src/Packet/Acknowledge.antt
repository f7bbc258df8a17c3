-- ===== src/Packet/Acknowledge.antt =====
-- The packets that answer a client: connect_ack.go, publish_ack.go, subscribe_ack.go,
-- unsubscribe_ack.go, and `handlePing` of ping.go.
use yodi.Base.{ok, ℕ, ◌*◌, ◌<◌, ◌≡◌, [], ◌∷◌, ◌++◌, Bytes, length, false, arith, append_assoc}
use yodi.Transport.{Transport, IsWhole, Writes}
use yodi.Wire.Length.{encode_remaining_length}
use yodi.Wire.Length.Encode.{encode_loop_last}
use yodi.Wire.Header.{write_fixed_header}
use yodi.Wire.Header.Flags.{header_flags-sum}
use yodi.Wire.Header.Write.{header_bytes, write_fixed_header_lem}
use yodi.Wire.Binary.{put_uint16}
use yodi.Packet.{
  write_struct, write_connect_ack, write_publish_ack, write_subscribe_ack, write_unsubscribe_ack,
  handle_ping,
}

short_header :
    (type n : ℕ) → type < 16 → n < 128 → header_bytes type n 0 false ≡ (type * 16) ∷ n ∷ []
unfolding encode_remaining_length
short_header type n h k = ground (arith, header_flags-sum type 0 false, encode_loop_last 3 n)

module _ (t : Transport) (w : IsWhole t) (c : t.Conn) where
  -- A header, and the bytes behind it.
  short_packet :
      (type : ℕ) (p : Bytes)
      → type < 16
      → length p < 128
      → let after = (write_fixed_header t type (length p) c).1 in
        (Writes w c (write_fixed_header t type (length p) c) tt ((type * 16) ∷ length p ∷ []))
        × ((write_struct t p after).0 ≡ ok tt)
        × (w.sent (write_struct t p after).1 ≡ w.sent c ++ ((type * 16) ∷ length p ∷ p))
        × (w.pending (write_struct t p after).1 ≡ w.pending c)
  unfolding write_struct
  short_packet type p h k =
      let after = (write_fixed_header t type (length p) c).1 in
      ground (
        arith,
        write_fixed_header_lem t w type (length p) c,
        short_header type (length p) h k,
        w.write_whole p after,
        append_assoc (w.sent c) ((type * 16) ∷ length p ∷ []) p,
      )

  -- On a connection that takes all of its bytes, each answer is the packet of MQTT 3.1.1: CONNACK with
  -- its return code, PUBACK and UNSUBACK with the packet identifier, SUBACK with the identifier and
  -- the QoS, and PINGRESP without a body. Nothing is read.
  pub acknowledge_lem :
      (code id qos : ℕ)
      → Writes w c (write_connect_ack t code c) tt (32 ∷ 2 ∷ 0 ∷ code ∷ [])
        × Writes w c (write_publish_ack t id c) tt (64 ∷ 2 ∷ put_uint16 id)
        × Writes w c (write_subscribe_ack t id qos c) tt (144 ∷ 3 ∷ put_uint16 id ++ (qos ∷ []))
        × Writes w c (write_unsubscribe_ack t id c) tt (176 ∷ 2 ∷ put_uint16 id)
        × Writes w c (handle_ping t c) tt (208 ∷ 0 ∷ [])
  unfolding write_connect_ack write_publish_ack write_subscribe_ack write_unsubscribe_ack
      handle_ping
  acknowledge_lem code id qos = (
    ground (arith, short_packet 2 (0 ∷ code ∷ [])),
    ground (arith, short_packet 4 (put_uint16 id)),
    ground (arith, short_packet 9 (put_uint16 id ++ (qos ∷ []))),
    ground (arith, short_packet 11 (put_uint16 id)),
    ground (arith, write_fixed_header_lem t w 13 0 c, short_header 13 0),
  )
