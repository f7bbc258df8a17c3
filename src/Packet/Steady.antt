-- ===== src/Packet/Steady.antt =====
-- What the readers and writers of packets keep of a connection, and the halts that they never end in:
-- those that no read and no write ends in.
use yodi.Base.{ℕ, zero, suc, ◌-◌, ◌<◌, ◌≤◌, ◌≡◌, Bytes, ◌++◌, length, ok, Halt, arith, Error}
use yodi.Base.Steady.{
  Steady, Steady-bind, Steady-bind_ok, Steady-fail_if, Steady-lift, Steady-pure, steady_rules,
}
use yodi.Transport.{Transport}
use yodi.Wire.Length.{decode_loop, decode_remaining_length}
use yodi.Wire.Header.{Header, get_qos, write_fixed_header_with_flags, write_fixed_header}
use yodi.Wire.Header.Flags.{get_qos-ne-halt}
use yodi.Wire.Binary.{read_full, read_struct}
use yodi.Wire.Text.{read_string}
use yodi.Packet.{
  write_struct, write_connect_ack, write_publish_ack, write_subscribe_ack, write_unsubscribe_ack,
  handle_ping, refuse, read_header, read_payload, read_message_id, parse_publish,
  read_connect_field, next_remaining, parse_connect,
}

module _ (t : Transport) (Q : t.Conn → Type 0) (h : Halt) (reads : (n : ℕ) → Steady Q h (t.read n))
    (progress : (n : ℕ) (c : t.Conn) (bs : Bytes) → (t.read (suc n) c).0 ≡ ok bs → 0 < length bs)
    (writes : (p : Bytes) → Steady Q h (t.write p)) where
  pub decode_loop-Steady : (rounds m v b : ℕ) → Steady Q h (decode_loop t rounds m v b)
  unfolding decode_loop
  decode_loop-Steady zero m v b = search steady_rules
  decode_loop-Steady (suc rounds) m v b =
      Steady-bind (t.read 1) _ (reads 1) (λ buf. search (steady_rules, decode_loop-Steady rounds))

  read_full-Steady : (fuel n : ℕ) → n ≤ fuel → Steady Q h (read_full t fuel n)
  unfolding read_full
  read_full-Steady fuel zero l = search steady_rules
  read_full-Steady zero (suc n) l = absurd (omega arith)
  read_full-Steady (suc fuel) (suc n) l =
      Steady-bind_ok (t.read (suc n)) _ (reads (suc n)) (λ c buf e.
        Steady-bind _ _
          (read_full-Steady fuel (suc n - length buf) (omega (arith, progress n c buf e)))
          (λ rest. Steady-pure (buf ++ rest)))

  pub read_struct-Steady : (n : ℕ) → Steady Q h (read_struct t n)
  unfolding read_struct
  read_struct-Steady n = read_full-Steady n n (omega arith)

  read_payload-Steady : (fuel n : ℕ) → n ≤ fuel → Steady Q h (read_payload t fuel n)
  unfolding read_payload
  read_payload-Steady fuel zero l = search steady_rules
  read_payload-Steady zero (suc n) l = absurd (omega arith)
  read_payload-Steady (suc fuel) (suc n) l =
      Steady-bind_ok (t.read (suc n)) _ (reads (suc n)) (λ c buf e.
        Steady-bind _ _ (Steady-fail_if _ _) (λ _.
          Steady-bind _ _
            (read_payload-Steady fuel (suc n - length buf) (omega (arith, progress n c buf e)))
            (λ rest. Steady-pure (buf ++ rest))))

  get_qos-Steady : (hdr : Header) → Steady Q h (λ c. (get_qos hdr, c))
  get_qos-Steady hdr = Steady-lift (get_qos hdr) (get_qos-ne-halt hdr h)

  pub read_string-Steady : (size : ℕ) → Steady Q h (read_string t size)
  unfolding read_string
  read_string-Steady size = search (steady_rules, reads)

  pub read_header-Steady : Steady Q h (read_header t)
  unfolding read_header decode_remaining_length
  read_header-Steady = search (steady_rules, reads, decode_loop-Steady)

  read_message_id-Steady : (qos : ℕ) → Steady Q h (read_message_id t qos)
  unfolding read_message_id
  read_message_id-Steady qos = search (steady_rules, read_struct-Steady)

  pub parse_publish-Steady : (hdr : Header) → Steady Q h (parse_publish t hdr)
  unfolding parse_publish
  parse_publish-Steady hdr =
      search
        (
          steady_rules,
          read_string-Steady,
          get_qos-Steady,
          read_message_id-Steady,
          λ (n : ℕ). read_payload-Steady n n (omega arith),
        )
        depth 14

  write_fixed_header-Steady : (type n : ℕ) → Steady Q h (write_fixed_header t type n)
  unfolding write_fixed_header write_fixed_header_with_flags
  write_fixed_header-Steady type n = search (steady_rules, writes) depth 8

  write_struct-Steady : (p : Bytes) → Steady Q h (write_struct t p)
  unfolding write_struct
  write_struct-Steady p = search (steady_rules, writes)

  pub write_connect_ack-Steady : (code : ℕ) → Steady Q h (write_connect_ack t code)
  unfolding write_connect_ack
  write_connect_ack-Steady code =
      search (steady_rules, write_fixed_header-Steady, write_struct-Steady)

  pub write_publish_ack-Steady : (id : ℕ) → Steady Q h (write_publish_ack t id)
  unfolding write_publish_ack
  write_publish_ack-Steady id =
      search (steady_rules, write_fixed_header-Steady, write_struct-Steady)

  pub write_subscribe_ack-Steady : (id qos : ℕ) → Steady Q h (write_subscribe_ack t id qos)
  unfolding write_subscribe_ack
  write_subscribe_ack-Steady id qos =
      search (steady_rules, write_fixed_header-Steady, write_struct-Steady)

  pub write_unsubscribe_ack-Steady : (id : ℕ) → Steady Q h (write_unsubscribe_ack t id)
  unfolding write_unsubscribe_ack
  write_unsubscribe_ack-Steady id =
      search (steady_rules, write_fixed_header-Steady, write_struct-Steady)

  pub handle_ping-Steady : Steady Q h (handle_ping t)
  unfolding handle_ping
  handle_ping-Steady = write_fixed_header-Steady _ _

  refuse-Steady : (code : ℕ) (x : Error) → Steady Q h (refuse t code x)
  unfolding refuse
  refuse-Steady code x = search (steady_rules, write_connect_ack-Steady)

  read_connect_field-Steady : (n : ℕ) (x : Error) → Steady Q h (read_connect_field t n x)
  unfolding read_connect_field
  read_connect_field-Steady n x = search (steady_rules, read_string-Steady)

  next_remaining-Steady : (remaining n : ℕ) → Steady Q h (next_remaining t remaining n)
  unfolding next_remaining
  next_remaining-Steady remaining n = search steady_rules

  pub parse_connect-Steady : (hdr : Header) → Steady Q h (parse_connect t hdr)
  unfolding parse_connect
  parse_connect-Steady hdr =
      search
        (
          steady_rules, read_struct-Steady, refuse-Steady, read_connect_field-Steady,
          next_remaining-Steady,
        )
        depth 24
