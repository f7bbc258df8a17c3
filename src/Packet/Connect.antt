-- ===== src/Packet/Connect.antt =====
-- The CONNECT packet, as `readConnect` reads it.
use yodi.Base.{
  Error, ok, ℕ, ◌+◌, ◌-◌, ◌^◌, ◌<◌, ◌≤◌, ◌≡◌, ◌∷◌, ◌++◌, Bytes, codes, length, arith, append_assoc,
  same_self,
}
use Prim.Native.Nat.{bit_and}
use yodi.Transport.{Transport, IsWhole, Reads}
use yodi.Wire.Header.{Header}
use yodi.Wire.Binary.{put_uint16, read_struct, read_struct_lem}
use yodi.Wire.Text.{read_string_lem}
use yodi.Packet.{
  Credentials, mandatory_connect_flags, parse_connect, read_connect_field, next_remaining,
}

abbrev pub text_bytes : Bytes → Bytes
text_bytes p = put_uint16 (length p) ++ p

-- The ten bytes in front of the client ID, with the connect flags and the keep-alive time.
abbrev pub fixed_bytes : ℕ → ℕ → Bytes
fixed_bytes flags keep_alive = 0 ∷ 4 ∷ 77 ∷ 81 ∷ 84 ∷ 84 ∷ 4 ∷ flags ∷ put_uint16 keep_alive

-- The body of a CONNECT packet of MQTT 3.1.1 without a will.
abbrev pub connect_bytes : ℕ → ℕ → Credentials → Bytes
connect_bytes flags keep_alive who =
    fixed_bytes flags keep_alive
    ++ (text_bytes who.client_id ++ (text_bytes who.username ++ text_bytes who.password))

module _ (t : Transport) (w : IsWhole t) where
  open w use {pending}

  field_lem :
      (remaining : ℕ) (x : Error) (p rest : Bytes) (c : t.Conn)
      → 0 < length p
      → length p ≤ remaining
      → pending c ≡ text_bytes p ++ rest
      → Reads w c (read_connect_field t remaining x c) p rest
  unfolding read_connect_field
  field_lem remaining x p rest c h k e =
      ground
        (arith, append_assoc (put_uint16 (length p)) p rest, read_string_lem t w remaining p rest c)

  next_lem :
      (remaining n : ℕ) (c : t.Conn)
      → n + 2 < remaining
      → remaining < 2 ^ 32
      → next_remaining t remaining n c ≡ (ok (remaining - n - 2), c)
  unfolding next_remaining
  next_lem remaining n c h k = ground arith

  -- The body of a CONNECT packet of MQTT 3.1.1 without a will, shorter than 65536 bytes, with the flags
  -- for a user name and a password and no empty string, is read by `readConnect` as what it says, and
  -- what follows it stays unread.
  pub parse_connect_lem :
      (flags keep_alive : ℕ) (who : Credentials) (hdr : Header) (rest : Bytes) (c : t.Conn)
      → bit_and flags mandatory_connect_flags ≡ mandatory_connect_flags
      → 0 < length who.client_id
      → 0 < length who.username
      → 0 < length who.password
      → hdr.message_length ≡ 16 + length who.client_id + length who.username + length who.password
      → hdr.message_length < 65536
      → pending c ≡ connect_bytes flags keep_alive who ++ rest
      → Reads w c (parse_connect t hdr c) who rest
  unfolding parse_connect
  parse_connect_lem flags keep_alive who hdr rest c f h1 h2 h3 l small e =
      let r1 = hdr.message_length - 12 in
      let r2 = r1 - length who.client_id - 2 in
      let r3 = r2 - length who.username - 2 in
      let password : Bytes = text_bytes who.password in
      let username : Bytes = text_bytes who.username in
      let c1 = (read_struct t 10 c).1 in
      let c2 = (read_connect_field t r1 Error.empty_client_id c1).1 in
      let c3 = (read_connect_field t r2 Error.empty_username c2).1 in
      ground (
        arith,
        same_self (codes "MQTT"),
        append_assoc (fixed_bytes flags keep_alive)
            (text_bytes who.client_id ++ (username ++ password)) rest,
        append_assoc (text_bytes who.client_id) (username ++ password) rest,
        append_assoc username password rest,
        read_struct_lem t w (fixed_bytes flags keep_alive)
            (text_bytes who.client_id ++ (username ++ (password ++ rest))) c,
        field_lem r1 Error.empty_client_id who.client_id (username ++ (password ++ rest)) c1,
        next_lem r1 (length who.client_id) c2,
        field_lem r2 Error.empty_username who.username (password ++ rest) c2,
        next_lem r2 (length who.username) c3,
        field_lem r3 Error.empty_password who.password rest c3,
      )
