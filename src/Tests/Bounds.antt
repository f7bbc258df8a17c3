-- ===== src/Tests/Bounds.antt =====
-- A connection of octets, and packets that come over it.
use yodi.Base.{
  ℕ, zero, suc, ◌≤◌, ◌<◌, ◌%◌, ◌≡◌, ◌∷◌, [], ◌++◌, Bytes, codes, length, take, ok, err, halt,
  Result, All, arith, refl, same,
}
use yodi.Transport.{Transport, IsReader}
use yodi.Wire.Header.{Header, get_qos}
use yodi.Wire.Binary.{read_full, read_struct}
use yodi.Wire.Text.{read_string}
use yodi.Packet.{
  Publication, read_payload, read_message_id, parse_publish, parse_connect, read_connect_field,
  next_remaining, refuse,
}
use yodi.Packet.Bounds.{
  IsPublication, IsConnect, parse_publish-IsPublication, parse_connect-IsConnect,
}
use yodi.Packet.Connect.{connect_bytes}
use yodi.Tests.Pipe.{Pipe, pipe_read, holding, door, alice_logs_in}

-- Each number as a byte.
abbrev octets : Bytes → Bytes
octets [] = []
octets (b ∷ bs) = b % 256 ∷ octets bs

abbrev as_octets : Result Bytes → Result Bytes
as_octets (ok bs) = ok (octets bs)
as_octets r = r

abbrev octet_pipe : Transport
octet_pipe = record {
  Conn = Pipe;
  read = λ n c. let call = pipe_read n c in (as_octets call.0, call.1);
  write = λ p c. (ok (length p), record c { sent = c.sent ++ p });
}

length-octets : (n : ℕ) (bs : Bytes) → length (octets (take n bs)) ≤ n
length-octets zero bs = omega arith
length-octets (suc n) [] = omega arith
length-octets (suc n) (b ∷ bs) = omega (arith, length-octets n bs)

octets-small : (bs : Bytes) → All (λ b. b < 256) (octets bs)
octets-small [] = tt
octets-small (b ∷ bs) = (omega arith, octets-small bs)

fits :
    (n : ℕ) (p s bs : Bytes)
    → as_octets (pipe_read n (record { pending = p; sent = s })).0 ≡ ok bs
    → length bs ≤ n
fits zero p s bs e = ground (arith, e)
fits (suc n) [] s bs e = absurd (ground (arith, e))
fits (suc n) (b ∷ p) s bs e = ground (arith, e, length-octets (suc n) (b ∷ p))

small : (r : Result Bytes) (bs : Bytes) → as_octets r ≡ ok bs → All (λ b. b < 256) bs
small (ok xs) bs e = rw⁻¹ (same_value e) (octets-small xs)
  where
    value : Result Bytes → Bytes
    value (ok x) = x
    value r = []

    same_value : {x y : Bytes} → ok x ≡ ok y → x ≡ y
    same_value e = λ i. value (e i)
small (err x) bs e = absurd cc
small (halt x) bs e = absurd cc

abbrev octet_pipe-IsReader : IsReader octet_pipe
octet_pipe-IsReader = record {
  read_fits = λ n c bs e. fits n c.pending c.sent bs e;
  read_bytes = λ n c bs e. small (pipe_read n c).0 bs e;
}

-- A PUBLISH of "open" for "door", at QoS 1.
abbrev opening : Publication
opening = record { topic = door; payload = codes "open"; message_id = 258; qos = 1 }

abbrev opening_bytes : Bytes
opening_bytes = 0 ∷ 4 ∷ door ++ (1 ∷ 2 ∷ codes "open")

abbrev opening_header : Header
opening_header = record { flags = 50; message_length = 12 }

opening_parses : (parse_publish octet_pipe opening_header (holding opening_bytes)).0 ≡ ok opening
unfolding parse_publish read_string read_message_id read_struct read_full read_payload get_qos
opening_parses = refl

parse_publish-IsPublication_example :
    IsPublication octet_pipe octet_pipe-IsReader opening_header opening
parse_publish-IsPublication_example =
    parse_publish-IsPublication octet_pipe octet_pipe-IsReader opening_header
      (holding opening_bytes) opening opening_parses

alice_parses :
    (parse_connect octet_pipe
      (record { flags = 16; message_length = 23 })
      (holding (connect_bytes 194 60 alice_logs_in))).0
    ≡ ok alice_logs_in
unfolding parse_connect read_string read_struct read_full read_connect_field next_remaining refuse
    same
alice_parses = refl

parse_connect-IsConnect_example :
    IsConnect octet_pipe octet_pipe-IsReader
      (record { flags = 16; message_length = 23 })
      alice_logs_in
parse_connect-IsConnect_example =
    parse_connect-IsConnect octet_pipe octet_pipe-IsReader
      (record { flags = 16; message_length = 23 }) (holding (connect_bytes 194 60 alice_logs_in))
      alice_logs_in (omega arith) alice_parses
