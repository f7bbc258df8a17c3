-- ===== src/Tests/Wire.antt =====
-- Lengths, headers, strings and PUBLISH packets.
use yodi.Base.{
  length, ◌⊎◌, ◌≤◌, ◌<◌, ℕ, zero, suc, ◌≡◌, ◌∷◌, [], ◌++◌, Bytes, codes, true, false, ok, err,
  Error, refl, arith, ◌>>=◌,
}
use yodi.Message.{QueuedMessage}
use yodi.Transport.{IsWhole-IsByteStream, Reads, Writes}
use yodi.Wire.Length.{encode_loop, encode_remaining_length, decode_loop, decode_remaining_length}
use yodi.Wire.Length.Decode.{Decodes, decode-groups, decode-encode, decode-encode_long}
use yodi.Wire.Length.Groups.{groups}
use yodi.Wire.Header.{Header, header_flags}
use yodi.Wire.Header.MessageType
use yodi.Packet.Connect.{connect_bytes, parse_connect_lem}
use yodi.Packet.Acknowledge.{acknowledge_lem}
use yodi.Packet.{
  parse_connect, write_connect_ack, write_publish_ack, write_subscribe_ack, write_unsubscribe_ack,
  handle_ping, publish, read_header, parse_publish,
}
use yodi.Packet.Publish.{publish_up_to_255, body_bytes, publish_bytes}
use yodi.Packet.Receive.{publication, receive-publish}
use yodi.Tests.Pipe.{alice_logs_in, pipe, pipe-IsWhole, holding, nothing, door}

-- The values of length_test.go.
encode_0 : encode_remaining_length 0 ≡ 0 ∷ []
unfolding encode_remaining_length encode_loop
encode_0 = refl

encode_128 : encode_remaining_length 128 ≡ 128 ∷ 1 ∷ []
unfolding encode_remaining_length encode_loop
encode_128 = refl

encode_2097151 : encode_remaining_length 2097151 ≡ 255 ∷ 255 ∷ 127 ∷ []
unfolding encode_remaining_length encode_loop
encode_2097151 = refl

encode_321 : encode_remaining_length 321 ≡ 193 ∷ 2 ∷ []
unfolding encode_remaining_length encode_loop
encode_321 = refl

decode_321 : (decode_remaining_length pipe (holding (193 ∷ 2 ∷ []))).0 ≡ ok 321
unfolding decode_remaining_length decode_loop
decode_321 = refl

decode_cut : (decode_remaining_length pipe (holding (193 ∷ []))).0 ≡ err Error.eof
unfolding decode_remaining_length decode_loop
decode_cut = refl

decode-groups_example :
    Decodes pipe
      (IsWhole-IsByteStream pipe-IsWhole)
      (holding (193 ∷ 2 ∷ 7 ∷ []))
      (decode_remaining_length pipe (holding (193 ∷ 2 ∷ 7 ∷ [])))
      (groups 3 (193 ∷ 2 ∷ 7 ∷ []))
decode-groups_example =
    decode-groups pipe (IsWhole-IsByteStream pipe-IsWhole) (holding (193 ∷ 2 ∷ 7 ∷ []))
      (omega arith, (omega arith, (omega arith, tt)))

abbrev long_then_7 : Bytes
long_then_7 = encode_remaining_length 321 ++ (7 ∷ [])

decode-encode_example :
    ((decode_remaining_length pipe (holding long_then_7)).0 ≡ ok 321)
    × ((decode_remaining_length pipe (holding long_then_7)).1.pending ≡ 7 ∷ [])
    × ((decode_remaining_length pipe (holding long_then_7)).1.sent ≡ [])
decode-encode_example =
    decode-encode pipe (IsWhole-IsByteStream pipe-IsWhole) 321 (7 ∷ []) (holding long_then_7)
      (omega arith) (omega arith, tt) refl

decode-encode_long_example :
    (e : Error) × ((decode_remaining_length pipe
        (holding (encode_remaining_length 2097152 ++ []))).0
      ≡ err e)
decode-encode_long_example =
    decode-encode_long pipe (IsWhole-IsByteStream pipe-IsWhole) 2097152 []
      (holding (encode_remaining_length 2097152 ++ [])) (omega arith) tt refl

abbrev publish_header : Header
publish_header = record { flags = header_flags MessageType.publish 1 true; message_length = 9 }

abbrev door_then_7 : Bytes
door_then_7 = 0 ∷ 4 ∷ door ++ (7 ∷ [])

abbrev opened : QueuedMessage
opened = record {
  id = 258;
  topic = door;
  message = codes "open";
  qos = 1;
  duplicate = false;
  send_time = 0;
}

receive-publish_example :
    let c = holding ((publish pipe opened nothing).1.sent ++ (192 ∷ 0 ∷ [])) in
    Reads pipe-IsWhole c
      ((read_header pipe >>= parse_publish pipe) c)
      (publication opened)
      (192 ∷ 0 ∷ [])
receive-publish_example =
    receive-publish pipe-IsWhole pipe-IsWhole opened (192 ∷ 0 ∷ []) nothing
      (holding ((publish pipe opened nothing).1.sent ++ (192 ∷ 0 ∷ []))) (omega arith) (omega arith)
      (omega arith) (omega arith) (omega arith) (ground arith) refl refl

abbrev sevens : ℕ → Bytes
sevens zero = []
sevens (suc n) = 7 ∷ sevens n

abbrev big : QueuedMessage
big = record opened { message = sevens 248 }

publish_up_to_255_example :
    (length (body_bytes big) ≤ 255)
      × Writes pipe-IsWhole nothing (publish pipe big nothing) tt (publish_bytes big)
    ⊎ (255 < length (body_bytes big))
      × (publish pipe big nothing ≡ (err Error.message_too_big, nothing))
publish_up_to_255_example = publish_up_to_255 pipe pipe-IsWhole big nothing (omega arith)

acknowledge_lem_example :
    Writes pipe-IsWhole nothing (write_connect_ack pipe 0 nothing) tt (32 ∷ 2 ∷ 0 ∷ 0 ∷ [])
    × Writes pipe-IsWhole nothing (write_publish_ack pipe 258 nothing) tt (64 ∷ 2 ∷ 1 ∷ 2 ∷ [])
    × Writes pipe-IsWhole nothing
        (write_subscribe_ack pipe 258 1 nothing)
        tt
        (144 ∷ 3 ∷ 1 ∷ 2 ∷ 1 ∷ [])
    × Writes pipe-IsWhole nothing (write_unsubscribe_ack pipe 258 nothing) tt (176 ∷ 2 ∷ 1 ∷ 2 ∷ [])
    × Writes pipe-IsWhole nothing (handle_ping pipe nothing) tt (208 ∷ 0 ∷ [])
acknowledge_lem_example = acknowledge_lem pipe pipe-IsWhole nothing 0 258 1

abbrev alice_connects : Bytes
alice_connects = connect_bytes 194 60 alice_logs_in ++ (192 ∷ 0 ∷ [])

parse_connect_lem_example :
    Reads pipe-IsWhole
      (holding alice_connects)
      (parse_connect pipe (record { flags = 16; message_length = 23 }) (holding alice_connects))
      alice_logs_in
      (192 ∷ 0 ∷ [])
parse_connect_lem_example =
    parse_connect_lem pipe pipe-IsWhole 194 60 alice_logs_in
      (record { flags = 16; message_length = 23 }) (192 ∷ 0 ∷ []) (holding alice_connects) refl
      (omega arith) (omega arith) (omega arith) refl (omega arith) refl
