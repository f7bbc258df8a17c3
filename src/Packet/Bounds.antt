-- ===== src/Packet/Bounds.antt =====
-- What is known of a PUBLISH and of a CONNECT that `readPublish` and `readConnect` accept, whatever bytes come.
use yodi.Base.{
  ℕ, zero, suc, ◌+◌, ◌-◌, ◌^◌, ◌≤◌, ◌<◌, ◌≡◌, ◌++◌, Bytes, [], ◌∷◌, ok, length, length-append, ◌==◌,
  if◌then◌else◌, arith, refl, All, Error, All-append, not, ltb, leb, same, take, drop, codes,
  head_or, pure, Exec, ◌≢◌, false,
}
use Prim.Native.Nat.{bit_and}
use yodi.Base.Gives.{
  Gives, Gives-pure, Gives-raise, Gives-stop, Gives-if, Gives-bind, Gives-after_fail_if, Gives-any,
}
use yodi.Transport.{Transport, IsReader}
use yodi.Wire.Header.{Header, get_qos}
use yodi.Wire.Binary.{uint16, read_full, read_struct}
use yodi.Wire.Text.{read_string}
use yodi.Packet.{
  read_payload, parse_publish, Publication, Credentials, max_topic_length, read_message_id,
  read_connect_field, next_remaining, parse_connect, sub32, refuse, mandatory_connect_flags,
  refused_not_authorized, refused_unacceptable_protocol_version,
}

uint16-IsUint16 : (bs : Bytes) → All (λ b. b < 256) bs → uint16 bs < 65536
uint16-IsUint16 [] h = omega arith
uint16-IsUint16 (a ∷ []) h = omega arith
uint16-IsUint16 (a ∷ b ∷ bs) h = omega (arith, h.0, h.1.0)

-- The tests of the version and of the flags of a CONNECT.
abbrev version : (t : Transport) → Bytes → Exec (t.Conn) (Unit {0})
version t fixed =
    if head_or 0 (drop 6 fixed) == 4
    then pure tt
    else refuse t refused_unacceptable_protocol_version Error.bad_protocol_version

abbrev flags : (t : Transport) → Bytes → Exec (t.Conn) (Unit {0})
flags t fixed =
    if bit_and (head_or 0 (drop 7 fixed)) mandatory_connect_flags == mandatory_connect_flags
    then pure tt
    else refuse t refused_not_authorized Error.connect_flags_not_set

-- What `readConnect` returns, from what is known of the lengths that remain (`Good`), of the strings that it reads (`Field`),
-- and of a length and what is left of it behind a string (`Left`).
module _ (t : Transport) (Good : ℕ → Type 0) (Field : ℕ → Bytes → Type 0)
    (Left : ℕ → ℕ → ℕ → Type 0)
    (read : (n : ℕ) (x : Error) → Good n → Gives (Field n) (read_connect_field t n x))
    (next : (n : ℕ) (p : Bytes)
      → Good n
      → Field n p
      → Gives (λ n'. Good n' × Left n (length p) n') (next_remaining t n (length p)))
    (hdr : Header) (good : Good (hdr.message_length - 12)) where
  record IsRead (who : Credentials) : Type 0 where
    remaining : ℕ
    remaining' : ℕ
    long : leb hdr.message_length 12 ≡ false
    client_id : Field (hdr.message_length - 12) who.client_id
    behind_id : Left (hdr.message_length - 12) (length who.client_id) remaining
    username : Field remaining who.username
    behind_username : Left remaining (length who.username) remaining'
    password : Field remaining' who.password
    all : not (remaining' == length who.password) ≡ false

  parse_connect-IsRead : Gives IsRead (parse_connect t hdr)
  unfolding parse_connect
  parse_connect-IsRead =
      let n = hdr.message_length - 12 in
      Gives-bind _ _ (Gives-any (read_struct t 10)) (λ fixed u.
        Gives-after_fail_if (not (same (take 4 (drop 2 fixed)) (codes "MQTT"))) _ _ (λ mqtt.
          Gives-bind (version t fixed) _ (Gives-any _) (λ v u.
            Gives-bind (flags t fixed) _ (Gives-any _) (λ v u.
              Gives-after_fail_if (leb hdr.message_length 12) _ _ (λ long.
                Gives-bind _ _ (read n Error.empty_client_id good) (λ id f.
                  Gives-bind _ _ (next n id good f) (λ n' (good', left).
                    Gives-bind _ _ (read n' Error.empty_username good') (λ username f'.
                      Gives-bind _ _ (next n' username good' f') (λ n'' (good'', left').
                        Gives-bind _ _ (read n'' Error.empty_password good'') (λ password f''.
                          Gives-after_fail_if (not (n'' == length password)) _ _ (λ all.
                            Gives-pure _ (record {
                              remaining = n';
                              remaining' = n'';
                              long = long;
                              client_id = f;
                              behind_id = left;
                              username = f';
                              behind_username = left';
                              password = f'';
                              all = all;
                            }))))))))))))

module _ (t : Transport) (r : IsReader t) where
  read-Gives : (n : ℕ) → Gives (λ bs. (length bs ≤ n) × All (λ b. b < 256) bs) (t.read n)
  read-Gives n = record { at = λ c bs e. (r.read_fits n c bs e, r.read_bytes n c bs e) }

  read_full-Gives : (fuel n : ℕ) → Gives (λ bs. All (λ b. b < 256) bs) (read_full t fuel n)
  unfolding read_full
  read_full-Gives fuel zero = Gives-pure [] tt
  read_full-Gives zero (suc n) = Gives-stop _
  read_full-Gives (suc fuel) (suc n) = Gives-bind _ _ (read-Gives (suc n)) (λ buf h.
      Gives-bind _ _ (read_full-Gives fuel (suc n - length buf))
        (λ rest k. Gives-pure (buf ++ rest) (All-append _ buf rest h.1 k)))

  read_string-Gives :
      (size : ℕ) → Gives (λ p. (length p ≤ size) × (length p < 65536)) (read_string t size)
  unfolding read_string
  read_string-Gives size = Gives-bind _ _ (read-Gives 2) (λ buf h.
      Gives-after_fail_if (not (length buf == 2)) _ _ (λ two.
        Gives-after_fail_if (ltb size (uint16 buf)) Error.buffer_too_small (t.read (uint16 buf))
          (λ fits. record {
            at = λ c p e.
                let small = uint16-IsUint16 buf h.1 in
                let few = r.read_fits (uint16 buf) c p e in
                (ground (arith, few, fits), omega (arith, small, few));
          })))

  read_message_id-Gives : (qos : ℕ) → Gives (λ id. (qos ≤ 1) × (id < 65536)) (read_message_id t qos)
  unfolding read_message_id read_struct
  read_message_id-Gives qos =
      Gives-if (qos == 0) _ _ (λ e. Gives-pure 0 (ground (arith, e), omega arith))
        (λ n.
          Gives-if (qos == 1) _ _
            (λ e.
              Gives-bind _ _ (read_full-Gives 2 2)
                (λ buf h. Gives-pure (uint16 buf) (ground (arith, e), uint16-IsUint16 buf h)))
            (λ m. Gives-raise _))

  read_payload-Gives : (fuel n : ℕ) → Gives (λ p. length p ≡ n) (read_payload t fuel n)
  unfolding read_payload
  read_payload-Gives fuel zero = Gives-pure [] refl
  read_payload-Gives zero (suc n) = Gives-stop _
  read_payload-Gives (suc fuel) (suc n) = Gives-bind _ _ (read-Gives (suc n)) (λ buf h.
      Gives-after_fail_if _ _ _ (λ some.
        Gives-bind _ _ (read_payload-Gives fuel (suc n - length buf))
          (λ rest k. Gives-pure (buf ++ rest) (omega (arith, length-append buf rest, h.0, k)))))

  -- The bytes of a PUBLISH in front of its payload.
  abbrev pub publish_header : Publication → ℕ
  publish_header p = length p.topic + 2 + (if p.qos == 0 then 0 else 2)

  -- A topic of 1 to 64 bytes, a QoS of 0 or 1, a packet identifier of 16 bits, a payload, and the length of the header.
  pub record IsPublication (hdr : Header) (p : Publication) : Type 0 where
    pub has_topic : 0 < length p.topic
    pub short_topic : length p.topic ≤ max_topic_length
    pub qos_range : p.qos ≤ 1
    pub id_range : p.message_id < 65536
    pub has_payload : 0 < length p.payload
    pub whole : publish_header p + length p.payload ≡ hdr.message_length

  -- Whatever bytes come over a reader of bytes, a PUBLISH that `readPublish` accepts has a topic of 1 to 64 bytes, a QoS of 0 or
  -- 1, a packet identifier below 2^16, and a payload that is not empty and ends where the header says.
  pub parse_publish-IsPublication :
      (hdr : Header) (c : t.Conn) (p : Publication)
      → (parse_publish t hdr c).0 ≡ ok p
      → IsPublication hdr p
  unfolding parse_publish
  parse_publish-IsPublication hdr c p e = gives.at c p e
    where
      gives : Gives (IsPublication hdr) (parse_publish t hdr)
      gives = Gives-bind _ _ (read_string-Gives max_topic_length) (λ topic (short, _).
          Gives-after_fail_if (length topic == 0) _ _ (λ some.
            Gives-bind _ _ (Gives-any (λ c. (get_qos hdr, c))) (λ qos u.
              Gives-bind _ _ (read_message_id-Gives qos) (λ id (low, small).
                let size = length topic + 2 + (if qos == 0 then 0 else 2) in
                Gives-after_fail_if (leb hdr.message_length size) _ _ (λ more.
                  Gives-bind _ _
                    (read_payload-Gives (hdr.message_length - size) (hdr.message_length - size))
                    (λ payload whole. Gives-pure _ (record {
                      has_topic = ground (arith, some);
                      short_topic = short;
                      qos_range = low;
                      id_range = small;
                      has_payload = ground (arith, more, whole);
                      whole = ground (arith, more, whole);
                    })))))))

  read_connect_field-Gives :
      (remaining : ℕ) (x : Error)
      → Gives (λ p. (0 < length p) × (length p ≤ remaining)) (read_connect_field t remaining x)
  unfolding read_connect_field
  read_connect_field-Gives remaining x =
      Gives-bind _ _ (read_string-Gives remaining) (λ buf (short, _).
        Gives-after_fail_if (length buf == 0) _ _
          (λ some. Gives-pure buf (ground (arith, some), short)))

  next_remaining-Gives :
      (remaining n : ℕ)
      → n ≤ remaining
      → remaining < 2 ^ 32
      → Gives (λ left. (left < 2 ^ 32) × (left + 2 + n ≡ remaining)) (next_remaining t remaining n)
  unfolding next_remaining
  next_remaining-Gives remaining n few small =
      Gives-after_fail_if (leb (sub32 remaining n) 2) _ _
        (λ more. Gives-pure _ (omega arith, ground (arith, more)))

  -- Three strings that are not empty, and the length of the header.
  pub record IsConnect (hdr : Header) (who : Credentials) : Type 0 where
    pub has_id : 0 < length who.client_id
    pub has_username : 0 < length who.username
    pub has_password : 0 < length who.password
    pub whole :
        16 + length who.client_id + length who.username + length who.password ≡ hdr.message_length

  -- Whatever bytes come over a reader of bytes, a CONNECT of less than 2^32 bytes that `readConnect` accepts has a client ID, a
  -- user name and a password, none of them empty, and its three strings fill exactly the length of the header.
  pub parse_connect-IsConnect :
      (hdr : Header) (c : t.Conn) (who : Credentials)
      → hdr.message_length < 2 ^ 32
      → (parse_connect t hdr c).0 ≡ ok who
      → IsConnect hdr who
  parse_connect-IsConnect hdr c who small e =
      let read =
        (parse_connect-IsRead t (λ n. n < 2 ^ 32) (λ n p. (0 < length p) × (length p ≤ n))
            (λ n k left. left + 2 + k ≡ n) (λ n x good. read_connect_field-Gives n x)
            (λ n p good f. next_remaining-Gives n (length p) f.1 good) hdr (omega arith)).at
          c who e in
      record {
        has_id = read.client_id.0;
        has_username = read.username.0;
        has_password = read.password.0;
        whole = ground (arith, read.long, read.behind_id, read.behind_username, read.all);
      }

-- On any connection, a CONNECT that is accepted names its client.
module _ (t : Transport) where
  some_field : (n : ℕ) (x : Error) → Gives (λ p. p ≢ []) (read_connect_field t n x)
  unfolding read_connect_field
  some_field n x = Gives-bind _ _ (Gives-any (read_string t n)) (λ buf u.
      Gives-after_fail_if (length buf == 0) _ _ (λ filled. Gives-pure buf (ground (arith, filled))))

  pub parse_connect-named :
      (hdr : Header) (c : t.Conn) (who : Credentials)
      → (parse_connect t hdr c).0 ≡ ok who
      → who.client_id ≢ []
  parse_connect-named hdr c who e =
      ((parse_connect-IsRead t (λ n. Unit) (λ n p. p ≢ []) (λ n k left. Unit)
          (λ n x u. some_field n x) (λ n p u f. record { at = λ s a e. (tt, tt) }) hdr tt).at
        c who e).client_id
