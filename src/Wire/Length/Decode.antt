-- ===== src/Wire/Length/Decode.antt =====
-- `decodeRemainingLength` against the reading of Groups.antt, over any stream of bytes.
use yodi.Base.{
  ℕ, suc, ◌+◌, ◌-◌, ◌*◌, ◌%◌, ◌^◌, ◌≤◌, ◌<◌, ◌≡◌, ◌++◌, Bytes, [], ◌∷◌, Option, none, some, arith,
  All, All-append, ok, err, Error, Result, ltb, refl, ◌∙◌, true, false,
}
use yodi.Base.Bits.{bit_and-low, bit_and-top}
use yodi.Transport.{Transport, IsByteStream}
use yodi.Wire.Length.{encode_remaining_length, decode_loop, decode_remaining_length}
use yodi.Wire.Length.Encode.{IsByte, encode-IsByte}
use yodi.Wire.Length.Groups.{put_group, groups, groups-encode, groups-encode_long}
use native.Mathlib.Decide.{dec_lt}

-- `g` counts from `scale` on, above what `value` holds already.
abbrev scaled : ℕ → ℕ → Option (ℕ × Bytes) → Option (ℕ × Bytes)
scaled value scale none = none
scaled value scale (some (g, rest)) = some (value + g * scale, rest)

scaled-put_group :
    (value scale b : ℕ) (o : Option (ℕ × Bytes))
    → 128 ≤ b
    → b < 256
    → scaled value scale (put_group b o) ≡ scaled (value + b % 128 * scale) (scale * 128) o
scaled-put_group value scale b none lo hi = refl
scaled-put_group value scale b (some (g, rest)) lo hi =
    let low : b - 128 ≡ b % 128 = omega arith in rw low (ground arith)

grows : (m v x : ℕ) → v < m → x < 128 → v + x * m < m * 128
grows m v x hv hx = grind arith

scaled_unit : (o : Option (ℕ × Bytes)) → scaled 0 1 o ≡ o
scaled_unit none = refl
scaled_unit (some (g, rest)) = ground arith

module _ (t : Transport) (s : IsByteStream t) where
  open t use {Conn, read}
  open s use {pending, sent, read_one, read_end}

  -- The call returned the number that was to be read and left the rest unread, or, where there was
  -- none, it failed.
  abbrev pub Decodes : Conn → Result ℕ × Conn → Option (ℕ × Bytes) → Type 0
  Decodes c call (some (v, rest)) =
      (call.0 ≡ ok v) × (pending call.1 ≡ rest) × (sent call.1 ≡ sent c)
  Decodes c call none = (e : Error) × (call.0 ≡ err e)

  Decodes-later :
      (c d : Conn) (call : Result ℕ × Conn) (o : Option (ℕ × Bytes))
      → sent d ≡ sent c
      → Decodes d call o
      → Decodes c call o
  Decodes-later c d call none e h = h
  Decodes-later c d call (some (v, rest)) e (r, p, s') = (r, p, s' ∙ e)

  last_group :
      (rounds m v e b : ℕ) (rest : Bytes) (c : Conn)
      → b < 128
      → m ≤ 16384
      → v < m
      → pending c ≡ b ∷ rest
      → Decodes c (decode_loop t (suc rounds) m v e c) (some (v + b * m, rest))
  unfolding decode_loop
  last_group rounds m v e b rest c hb hm hv p =
      ground (arith, fits, read_one c b rest, bit_and-low b, bit_and-top b)
    where
      fits : v + b * m < 2 ^ 32
      fits = grind arith

  inner_group :
      (rounds m v e b : ℕ) (rest : Bytes) (c : Conn)
      → 128 ≤ b
      → b < 256
      → m ≤ 16384
      → v < m
      → pending c ≡ b ∷ rest
      → decode_loop t (suc rounds) m v e c
        ≡ decode_loop t rounds (m * 128) (v + b % 128 * m) b (read 1 c).1
  unfolding decode_loop
  inner_group rounds m v e b rest c lb hb hm hv p =
      ground (arith, fits, read_one c b rest, bit_and-low b, bit_and-top b)
    where
      fits : v + b % 128 * m < 2 ^ 32
      fits = grind arith

  -- What `rounds` rounds decode, from the multiplier `m` on, when `k` groups are allowed.
  abbrev Rounds : ℕ → ℕ → ℕ → Type 0
  Rounds k rounds m =
      (bs : Bytes) (v e : ℕ) (c : Conn)
      → pending c ≡ bs
      → v < m
      → All IsByte bs
      → Decodes c (decode_loop t rounds m v e c) (scaled v m (groups k bs))

  one_more :
      (k rounds m : ℕ) → m ≤ 16384 → Rounds k rounds (m * 128) → Rounds (suc k) (suc rounds) m
  unfolding groups
  one_more k rounds m small behind [] v e c p hv h =
      let (e', r) = read_end c p in (e', unfold decode_loop in ground arith)
  one_more k rounds m small behind (b ∷ bs) v e c p hv h = elim (dec_lt b 128) [
    | yes low ↦
        let is_last : ltb b 128 ≡ true = ground arith in
        rw is_last (last_group rounds m v e b bs c low small hv p)
    | no high ↦
        let is_inner : ltb b 128 ≡ false = ground arith in
        rw
          (
            is_inner,
            inner_group rounds m v e b bs c (omega arith) h.0 small hv p,
            scaled-put_group v m b (groups k bs) (omega arith) h.0,
          )
          (Decodes-later c (read 1 c).1 _ _ (read_one c b bs p).2 (
            behind bs (v + b % 128 * m) b (read 1 c).1 (read_one c b bs p).1
              (grows m v (b % 128) hv (omega arith)) h.1))
  ]

  -- In the fourth round the multiplier has left its range, whatever the byte.
  fourth_round : Rounds 0 1 2097152
  unfolding decode_loop groups
  fourth_round [] v e c p hv h = let (e', r) = read_end c p in (e', ground arith)
  fourth_round (b ∷ bs) v e c p hv h =
      (Error.malformed_remaining_length, ground (arith, read_one c b bs))

  -- On any stream of bytes `decodeRemainingLength` reads the length that at most three groups encode, leaves what
  -- follows them unread, and fails where there is none.
  pub decode-groups :
      (c : Conn)
      → All IsByte (pending c)
      → Decodes c (decode_remaining_length t c) (groups 3 (pending c))
  unfolding decode_remaining_length
  decode-groups c h = rw scaled_unit at (
      one_more 2 3 1 (omega arith)
        (one_more 1 2 128 (omega arith) (one_more 0 1 16384 (omega arith) fourth_round)) (pending c)
        0 0 c refl (omega arith) h)

  -- Below 2^21, `decodeRemainingLength` reads back the length that `encodeRemainingLength` wrote, and
  -- leaves what follows it unread.
  pub decode-encode :
      (v : ℕ) (rest : Bytes) (c : Conn)
      → v < 2097152
      → All IsByte rest
      → pending c ≡ encode_remaining_length v ++ rest
      → ((decode_remaining_length t c).0 ≡ ok v)
        × (pending (decode_remaining_length t c).1 ≡ rest)
        × (sent (decode_remaining_length t c).1 ≡ sent c)
  decode-encode v rest c h all p =
      rw (p, groups-encode rest v h) at
        (decode-groups c (rw p (All-append IsByte _ rest (encode-IsByte v) all)))

  -- From 2^21 on, `decodeRemainingLength` fails on what `encodeRemainingLength` wrote.
  pub decode-encode_long :
      (v : ℕ) (rest : Bytes) (c : Conn)
      → 2097152 ≤ v
      → All IsByte rest
      → pending c ≡ encode_remaining_length v ++ rest
      → (e : Error) × ((decode_remaining_length t c).0 ≡ err e)
  decode-encode_long v rest c h all p =
      rw (p, groups-encode_long rest v h) at
        (decode-groups c (rw p (All-append IsByte _ rest (encode-IsByte v) all)))
