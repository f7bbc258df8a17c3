-- ===== src/Wire/Length/Groups.antt =====
-- An independent reading of the remaining length: at most `limit` groups of seven bits, the lowest
-- first, each but the last with its top bit set.
use yodi.Base.{
  ℕ, zero, suc, ◌+◌, ◌-◌, ◌*◌, ◌/◌, ◌^◌, ◌≤◌, ◌<◌, ◌≡◌, ◌++◌, refl, Bytes, [], ◌∷◌, ltb,
  if◌then◌else◌, Option, none, some, arith,
}
use native.Mathlib.Nat.{pow-suc, one-le-pow}
use native.Mathlib.Decide.{dec_lt}
use yodi.Wire.Length.{encode_loop, encode_remaining_length}
use yodi.Wire.Length.Encode.{encode_loop_last, encode_loop_more}

-- A group `b` with its top bit set, in front of the groups behind it.
abbrev pub put_group : ℕ → Option (ℕ × Bytes) → Option (ℕ × Bytes)
put_group b none = none
put_group b (some (v, rest)) = some (b - 128 + 128 * v, rest)

unfoldable pub groups : ℕ → Bytes → Option (ℕ × Bytes)
groups zero bs = none
groups (suc limit) [] = none
groups (suc limit) (b ∷ bs) = if ltb b 128 then some (b, bs) else put_group b (groups limit bs)

module _ (rest : Bytes) where
  -- An encoding of at most `limit + 1` groups reads back, whatever follows it.
  groups-encode_loop :
      (limit rounds v : ℕ)
      → limit ≤ rounds
      → v < 128 ^ suc limit
      → groups (suc limit) (encode_loop (suc rounds) v ++ rest) ≡ some (v, rest)
  unfolding groups
  groups-encode_loop zero rounds v l h = rw (encode_loop_last rounds v (omega arith)) (ground arith)
  groups-encode_loop (suc limit) zero v l h = absurd (omega arith)
  groups-encode_loop (suc limit) (suc rounds) v l h = elim (dec_lt v 128) [
    | yes p ↦ rw (encode_loop_last (suc rounds) v p) (ground arith)
    | no p ↦
        rw (encode_loop_more (suc rounds) v (omega arith))
          (ground (arith, pow-suc 128 (suc limit), groups-encode_loop limit rounds (v / 128)))
  ]

  -- A longer one does not.
  groups-encode_loop_long :
      (limit rounds v : ℕ)
      → limit ≤ rounds
      → 128 ^ limit ≤ v
      → groups limit (encode_loop rounds v ++ rest) ≡ none
  unfolding groups
  groups-encode_loop_long zero rounds v l h = refl
  groups-encode_loop_long (suc limit) zero v l h = absurd (omega arith)
  groups-encode_loop_long (suc limit) (suc rounds) v l h =
      let lower : 128 ≤ v = omega (arith, pow-suc 128 limit, one-le-pow limit 128 (omega arith)) in
      rw (encode_loop_more rounds v lower)
        (ground (arith, pow-suc 128 limit, groups-encode_loop_long limit rounds (v / 128)))

  pub groups-encode :
      (v : ℕ) → v < 2097152 → groups 3 (encode_remaining_length v ++ rest) ≡ some (v, rest)
  unfolding encode_remaining_length
  groups-encode v h = groups-encode_loop 2 3 v (omega arith) h

  pub groups-encode_long :
      (v : ℕ) → 2097152 ≤ v → groups 3 (encode_remaining_length v ++ rest) ≡ none
  unfolding encode_remaining_length
  groups-encode_long v h = groups-encode_loop_long 3 4 v (omega arith) h
