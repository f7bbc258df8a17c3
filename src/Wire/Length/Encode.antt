-- ===== src/Wire/Length/Encode.antt =====
-- What `encodeRemainingLength` writes, in plain arithmetic.
use yodi.Base.{ℕ, zero, suc, All, ◌+◌, ◌/◌, ◌%◌, ◌≤◌, ◌<◌, ◌≡◌, [], ◌∷◌, arith}
use native.Mathlib.Decide.{dec_lt}
use yodi.Base.Bits.{bit_or-top}
use yodi.Wire.Length.{encode_loop, encode_remaining_length}

-- The last group, and one group with others behind it.
pub encode_loop_last : (rounds v : ℕ) → v < 128 → encode_loop (suc rounds) v ≡ v ∷ []
unfolding encode_loop
encode_loop_last rounds v h = ground arith

pub encode_loop_more :
    (rounds v : ℕ)
    → 128 ≤ v
    → encode_loop (suc rounds) v ≡ (v % 128 + 128) ∷ encode_loop rounds (v / 128)
unfolding encode_loop
encode_loop_more rounds v h = ground (arith, bit_or-top (v % 128) (omega arith))

abbrev pub IsByte : ℕ → Type 0
IsByte b = b < 256

encode_loop-IsByte : (rounds v : ℕ) → All IsByte (encode_loop rounds v)
encode_loop-IsByte zero v = unfold encode_loop in tt
encode_loop-IsByte (suc rounds) v = elim (dec_lt v 128) [
  | yes p ↦ rw (encode_loop_last rounds v p) (omega arith)
  | no p ↦
      rw (encode_loop_more rounds v (omega arith))
        (omega arith, encode_loop-IsByte rounds (v / 128))
]

pub encode-IsByte : (v : ℕ) → All IsByte (encode_remaining_length v)
unfolding encode_remaining_length
encode-IsByte v = encode_loop-IsByte 4 v
