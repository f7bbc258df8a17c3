-- ===== src/Wire/Header/Flags.antt =====
-- The first byte of a header holds its packet type and its QoS apart.
use yodi.Base.{
  halt, Halt, ◌≢◌, ℕ, zero, suc, ◌+◌, ◌*◌, ◌/◌, ◌%◌, ◌≤◌, ◌<◌, ◌≡◌, Bool, true, false, ok, arith,
  refl, bit_and, if◌then◌else◌, ltb, err, Error,
}
use yodi.Base.Bits.{equal_below, equal_below-eq}
use yodi.Wire.Header.{Header, message_type, get_qos, header_flags}

bit_and-qos : (b : ℕ) → b < 256 → bit_and b 6 ≡ b / 2 % 4 * 2
unfolding equal_below
bit_and-qos = equal_below-eq _ _ 256 refl

abbrev pub flags_sum : ℕ → Bool → ℕ → ℕ
flags_sum qos duplicate type = type * 16 + qos * 2 + (if duplicate then 8 else 0)

flags_table :
    (qos : ℕ) (duplicate : Bool)
    → qos ≤ 1
    → equal_below (λ type. header_flags type qos duplicate) (flags_sum qos duplicate) 16 ≡ true
unfolding equal_below header_flags
flags_table zero false k = refl
flags_table zero true k = refl
flags_table (suc zero) false k = refl
flags_table (suc zero) true k = refl
flags_table (suc (suc qos)) duplicate k = absurd (omega arith)

pub header_flags-sum :
    (type qos : ℕ) (duplicate : Bool)
    → type < 16
    → qos ≤ 1
    → header_flags type qos duplicate ≡ flags_sum qos duplicate type
header_flags-sum type qos duplicate h k =
    equal_below-eq (λ type. header_flags type qos duplicate) (flags_sum qos duplicate) 16
      (flags_table qos duplicate k) type h

pub header_flags-lt :
    (type qos : ℕ) (duplicate : Bool) → type < 16 → qos ≤ 1 → header_flags type qos duplicate < 256
header_flags-lt type qos duplicate h k = rw (header_flags-sum type qos duplicate h k) (ground arith)

-- A header that is written with one of the sixteen packet types and QoS 0 or 1 reads back with that
-- type and that QoS, duplicate or not.
pub header_flags_fields :
    (type qos length : ℕ) (duplicate : Bool)
    → type < 16
    → qos ≤ 1
    → let h : Header = record {
      flags = header_flags type qos duplicate;
      message_length = length;
    } in
      (message_type h ≡ type) × (get_qos h ≡ ok qos)
unfolding message_type get_qos
header_flags_fields type qos length duplicate h k = ground (
  arith,
  header_flags-sum type qos duplicate h k,
  header_flags-lt type qos duplicate h k,
  bit_and-qos (header_flags type qos duplicate),
)

-- `GetQoS` accepts the two levels below 2 and refuses the two above, on every byte.
pub get_qos_lem :
    (h : Header)
    → h.flags < 256
    → get_qos h
      ≡ (if ltb (h.flags / 2 % 4) 2 then ok (h.flags / 2 % 4) else err Error.invalid_qos_level)
unfolding get_qos
get_qos_lem h k = ground (arith, bit_and-qos h.flags)

-- It returns on every header.
pub get_qos-ne-halt : (h : Header) (x : Halt) → get_qos h ≢ halt x
unfolding get_qos
get_qos-ne-halt h x = ground arith
