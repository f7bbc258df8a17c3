-- ===== src/Base/Decimal.antt =====
-- `fmt.Sprintf("%d", n)` of a uint16: at most five digits.
use yodi.Base.Tests.{ltb, if◌then◌else◌}
use yodi.Base.Lists.{Bytes}
use Prim.Native.Nat.{ℕ, zero, suc, ◌+◌, ◌-◌, ◌*◌, ◌/◌, ◌%◌, ◌^◌, ◌<◌}
use mathlib.Core.Path.{◌≡◌, ap, ◌∙◌, sym}
use mathlib.Core.List.{[], ◌∷◌, ◌++◌, foldl, foldl-append}
use native.Mathlib.Omega.{arith}
use native.Mathlib.Nat.{pow-suc}

pub decimal_loop : ℕ → ℕ → Bytes
decimal_loop zero n = []
decimal_loop (suc fuel) n =
    let front = decimal_loop fuel (n / 10) in
    if ltb n 10 then (48 + n) ∷ [] else front ++ ((48 + n % 10) ∷ [])

pub decimal : ℕ → Bytes
unfolding decimal_loop
decimal n = decimal_loop 5 n

abbrev digit : ℕ → ℕ → ℕ
digit acc b = acc * 10 + (b - 48)

-- The number that digits stand for.
value : Bytes → ℕ
value = foldl digit 0

value-decimal_loop : (fuel n : ℕ) → n < 10 ^ fuel → value (decimal_loop fuel n) ≡ n
unfolding value decimal_loop
value-decimal_loop zero n h = omega arith
value-decimal_loop (suc fuel) n h = ground (
  arith,
  pow-suc 10 fuel,
  foldl-append digit 0 (decimal_loop fuel (n / 10)) ((48 + n % 10) ∷ []),
  value-decimal_loop fuel (n / 10),
)

-- Two packet identifiers with the same digits are equal.
pub decimal_injective : (m n : ℕ) → m < 65536 → n < 65536 → decimal m ≡ decimal n → m ≡ n
unfolding decimal
decimal_injective m n hm hn e =
    sym (value-decimal_loop 5 m (omega arith)) ∙ ap value e ∙ value-decimal_loop 5 n (omega arith)
