-- ===== src/Base/Bits.antt =====
-- Masks on one byte as arithmetic, from a table of its 256 values.
use Prim.Native.Nat.{ℕ, zero, suc, ◌+◌, ◌*◌, ◌/◌, ◌%◌, ◌<◌, bit_and, bit_or}
use mathlib.Core.Path.{◌≡◌, refl}
use mathlib.Core.Bool.{Bool, true, ◌&&◌}
use native.Mathlib.Omega.{arith}
use yodi.Base.Tests.{◌==◌}

module _ (f g : ℕ → ℕ) where
  unfoldable pub equal_below : ℕ → Bool
  equal_below zero = true
  equal_below (suc n) = f n == g n && equal_below n

  pub equal_below-eq : (n : ℕ) → equal_below n ≡ true → (i : ℕ) → i < n → f i ≡ g i
  unfolding equal_below
  equal_below-eq zero e i h = absurd (omega arith)
  equal_below-eq (suc n) e i h = ground (arith, equal_below-eq n (ground arith) i)

pub bit_and-low : (b : ℕ) → b < 256 → bit_and b 127 ≡ b % 128
unfolding equal_below
bit_and-low = equal_below-eq _ _ 256 refl

pub bit_and-top : (b : ℕ) → b < 256 → bit_and b 128 ≡ b / 128 * 128
unfolding equal_below
bit_and-top = equal_below-eq _ _ 256 refl

pub bit_or-top : (b : ℕ) → b < 128 → bit_or b 128 ≡ b + 128
unfolding equal_below
bit_or-top = equal_below-eq _ _ 128 refl
