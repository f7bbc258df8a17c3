-- ===== src/Base/Gives.antt =====
-- What holds of the value that a call returns, from whatever state.
use mathlib.Core.Bool.{Bool, true, false}
use mathlib.Core.Path.{◌≡◌, refl}
use yodi.Base.Tests.{if◌then◌else◌}
use yodi.Base.Outcome.{
  Exec, Result, ok, err, halt, Halt, Error, pure, raise, stop, lift, fail_if, continue, ◌>>=◌, ◌>>◌,
}

pub record Gives {S A : Type 0} (P : A → Type 0) (m : Exec S A) : Type 0 where
  pub at : (s : S) (a : A) → (m s).0 ≡ ok a → P a

module _ {S A : Type 0} {P : A → Type 0} where
  pub Gives-pure : (a : A) → P a → Gives P (pure {S = S} a)
  Gives-pure a p = record { at = λ s b e. rw⁻¹ (ok_injective e) p }
    where
      value : A → Result A → A
      value d (ok x) = x
      value d r = d

      ok_injective : {x y : A} → ok x ≡ ok y → x ≡ y
      ok_injective {x} e = λ i. value x (e i)

  pub Gives-raise : (x : Error) → Gives P (raise {S = S} x)
  Gives-raise x = record { at = λ s a e. absurd cc }

  pub Gives-stop : (h : Halt) → Gives P (stop {S = S} h)
  Gives-stop h = record { at = λ s a e. absurd cc }

  pub Gives-lift : (r : Result A) → ((a : A) → r ≡ ok a → P a) → Gives P (lift {S = S} r)
  Gives-lift r p = record { at = λ s. p }

  pub Gives-if :
      (b : Bool) (m n : Exec S A)
      → (b ≡ true → Gives P m)
      → (b ≡ false → Gives P n)
      → Gives P (if b then m else n)
  Gives-if true m n km kn = km refl
  Gives-if false m n km kn = kn refl

module _ {S A B : Type 0} {P : A → Type 0} {Q : B → Type 0} where
  pub Gives-bind :
      (m : Exec S A) (f : A → Exec S B)
      → Gives P m
      → ((a : A) → P a → Gives Q (f a))
      → Gives Q (m >>= f)
  Gives-bind m f km kf = record { at = λ s. after (m s).0 (m s).1 (km.at s) }
    where
      after :
          (r : Result A) (u : S)
          → ((a : A) → r ≡ ok a → P a)
          → (b : B) → (continue r f u).0 ≡ ok b
          → Q b
      after (ok a) u k b e = (kf a (k a refl)).at u b e
      after (err x) u k b e = absurd cc
      after (halt h) u k b e = absurd cc

-- What a test that did not fail leaves behind it.
module _ {S B : Type 0} {Q : B → Type 0} where
  pub Gives-after_fail_if :
      (b : Bool) (x : Error) (m : Exec S B) → (b ≡ false → Gives Q m) → Gives Q (fail_if b x >> m)
  Gives-after_fail_if true x m k = record { at = λ s a e. absurd cc }
  Gives-after_fail_if false x m k = record { at = (k refl).at }

pub Gives-any : {S A : Type 0} (m : Exec S A) → Gives (λ a. Unit {0}) m
Gives-any m = record { at = λ s a e. tt }
