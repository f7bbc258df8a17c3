-- ===== src/Base/Steady.antt =====
-- Calls that never end in a given halt, from states of an invariant, and keep the invariant.
use mathlib.Core.Bool.{Bool, true, false}
use mathlib.Core.Path.{◌≡◌, refl}
use mathlib.Core.Logic.{◌≢◌}
use yodi.Base.Tests.{if◌then◌else◌}
use yodi.Base.Outcome.{
  Exec, Result, ok, err, halt, Halt, Error, pure, raise, stop, gets, lift, fail_if, ignore, forget,
  continue, ◌>>=◌,
}

pub record Steady {S A : Type 0} (P : S → Type 0) (h : Halt) (m : Exec S A) : Type 0 where
  pub at : (s : S) → P s → ((m s).0 ≢ halt h) × P (m s).1

forget-ne : {A : Type 0} {h : Halt} (r : Result A) → r ≢ halt h → forget r ≢ halt h
forget-ne (ok a) n = λ e. cc
forget-ne (err x) n = λ e. cc
forget-ne (halt x) n = λ e. n (cc)

module _ {S A : Type 0} {P : S → Type 0} {h : Halt} where
  pub Steady-pure : (a : A) → Steady P h (pure {S = S} a)
  Steady-pure a = record { at = λ s k. (λ e. cc, k) }

  pub Steady-raise : (e : Error) → Steady P h (raise {S = S} {A = A} e)
  Steady-raise x = record { at = λ s k. (λ e. cc, k) }

  pub Steady-stop : (x : Halt) → x ≢ h → Steady P h (stop {S = S} {A = A} x)
  Steady-stop x n = record { at = λ s k. (λ e. n (cc), k) }

  pub Steady-lift : (r : Result A) → r ≢ halt h → Steady P h (lift {S = S} r)
  Steady-lift r n = record { at = λ s k. (n, k) }

  pub Steady-gets : (f : S → A) → Steady P h (gets f)
  Steady-gets f = record { at = λ s k. (λ e. cc, k) }

  pub Steady-ignore : (m : Exec S A) → Steady P h m → Steady P h (ignore m)
  Steady-ignore m k = record { at = λ s p. (forget-ne (m s).0 (k.at s p).0, (k.at s p).1) }

  pub Steady-if :
      (b : Bool) (m n : Exec S A) → Steady P h m → Steady P h n → Steady P h (if b then m else n)
  Steady-if true m n km kn = km
  Steady-if false m n km kn = kn

pub Steady-fail_if :
    {S : Type 0} {P : S → Type 0} {h : Halt} (b : Bool) (e : Error)
    → Steady P h (fail_if {S = S} b e)
Steady-fail_if true x = record { at = λ s k. (λ e. cc, k) }
Steady-fail_if false x = record { at = λ s k. (λ e. cc, k) }

module _ {S A B : Type 0} {P : S → Type 0} {h : Halt} where
  Steady-continue :
      (r : Result A) (f : A → Exec S B)
      → r ≢ halt h
      → ((a : A) → Steady P h (f a))
      → Steady P h (continue r f)
  Steady-continue (ok a) f n k = k a
  Steady-continue (err x) f n k = Steady-raise x
  Steady-continue (halt x) f n k = Steady-stop x (λ e. n (cc))

  pub Steady-bind :
      (m : Exec S A) (f : A → Exec S B)
      → Steady P h m
      → ((a : A) → Steady P h (f a))
      → Steady P h (m >>= f)
  Steady-bind m f km kf = record {
    at = λ s p. (Steady-continue (m s).0 f (km.at s p).0 kf).at (m s).1 (km.at s p).1;
  }

  -- With what the first call returned.
  pub Steady-bind_ok :
      (m : Exec S A) (f : A → Exec S B)
      → Steady P h m
      → ((s : S) (a : A) → (m s).0 ≡ ok a → Steady P h (f a))
      → Steady P h (m >>= f)
  Steady-bind_ok m f km kf = record { at = λ s p. after s (m s).0 (km.at s p) (λ a e. kf s a e) }
    where
      after :
          (s : S) (r : Result A)
          → (r ≢ halt h) × P (m s).1
          → ((a : A) → r ≡ ok a → Steady P h (f a))
          → ((continue r f (m s).1).0 ≢ halt h) × P (continue r f (m s).1).1
      after s (ok a) p k = (k a refl).at (m s).1 p.1
      after s (err x) p k = (λ e. cc, p.1)
      after s (halt x) p k = (λ e. p.0 (cc), p.1)

pub ruleset steady_rules =
    (Steady-pure, Steady-raise, Steady-gets, Steady-ignore, Steady-if, Steady-fail_if, Steady-bind)
