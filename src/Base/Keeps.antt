-- ===== src/Base/Keeps.antt =====
-- Invariants of calls: `m` keeps `P`, however it ends.
use mathlib.Core.Bool.{Bool, true, false}
use yodi.Base.Tests.{if◌then◌else◌}
use yodi.Base.Outcome.{
  Exec, Result, ok, err, halt, Halt, Error, pure, raise, stop, gets, lift, fail_if, ignore,
  continue, ◌>>=◌,
}

pub record Keeps {S A : Type 0} (P : S → Type 0) (m : Exec S A) : Type 0 where
  pub at : (s : S) → P s → P (m s).1

module _ {S A : Type 0} {P : S → Type 0} where
  pub Keeps-pure : (a : A) → Keeps P (pure {S = S} a)
  Keeps-pure a = record { at = λ s h. h }

  pub Keeps-raise : (e : Error) → Keeps P (raise {S = S} {A = A} e)
  Keeps-raise e = record { at = λ s h. h }

  pub Keeps-stop : (x : Halt) → Keeps P (stop {S = S} {A = A} x)
  Keeps-stop x = record { at = λ s h. h }

  pub Keeps-lift : (r : Result A) → Keeps P (lift {S = S} r)
  Keeps-lift r = record { at = λ s h. h }

  pub Keeps-gets : (f : S → A) → Keeps P (gets f)
  Keeps-gets f = record { at = λ s h. h }

  pub Keeps-ignore : (m : Exec S A) → Keeps P m → Keeps P (ignore m)
  Keeps-ignore m k = record { at = k.at }

  pub Keeps-if : (b : Bool) (m n : Exec S A) → Keeps P m → Keeps P n → Keeps P (if b then m else n)
  Keeps-if true m n km kn = km
  Keeps-if false m n km kn = kn

pub Keeps-fail_if :
    {S : Type 0} {P : S → Type 0} (b : Bool) (e : Error) → Keeps P (fail_if {S = S} b e)
Keeps-fail_if true e = record { at = λ s h. h }
Keeps-fail_if false e = record { at = λ s h. h }

module _ {S A B : Type 0} {P : S → Type 0} where
  Keeps-continue :
      (r : Result A) (f : A → Exec S B) → ((a : A) → Keeps P (f a)) → Keeps P (continue r f)
  Keeps-continue (ok a) f k = k a
  Keeps-continue (err e) f k = Keeps-raise e
  Keeps-continue (halt x) f k = Keeps-stop x

  pub Keeps-bind :
      (m : Exec S A) (f : A → Exec S B) → Keeps P m → ((a : A) → Keeps P (f a)) → Keeps P (m >>= f)
  Keeps-bind m f km kf = record { at = λ s h. (Keeps-continue (m s).0 f kf).at (m s).1 (km.at s h) }

pub ruleset keeps_rules = (
  Keeps-pure, Keeps-raise, Keeps-stop, Keeps-lift, Keeps-gets, Keeps-ignore, Keeps-if,
  Keeps-fail_if, Keeps-bind,
)
