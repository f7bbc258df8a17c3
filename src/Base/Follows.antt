-- ===== src/Base/Follows.antt =====
-- Calls of one program over two states: `m` on a concrete state answers as `m'` on what is seen of that state.
use mathlib.Core.Path.{◌≡◌, refl, ap, subst, ◌∙◌}
use mathlib.Core.Bool.{Bool, true, false}
use mathlib.Core.List.{List, [], ◌∷◌}
use yodi.Base.Tests.{if◌then◌else◌}
use yodi.Base.Outcome.{
  Exec, Result, ok, err, halt, Halt, Error, pure, raise, stop, lift, fail_if, ignore, forget,
  for_each, on_part, continue, ◌>>=◌,
}

-- The answers are equal, and so is what is seen of the state that is left.
abbrev pub Same : {S T A : Type 0} → (S → T) → (S → Type 0) → Result A × S → Result A × T → Type 0
Same see In x y = (x.0 ≡ y.0) × (see x.1 ≡ y.1) × In x.1

-- `see` is what is seen of a concrete state, for states of which `In` holds.
pub record Follows {S T A : Type 0} (see : S → T) (In : S → Type 0) (m : Exec S A) (m' : Exec T A)
    : Type 0 where
  pub at : (s : S) → In s → Same see In (m s) (m' (see s))

module _ {S T A : Type 0} {see : S → T} {In : S → Type 0} where
  pub Follows-pure : (a : A) → Follows see In (pure a) (pure a)
  Follows-pure a = record { at = λ s h. (refl, refl, h) }

  pub Follows-raise : (e : Error) → Follows {A = A} see In (raise e) (raise e)
  Follows-raise e = record { at = λ s h. (refl, refl, h) }

  pub Follows-stop : (x : Halt) → Follows {A = A} see In (stop x) (stop x)
  Follows-stop x = record { at = λ s h. (refl, refl, h) }

  pub Follows-lift : (r : Result A) → Follows see In (lift r) (lift r)
  Follows-lift r = record { at = λ s h. (refl, refl, h) }

  pub Follows-ignore :
      (m : Exec S A) (m' : Exec T A) → Follows see In m m' → Follows see In (ignore m) (ignore m')
  Follows-ignore m m' k = record {
    at = λ s h. let (answer, effect, kept) = k.at s h in (ap forget answer, effect, kept);
  }

  pub Follows-if :
      (b : Bool) (m n : Exec S A) (m' n' : Exec T A)
      → Follows see In m m'
      → Follows see In n n'
      → Follows see In (if b then m else n) (if b then m' else n')
  Follows-if true m n m' n' km kn = km
  Follows-if false m n m' n' km kn = kn

pub Follows-fail_if :
    {S T : Type 0} {see : S → T} {In : S → Type 0} (b : Bool) (e : Error)
    → Follows see In (fail_if b e) (fail_if b e)
Follows-fail_if true e = record { at = λ s h. (refl, refl, h) }
Follows-fail_if false e = record { at = λ s h. (refl, refl, h) }

module _ {S T A B : Type 0} {see : S → T} {In : S → Type 0} where
  -- From equal answers, and states of which one is what is seen of the other.
  pub Follows-continue :
      (f : A → Exec S B) (f' : A → Exec T B)
      → ((a : A) → Follows see In (f a) (f' a))
      → (r r' : Result A) (s : S) (t : T) → r ≡ r'
      → see s ≡ t
      → In s
      → Same see In (continue r f s) (continue r' f' t)
  Follows-continue f f' k r r' s t e p h =
      subst (λ q. Same see In (continue r f s) (continue q f' t)) e
        (subst (λ u. Same see In (continue r f s) (continue r f' u)) p (same r))
    where
      same : (q : Result A) → Same see In (continue q f s) (continue q f' (see s))
      same (ok a) = (k a).at s h
      same (err x) = (refl, refl, h)
      same (halt x) = (refl, refl, h)

  pub Follows-bind :
      (m : Exec S A) (m' : Exec T A) (f : A → Exec S B) (f' : A → Exec T B)
      → Follows see In m m'
      → ((a : A) → Follows see In (f a) (f' a))
      → Follows see In (m >>= f) (m' >>= f')
  Follows-bind m m' f f' km kf = record {
    at = λ s h.
        let (answer, effect, kept) = km.at s h in
        Follows-continue f f' kf (m s).0 (m' (see s)).0 (m s).1 (m' (see s)).1 answer effect kept;
  }

-- What is made of an answer, whatever it is.
module _ {S T A B : Type 0} {see : S → T} {In : S → Type 0} where
  pub Follows-then :
      (m : Exec S A) (m' : Exec T A) (f : Result A → Exec S B) (f' : Result A → Exec T B)
      → Follows see In m m'
      → ((r : Result A) → Follows see In (f r) (f' r))
      → Follows see In (λ s. f (m s).0 (m s).1) (λ t. f' (m' t).0 (m' t).1)
  Follows-then m m' f f' km kf = record {
    at = λ s h.
        let (answer, effect, kept) = km.at s h in
        subst (λ r. Same see In (f (m s).0 (m s).1) (f' r (m' (see s)).1)) answer
          (subst (λ t. Same see In (f (m s).0 (m s).1) (f' (m s).0 t)) effect
            ((kf (m s).0).at (m s).1 kept));
  }

-- A call that finds a reference and works on it, in two steps or in one.
module _ {S R A B : Type 0} (find : Exec S R) (op : R → Exec S A) (g : A → Exec S B) where
  pub bind_assoc : (s : S) → ((find >>= op) >>= g) s ≡ (find >>= (λ r. op r >>= g)) s
  bind_assoc s = continues (find s).0 (find s).1
    where
      continues :
          (q : Result R) (u : S)
          → continue (continue q op u).0 g (continue q op u).1 ≡ continue q (λ r. op r >>= g) u
      continues (ok r) u = refl
      continues (err e) u = refl
      continues (halt h) u = refl

module _ {S T R R' A B : Type 0} {see : S → T} {In : S → Type 0} where
  pub Follows-call :
      (find : Exec S R) (op : R → Exec S A) (find' : Exec T R') (op' : R' → Exec T A)
      (g : A → Exec S B) (g' : A → Exec T B)
      → Follows see In (find >>= op) (find' >>= op')
      → ((a : A) → Follows see In (g a) (g' a))
      → Follows see In (find >>= (λ r. op r >>= g)) (find' >>= (λ r. op' r >>= g'))
  Follows-call find op find' op' g g' k kg = record {
    at = λ s h.
        subst (λ q. Same see In q ((find' >>= (λ r. op' r >>= g')) (see s)))
          (bind_assoc find op g s)
          (subst (λ q. Same see In (((find >>= op) >>= g) s) q) (bind_assoc find' op' g' (see s))
            ((Follows-bind (find >>= op) (find' >>= op') g g' k kg).at s h));
  }

module _ {S T A : Type 0} {see : S → T} {In : S → Type 0} where
  pub Follows-for_each :
      (xs : List A) (f : A → Exec S (Unit {0})) (f' : A → Exec T (Unit {0}))
      → ((a : A) → Follows see In (f a) (f' a))
      → Follows see In (for_each xs f) (for_each xs f')
  unfolding for_each
  Follows-for_each [] f f' k = Follows-pure tt
  Follows-for_each (x ∷ xs) f f' k =
      Follows-bind (f x) (f' x) _ _ (k x) (λ _. Follows-for_each xs f f' k)

-- A call on a part of the state.
module _ {S T V W A : Type 0} {see : S → T} {In : S → Type 0} {see_all : V → W} {InAll : V → Type 0}
    (get : V → S) (put : V → S → V) (get' : W → T) (put' : W → T → W)
    (seen_part : (v : V) → see (get v) ≡ get' (see_all v))
    (in_part : (v : V) → InAll v → In (get v))
    (seen_put : (v : V) (s : S) → see_all (put v s) ≡ put' (see_all v) (see s))
    (in_put : (v : V) (s : S) → InAll v → In s → InAll (put v s)) where
  pub Follows-on_part :
      (m : Exec S A) (m' : Exec T A)
      → Follows see In m m'
      → Follows see_all InAll (on_part get put m) (on_part get' put' m')
  Follows-on_part m m' k = record {
    at = λ v h.
        let (answer, effect, kept) = k.at (get v) (in_part v h) in
        subst (λ t. Same see_all InAll (on_part get put m v) ((m' t).0, put' (see_all v) (m' t).1))
          (seen_part v)
          (
            answer,
            seen_put v (m (get v)).1 ∙ ap (put' (see_all v)) effect,
            in_put v (m (get v)).1 h kept,
          );
  }

pub ruleset follow_rules = (
  Follows-pure, Follows-raise, Follows-stop, Follows-lift, Follows-ignore, Follows-if,
  Follows-fail_if, Follows-bind,
)
