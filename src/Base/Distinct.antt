-- ===== src/Base/Distinct.antt =====
-- Lists that hold each of their values once, as the sets of a store do.
use mathlib.Core.Bool.{Bool, true, false}
use mathlib.Core.Path.{◌≡◌}
use mathlib.Core.List.{List, [], ◌∷◌, ◌++◌}
use native.Mathlib.Omega.{arith}
use yodi.Base.Tests.{if◌then◌else◌}
use yodi.Base.Lists.{Bytes, same, same_iff, contains, without, contains-append, contains-without}

-- A set has each of its values once.
abbrev pub Distinct : List Bytes → Type 0
Distinct [] = Unit
Distinct (x ∷ xs) = (contains xs x ≡ false) × Distinct xs

pub append-Distinct :
    (xs : List Bytes) (v : Bytes) → contains xs v ≡ false → Distinct xs → Distinct (xs ++ (v ∷ []))
unfolding contains
append-Distinct [] v n h = ground arith
append-Distinct (x ∷ xs) v n h = (
  ground (arith, h, contains-append xs v x, same_iff v x, same_iff x v),
  append-Distinct xs v (ground (arith, n)) h.1,
)

pub without-Distinct : (v : Bytes) (xs : List Bytes) → Distinct xs → Distinct (without v xs)
unfolding without
without-Distinct v [] h = tt
without-Distinct v (x ∷ xs) h = branch (same x v) (without-Distinct v xs h.1)
  where
    branch :
        (b : Bool)
        → Distinct (without v xs)
        → Distinct (if b then without v xs else x ∷ without v xs)
    branch true rest = rest
    branch false rest = (ground (arith, contains-without v xs x, h), rest)
