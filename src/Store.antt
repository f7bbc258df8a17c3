-- ===== src/Store.antt =====
-- pkg/store/store.go, set.go, map.go, queue.go: the interfaces `Store`, `Set`, `Map` and `Queue`.
pub mod Contents
pub mod Memory
pub mod Redis
use yodi.Base.{Bytes, List, Bool, Exec}

-- A `Ref` is what `Store.Set`, `Store.Queue` or `Store.Map` returns, and its methods stand here with
-- that reference in front. A callback of a scan works on a state `W` that the store is a part of.
pub record Store : Type 1 where
  pub State : Type 0
  pub Ref : Type 0
  pub set_of : Bytes → Exec State Ref
  pub queue_of : Bytes → Exec State Ref
  pub map_of : Bytes → Exec State Ref
  pub add : Ref → Bytes → Exec State (Unit {0})
  pub remove : Ref → Bytes → Exec State (Unit {0})
  pub members : Ref → Exec State (List Bytes)
  pub scan :
      {W : Type 0}
      → (W → State)
      → (W → State → W)
      → Ref
      → (Bytes → Exec W (Unit {0}))
      → Exec W (Unit {0})
  pub push : Ref → Bytes → Exec State (Unit {0})
  -- The flags say whether the context is done, and which ready case a `select` takes.
  pub pop : Bool → Bool → Ref → Exec State Bytes
  pub map_get : Ref → Bytes → Exec State Bytes
  pub map_set : Ref → Bytes → Bytes → Exec State (Unit {0})
  pub map_remove : Ref → Bytes → Exec State (Unit {0})
  pub map_scan :
      {W : Type 0}
      → (W → State)
      → (W → State → W)
      → Ref
      → (Bytes → Bytes → Exec W (Unit {0}))
      → Exec W (Unit {0})
  pub destroy : Ref → Exec State (Unit {0})
