-- ===== src/Store/Memory.antt =====
-- pkg/store/memory_store.go, memory_key.go, memory_set.go, memory_map.go, memory_queue.go: the store
-- that lives in memory. Objects stand on a heap, since whoever holds a set, map or queue goes on
-- using it after its key is destroyed. Each method holds its lock from its first statement to its
-- last, so it is one step.
pub mod View
pub mod Calls
pub mod Destroy
pub mod Held
pub mod Instance
pub mod Maps
pub mod Queues
pub mod Sets
pub mod Stale
pub mod Refines
pub mod Use
use yodi.Base.{
  ℕ, ◌≡◌, Bytes, List, [], ◌∷◌, ◌++◌, length, contains, without, set, get_elem?, Option, none, some,
  Bool, ltb, if◌then◌else◌, Exec, Result, ok, err, halt, Halt, Error, for_each, on_part, ◌>>=◌,
  ◌&&◌, not,
}
use yodi.Base.Assoc.{Assoc, lookup, insert, erase, has_key}
use yodi.Store.{Store}

pub data Object : Type 0 where
  memory_set : List Bytes → Object
  memory_queue : List Bytes → Object
  memory_map : Assoc Bytes → Object

pub record MemoryStore : Type 0 where
  pub items : Assoc ℕ
  pub objects : List Object

-- A pointer to an object, with the `memoryKey` in it.
pub record MemoryRef : Type 0 where
  pub address : ℕ
  pub key : Bytes

-- `NewMemoryStore`
abbrev pub new_memory_store : MemoryStore
new_memory_store = record { items = []; objects = [] }

abbrev pub buffer_size : ℕ
buffer_size = 64

unfoldable pub allocate : Object → Bytes → Exec MemoryStore MemoryRef
allocate object key s = (
  ok (record { address = length s.objects; key = key }),
  record { items = insert key (length s.objects) s.items; objects = s.objects ++ (object ∷ []) },
)

-- `set.(*memorySet)` and so on: the type assertions, which panic.
unfoldable pub is_set : Object → Bool
is_set (memory_set _) = Bool.true
is_set _ = Bool.false

unfoldable pub is_queue : Object → Bool
is_queue (memory_queue _) = Bool.true
is_queue _ = Bool.false

unfoldable pub is_map : Object → Bool
is_map (memory_map _) = Bool.true
is_map _ = Bool.false

unfoldable pub assert_type : (Object → Bool) → MemoryRef → Exec MemoryStore MemoryRef
assert_type is r s = elim (get_elem? s.objects r.address) [
  | none ↦ (halt Halt.panics, s)
  | some object ↦ if is object then (ok r, s) else (halt Halt.panics, s)
]

-- `memoryStore.Set`, `Queue` and `Map`, which differ in the new object and the asserted type.
unfoldable pub find_or_add : Object → (Object → Bool) → Bytes → Exec MemoryStore MemoryRef
unfolding allocate assert_type
find_or_add fresh is key s = elim (lookup key s.items) [
  | none ↦ allocate fresh key s
  | some address ↦ assert_type is (record { address = address; key = key }) s
]

module _ {A : Type 0} where
  unfoldable pub write_back : MemoryRef → MemoryStore → Result A × Object → Result A × MemoryStore
  write_back r s (result, object) = (result, record s { objects = set s.objects r.address object })

  -- A method runs on the object behind its pointer. The other cases cannot be written in Go.
  unfoldable pub on_object : (Object → Result A × Object) → MemoryRef → Exec MemoryStore A
  unfolding write_back
  on_object f r s = elim (get_elem? s.objects r.address) [
    | none ↦ (halt Halt.panics, s)
    | some object ↦ write_back r s (f object)
  ]

unfoldable pub memory_add : Bytes → Object → Result (Unit {0}) × Object
memory_add v (memory_set xs) =
    if contains xs v
    then (err Error.value_exists, memory_set xs)
    else (ok tt, memory_set (xs ++ (v ∷ [])))
memory_add v o = (halt Halt.panics, o)

unfoldable pub memory_remove : Bytes → Object → Result (Unit {0}) × Object
memory_remove v (memory_set xs) =
    if contains xs v
    then (ok tt, memory_set (without v xs))
    else (err Error.value_missing, memory_set xs)
memory_remove v o = (halt Halt.panics, o)

unfoldable pub memory_members : Object → Result (List Bytes) × Object
memory_members (memory_set xs) = (ok xs, memory_set xs)
memory_members o = (halt Halt.panics, o)

-- A send on a channel that is full waits.
pub memory_push : Bytes → Object → Result (Unit {0}) × Object
memory_push v (memory_queue xs) =
    if ltb (length xs) buffer_size
    then (ok tt, memory_queue (xs ++ (v ∷ [])))
    else (halt Halt.blocks, memory_queue xs)
memory_push v o = (halt Halt.panics, o)

-- `select` between the context and the channel.
unfoldable pub memory_pop : Bool → Bool → Object → Result Bytes × Object
memory_pop done takes_done (memory_queue []) =
    if done then (err Error.context_done, memory_queue []) else (halt Halt.blocks, memory_queue [])
memory_pop done takes_done (memory_queue (x ∷ xs)) =
    if done && takes_done
    then (err Error.context_done, memory_queue (x ∷ xs))
    else (ok x, memory_queue xs)
memory_pop done takes_done o = (halt Halt.panics, o)

unfoldable pub or_no_key : Option Bytes → Result Bytes
or_no_key none = err Error.no_key
or_no_key (some v) = ok v

unfoldable pub memory_get : Bytes → Object → Result Bytes × Object
unfolding or_no_key
memory_get k (memory_map m) = (or_no_key (lookup k m), memory_map m)
memory_get k o = (halt Halt.panics, o)

unfoldable pub memory_put : Bytes → Bytes → Object → Result (Unit {0}) × Object
memory_put k v (memory_map m) = (ok tt, memory_map (insert k v m))
memory_put k v o = (halt Halt.panics, o)

pub memory_delete : Bytes → Object → Result (Unit {0}) × Object
memory_delete k (memory_map m) =
    if has_key (lookup k m)
    then (ok tt, memory_map (erase k m))
    else (err Error.no_key, memory_map m)
memory_delete k o = (halt Halt.panics, o)

pub memory_entries : Object → Result (Assoc Bytes) × Object
memory_entries (memory_map m) = (ok m, memory_map m)
memory_entries o = (halt Halt.panics, o)

-- `memoryKey.Destroy` and `memoryStore.Destroy`: the key is dropped, the object is not.
unfoldable pub memory_destroy : MemoryRef → Exec MemoryStore (Unit {0})
memory_destroy r s =
    if has_key (lookup r.key s.items)
    then (ok tt, record s { items = erase r.key s.items })
    else (err Error.key_missing, s)

-- `Scan` of a set and of a map, in the order of the list. The lock that it holds meanwhile is a part of Delivery.
abbrev pub memory_scan :
    {W : Type 0}
    → (W → MemoryStore)
    → (W → MemoryStore → W)
    → MemoryRef
    → (Bytes → Exec W (Unit {0}))
    → Exec W (Unit {0})
memory_scan get put r f = on_part get put (on_object memory_members r) >>= λ vs. for_each vs f

abbrev pub memory_map_scan :
    {W : Type 0}
    → (W → MemoryStore)
    → (W → MemoryStore → W)
    → MemoryRef
    → (Bytes → Bytes → Exec W (Unit {0}))
    → Exec W (Unit {0})
memory_map_scan get put r f =
    on_part get put (on_object memory_entries r) >>= λ es. for_each es (λ e. f e.0 e.1)
