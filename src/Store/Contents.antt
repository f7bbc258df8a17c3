-- ===== src/Store/Contents.antt =====
-- An abstract store, behind the interfaces of pkg/store: for each key a set, a queue and a map, as functions of the
-- key, and each operation as an update at one key. The development compares `memoryStore` with it. Its queues have a capacity,
-- as those of `memoryStore` do: where one is full, `push` waits, though the comment of `Queue` calls it non-blocking.
use yodi.Base.{
  ℕ, Bytes, List, [], ◌∷◌, ◌++◌, length, contains, without, same, none, some, Bool, ltb, ◌&&◌,
  if◌then◌else◌, Exec, Result, ok, err, halt, Halt, Error, pure, on_part, for_each, ◌>>=◌,
}
use yodi.Base.Assoc.{Assoc, lookup, insert, erase, has_key}
use yodi.Store.{Store}

pub record Contents : Type 0 where
  pub elements : Bytes → List Bytes
  pub queued : Bytes → List Bytes
  pub entries : Bytes → Assoc Bytes

pub data Ref : Type 0 where
  set_ref : Bytes → Ref
  queue_ref : Bytes → Ref
  map_ref : Bytes → Ref

abbrev pub update : {A : Type 0} → (Bytes → A) → Bytes → A → Bytes → A
update f k a j = if same k j then a else f j

abbrev pub empty : Contents
empty = record { elements = λ k. []; queued = λ k. []; entries = λ k. [] }

abbrev pub add : Ref → Bytes → Exec Contents (Unit {0})
add (set_ref k) v s =
    if contains (s.elements k) v
    then (err Error.value_exists, s)
    else (ok tt, record s { elements = update s.elements k (s.elements k ++ (v ∷ [])) })
add r v s = (halt Halt.panics, s)

abbrev pub remove : Ref → Bytes → Exec Contents (Unit {0})
remove (set_ref k) v s =
    if contains (s.elements k) v
    then (ok tt, record s { elements = update s.elements k (without v (s.elements k)) })
    else (err Error.value_missing, s)
remove r v s = (halt Halt.panics, s)

abbrev pub members : Ref → Exec Contents (List Bytes)
members (set_ref k) s = (ok (s.elements k), s)
members r s = (halt Halt.panics, s)

-- `capacity` is the number of values that a queue takes before a push waits.
abbrev pub push : ℕ → Ref → Bytes → Exec Contents (Unit {0})
push capacity (queue_ref k) v s =
    if ltb (length (s.queued k)) capacity
    then (ok tt, record s { queued = update s.queued k (s.queued k ++ (v ∷ [])) })
    else (halt Halt.blocks, s)
push capacity r v s = (halt Halt.panics, s)

abbrev pop_first : Bool → Bool → Bytes → Contents → List Bytes → Result Bytes × Contents
pop_first done takes_done k s [] =
    if done then (err Error.context_done, s) else (halt Halt.blocks, s)
pop_first done takes_done k s (v ∷ rest) =
    if done && takes_done
    then (err Error.context_done, s)
    else (ok v, record s { queued = update s.queued k rest })

abbrev pub pop : Bool → Bool → Ref → Exec Contents Bytes
pop done takes_done (queue_ref k) s = pop_first done takes_done k s (s.queued k)
pop done takes_done r s = (halt Halt.panics, s)

abbrev pub map_get : Ref → Bytes → Exec Contents Bytes
map_get (map_ref k) f s =
    (elim (lookup f (s.entries k)) [ none ↦ err Error.no_key | some v ↦ ok v ], s)
map_get r f s = (halt Halt.panics, s)

abbrev pub map_set : Ref → Bytes → Bytes → Exec Contents (Unit {0})
map_set (map_ref k) f v s =
    (ok tt, record s { entries = update s.entries k (insert f v (s.entries k)) })
map_set r f v s = (halt Halt.panics, s)

abbrev pub map_remove : Ref → Bytes → Exec Contents (Unit {0})
map_remove (map_ref k) f s =
    if has_key (lookup f (s.entries k))
    then (ok tt, record s { entries = update s.entries k (erase f (s.entries k)) })
    else (err Error.no_key, s)
map_remove r f s = (halt Halt.panics, s)

abbrev pub map_entries : Ref → Exec Contents (Assoc Bytes)
map_entries (map_ref k) s = (ok (s.entries k), s)
map_entries r s = (halt Halt.panics, s)

abbrev pub destroy : Ref → Exec Contents (Unit {0})
destroy (set_ref k) s = (ok tt, record s { elements = update s.elements k [] })
destroy (queue_ref k) s = (ok tt, record s { queued = update s.queued k [] })
destroy (map_ref k) s = (ok tt, record s { entries = update s.entries k [] })

-- The contents as a store.
abbrev pub contents : ℕ → Store
contents capacity = record {
  State = Contents;
  Ref = Ref;
  set_of = λ k. pure (set_ref k);
  queue_of = λ k. pure (queue_ref k);
  map_of = λ k. pure (map_ref k);
  add = add;
  remove = remove;
  members = members;
  scan = λ get put r f. on_part get put (members r) >>= λ vs. for_each vs f;
  push = push capacity;
  pop = pop;
  map_get = map_get;
  map_set = map_set;
  map_remove = map_remove;
  map_scan = λ get put r f. on_part get put (map_entries r) >>= λ es. for_each es (λ e. f e.0 e.1);
  destroy = destroy;
}
