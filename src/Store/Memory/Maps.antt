-- ===== src/Store/Memory/Maps.antt =====
-- The memory store does what the abstract store does, on maps: memory_map.go.
-- Each method is called as the program calls it.
use yodi.Base.{◌≡◌, Bytes, arith, ◌∙◌, ◌>>=◌}
use yodi.Base.Assoc.{Assoc, insert, erase}
use yodi.Store.Contents
use yodi.Store.Contents.{Contents, contents, update}
use yodi.Store.Memory.{MemoryStore, memory_map, memory_get, memory_put, memory_delete, or_no_key}
use yodi.Store.Memory.View.{Kind, maps, IsSound, object_at, kind_of-object_at}
use yodi.Store.Memory.Use.{use_object}
use yodi.Store.Memory.Instance.{memory}
use yodi.Store.Memory.Refines.{Refines, view, map_cases, put_same, put_map, refine_at}

module _ (kind : Bytes → Kind) where
  module _ (s : MemoryStore) (k : Bytes) (h : IsSound kind s) where
    -- The methods of a map.
    seen_map :
        kind k ≡ maps
        → (m : Assoc Bytes) × (object_at kind s k ≡ memory_map m) × ((view kind s).entries k ≡ m)
    unfolding view
    seen_map e =
        let (m, o) = map_cases (object_at kind s k) (kind_of-object_at kind s k h ∙ e) in
        (m, o, ground arith)

    map_get-Refines :
        (f : Bytes)
        → kind k ≡ maps
        → Refines kind
            (memory.map_of k >>= λ r. memory.map_get r f)
            (Contents.map_get (Contents.map_ref k) f)
            s
    unfolding use_object memory_get or_no_key
    map_get-Refines f e =
        let (m, o, seen) = seen_map e in
        rw e at (
          refine_at kind (memory_get f) (Contents.map_get (Contents.map_ref k) f) s k h
            (ground arith) (ground arith) (ground (arith, put_same kind s k)))

    map_set-Refines :
        (f v : Bytes)
        → kind k ≡ maps
        → Refines kind
            (memory.map_of k >>= λ r. memory.map_set r f v)
            (Contents.map_set (Contents.map_ref k) f v)
            s
    unfolding use_object memory_put
    map_set-Refines f v e =
        let (m, o, seen) = seen_map e in
        rw e at (
          refine_at kind (memory_put f v) (Contents.map_set (Contents.map_ref k) f v) s k h
            (ground arith) (ground arith) (ground (arith, put_map kind s k m (insert f v m) o)))

    map_remove-Refines :
        (f : Bytes)
        → kind k ≡ maps
        → Refines kind
            (memory.map_of k >>= λ r. memory.map_remove r f)
            (Contents.map_remove (Contents.map_ref k) f)
            s
    unfolding use_object memory_delete
    map_remove-Refines f e =
        let (m, o, seen) = seen_map e in
        rw e at (
          refine_at kind (memory_delete f) (Contents.map_remove (Contents.map_ref k) f) s k h
            (ground arith) (ground arith)
            (ground (arith, put_same kind s k, put_map kind s k m (erase f m) o)))

    -- On a memory store in order, under a key for maps, `Get`, `Set` and `Remove` of `Map(key)` answer
    -- as on the contents, leave what they leave there, and keep the store in order.
    pub map-Refines :
        (f v : Bytes)
        → kind k ≡ maps
        → Refines kind
            (memory.map_of k >>= λ r. memory.map_get r f)
            (Contents.map_get (Contents.map_ref k) f)
            s
          × Refines kind
              (memory.map_of k >>= λ r. memory.map_set r f v)
              (Contents.map_set (Contents.map_ref k) f v)
              s
          × Refines kind
              (memory.map_of k >>= λ r. memory.map_remove r f)
              (Contents.map_remove (Contents.map_ref k) f)
              s
    map-Refines f v e = (map_get-Refines f e, map_set-Refines f v e, map_remove-Refines f e)
