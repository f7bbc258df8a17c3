-- ===== src/Store/Memory/Sets.antt =====
-- The memory store does what the abstract store does, on sets: memory_set.go.
-- Each method is called as the program calls it.
use yodi.Base.{◌≡◌, Bytes, List, [], ◌∷◌, ◌++◌, arith, without, ◌∙◌, ◌>>=◌}
use yodi.Store.Contents
use yodi.Store.Contents.{Contents, contents, update}
use yodi.Store.Memory.{MemoryStore, memory_set, memory_add, memory_remove, memory_members}
use yodi.Store.Memory.View.{Kind, sets, IsSound, object_at, kind_of-object_at}
use yodi.Store.Memory.Use.{use_object}
use yodi.Store.Memory.Instance.{memory}
use yodi.Store.Memory.Refines.{Refines, view, set_cases, put_same, put_set, refine_at}

module _ (kind : Bytes → Kind) where
  module _ (s : MemoryStore) (k : Bytes) (h : IsSound kind s) where
    seen_set :
        kind k ≡ sets
        → (xs : List Bytes) × (object_at kind s k ≡ memory_set xs) × ((view kind s).elements k ≡ xs)
    unfolding view
    seen_set e =
        let (xs, o) = set_cases (object_at kind s k) (kind_of-object_at kind s k h ∙ e) in
        (xs, o, ground arith)

    add-Refines :
        (v : Bytes)
        → kind k ≡ sets
        → Refines kind
            (memory.set_of k >>= λ r. memory.add r v)
            (Contents.add (Contents.set_ref k) v)
            s
    unfolding use_object memory_add
    add-Refines v e =
        let (xs, o, seen) = seen_set e in
        rw e at (
          refine_at kind (memory_add v) (Contents.add (Contents.set_ref k) v) s k h (ground arith)
            (ground arith)
            (ground (arith, put_same kind s k, put_set kind s k xs (xs ++ (v ∷ [])) o)))

    remove-Refines :
        (v : Bytes)
        → kind k ≡ sets
        → Refines kind
            (memory.set_of k >>= λ r. memory.remove r v)
            (Contents.remove (Contents.set_ref k) v)
            s
    unfolding use_object memory_remove
    remove-Refines v e =
        let (xs, o, seen) = seen_set e in
        rw e at (
          refine_at kind (memory_remove v) (Contents.remove (Contents.set_ref k) v) s k h
            (ground arith) (ground arith)
            (ground (arith, put_same kind s k, put_set kind s k xs (without v xs) o)))

    members-Refines :
        kind k ≡ sets
        → Refines kind
            (memory.set_of k >>= memory.members)
            (Contents.members (Contents.set_ref k))
            s
    unfolding use_object memory_members
    members-Refines e =
        let (xs, o, seen) = seen_set e in
        rw e at (
          refine_at kind memory_members (Contents.members (Contents.set_ref k)) s k h (ground arith)
            (ground arith) (ground (arith, put_same kind s k)))

    -- On a memory store in order, under a key for sets, `Add`, `Remove` and `Members` of `Set(key)`
    -- answer as on the contents, leave what they leave there, and keep the store in order.
    pub set-Refines :
        (v : Bytes)
        → kind k ≡ sets
        → Refines kind
            (memory.set_of k >>= λ r. memory.add r v)
            (Contents.add (Contents.set_ref k) v)
            s
          × Refines kind
              (memory.set_of k >>= λ r. memory.remove r v)
              (Contents.remove (Contents.set_ref k) v)
              s
          × Refines kind
              (memory.set_of k >>= memory.members)
              (Contents.members (Contents.set_ref k))
              s
    set-Refines v e = (add-Refines v e, remove-Refines v e, members-Refines e)
