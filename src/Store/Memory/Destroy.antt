-- ===== src/Store/Memory/Destroy.antt =====
-- `Destroy` of an object of the memory store: the key is dropped, and the next use of it finds the
-- object of that kind empty.
use yodi.Base.{◌≡◌, Bytes, [], ok, refl, arith, same, same_iff, if◌then◌else◌, ◌>>=◌, ◌∙◌}
use yodi.Base.Assoc.{erase, lookup-erase}
use yodi.Store.Contents
use yodi.Store.Contents.{Contents, Ref, set_ref, queue_ref, map_ref, update}
use yodi.Store.Memory.{MemoryStore, memory_destroy, find_or_add}
use yodi.Store.Memory.View.{
  Kind, sets, queues, maps, fresh, asserts, IsSound, object_at, kind_of-object_at,
}
use yodi.Store.Memory.Use.{find_lem}
use yodi.Store.Memory.Refines.{
  Refines, view, contents_ext, put_object, set_cases, queue_cases, map_cases, put_set, put_queue,
  put_map,
}

-- What `Set(key)`, `Queue(key)` and `Map(key)` return, on the contents.
abbrev pub ref_of : Kind → Bytes → Ref
ref_of sets = set_ref
ref_of queues = queue_ref
ref_of maps = map_ref

module _ (kind : Bytes → Kind) (s : MemoryStore) (k : Bytes) (h : IsSound kind s) where
  dropped : MemoryStore → MemoryStore
  dropped s1 = record s1 { items = erase k s1.items }

  dropped-IsSound : (s1 : MemoryStore) → IsSound kind s1 → IsSound kind (dropped s1)
  unfolding dropped
  dropped-IsSound s1 h1 = record {
    typed = λ j a e. h1.typed j a (ground (arith, lookup-erase k j s1.items));
    apart = λ i j a e e'.
        h1.apart i j a (ground (arith, lookup-erase k i s1.items))
          (ground (arith, lookup-erase k j s1.items));
  }

  object_at-dropped :
      (s1 : MemoryStore) (j : Bytes)
      → object_at kind (dropped s1) j ≡ (if same k j then fresh (kind k) else object_at kind s1 j)
  unfolding dropped object_at
  object_at-dropped s1 j = ground (arith, lookup-erase k j s1.items, same_iff k j)

  -- What the call does for any kind of key.
  destroy_lem :
      let call = (find_or_add (fresh (kind k)) (asserts (kind k)) k >>= memory_destroy) s in
      (call.0 ≡ ok tt)
      × (view kind call.1 ≡ put_object kind (view kind s) k (fresh (kind k)))
      × IsSound kind call.1
  unfolding memory_destroy view put_object dropped
  destroy_lem =
      let found = find_lem kind s k h in
      let s1 = (find_or_add (fresh (kind k)) (asserts (kind k)) k s).1 in
      let run : (find_or_add (fresh (kind k)) (asserts (kind k)) k >>= memory_destroy) s
          ≡ (ok tt, dropped s1) =
        ground (arith, found.returned, found.points, found.key) in
      rw run (
        refl,
        contents_ext _ _ (λ j. ground (arith, object_at-dropped s1 j, found.same_view j))
            (λ j. ground (arith, object_at-dropped s1 j, found.same_view j))
            (λ j. ground (arith, object_at-dropped s1 j, found.same_view j)),
        dropped-IsSound s1 found.sound,
      )

  pub destroy_kind :
      (kd : Kind)
      → kind k ≡ kd
      → Refines kind
          (find_or_add (fresh kd) (asserts kd) k >>= memory_destroy)
          (Contents.destroy (ref_of kd k))
          s
  destroy_kind sets e =
      let (xs, o) = set_cases (object_at kind s k) (kind_of-object_at kind s k h ∙ e) in
      let (answer, effect, sound) = rw e at destroy_lem in
      record { answer = answer; effect = effect ∙ put_set kind s k xs [] o; sound = sound }
  destroy_kind queues e =
      let (xs, o) = queue_cases (object_at kind s k) (kind_of-object_at kind s k h ∙ e) in
      let (answer, effect, sound) = rw e at destroy_lem in
      record { answer = answer; effect = effect ∙ put_queue kind s k xs [] o; sound = sound }
  destroy_kind maps e =
      let (m, o) = map_cases (object_at kind s k) (kind_of-object_at kind s k h ∙ e) in
      let (answer, effect, sound) = rw e at destroy_lem in
      record { answer = answer; effect = effect ∙ put_map kind s k m [] o; sound = sound }

  -- On a memory store in order, `Destroy` of what `Set(key)`, `Queue(key)` or `Map(key)` returns, for
  -- the kind that the key has, succeeds as on the contents, empties what stands under the key and
  -- nothing else, and keeps the store in order.
  pub destroy-Refines :
      Refines kind
        (find_or_add (fresh (kind k)) (asserts (kind k)) k >>= memory_destroy)
        (Contents.destroy (ref_of (kind k) k))
        s
  destroy-Refines = destroy_kind (kind k) refl
