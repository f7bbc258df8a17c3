-- ===== src/Store/Memory/Stale.antt =====
-- A reference of the memory store and its key: `Queue`, `Set` or `Map` gives one that is held; while its key points to its
-- object, a call on it is a call on the key; from when the key is destroyed on, it works on an object that nobody else sees.
-- memory_store.go and memory_key.go.
use yodi.Base.{
  ℕ, ◌≡◌, ◌≢◌, ◌⊎◌, inl, inr, Bytes, none, some, refl, arith, ap, sym, ◌∙◌, Result, ok, halt, Halt,
  Option-cases, get_elem?, get_elem?-lt, get_elem?-set_ne, [], set,
}
use native.Mathlib.Decide.{ℕ_discrete}
use yodi.Base.Keeps.{Keeps}
use yodi.Base.Assoc.{lookup}
use yodi.Store.Contents.{Contents}
use yodi.Store.Memory.{
  MemoryStore, MemoryRef, Object, memory_queue, is_queue, find_or_add, assert_type, on_object,
  write_back,
}
use yodi.Store.Memory.View.{Kind, queues, IsSound, points_to, asserts_lem, object_at}
use yodi.Store.Memory.Use.{IsFound, find_lem}
use yodi.Store.Memory.Held.{IsHeld}
use yodi.Store.Memory.Refines.{view, contents_ext}

module _ (kind : Bytes → Kind) where
  found-IsHeld :
      {k : Bytes} {s : MemoryStore} {call : Result MemoryRef × MemoryStore}
      (f : IsFound kind k s call)
      → IsHeld f.ref call.1
  found-IsHeld {k} f =
      let (o, there, _) = points_to f.sound k f.ref.address f.points in
      record {
        allocated = get_elem?-lt _ f.ref.address there;
        own = λ j e. f.sound.apart j k f.ref.address e f.points ∙ sym f.key;
      }

  find_queue :
      (s : MemoryStore) (k : Bytes)
      → IsSound kind s
      → kind k ≡ queues
      → IsFound kind k s (find_or_add (memory_queue []) is_queue k s)
  find_queue s k h e = rw e at (find_lem kind s k h)

  -- What `Queue` returns is held, and bears the key.
  pub queue_of-IsHeld :
      (s : MemoryStore) (k : Bytes) (q : MemoryRef)
      → IsSound kind s
      → kind k ≡ queues
      → (find_or_add (memory_queue []) is_queue k s).0 ≡ ok q
      → IsHeld q (find_or_add (memory_queue []) is_queue k s).1 × (q.key ≡ k)
  queue_of-IsHeld s k q h e r =
      let f = find_queue s k h e in
      let same_ref : f.ref ≡ q = cc (f.returned, r) in
      (rw same_ref at (found-IsHeld f), rw same_ref at f.key)

  -- As long as the key points to the object of the reference, `Queue` gives the reference again.
  pub queue_of_current :
      (s : MemoryStore) (q : MemoryRef)
      → IsSound kind s
      → kind q.key ≡ queues
      → lookup q.key s.items ≡ some q.address
      → find_or_add (memory_queue []) is_queue q.key s ≡ (ok q, s)
  unfolding find_or_add assert_type
  queue_of_current s q h e at =
      let (o, there, of) = points_to h q.key q.address at in
      ground (arith, at, there, asserts_lem queues o, of, e)

  -- No key points to the object, and the contents are `v`.
  pub record IsUnseen (q : MemoryRef) (v : Contents) (s : MemoryStore) : Type 0 where
    pub seen : view kind s ≡ v
    pub sound : IsSound kind s
    pub stale : (k : Bytes) → lookup k s.items ≢ some q.address

  -- A reference that is held is of use for its key, or nobody sees its object.
  pub current_or_stale :
      (q : MemoryRef) (s : MemoryStore)
      → IsSound kind s
      → IsHeld q s
      → (lookup q.key s.items ≡ some q.address) ⊎ IsUnseen q (view kind s) s
  current_or_stale q s sound h = elim (Option-cases (lookup q.key s.items)) [
    | inl gone ↦ inr (record {
      seen = refl;
      sound = sound;
      stale = λ k e. cc (e, gone, ap (λ j. lookup j s.items) (h.own k e));
    })
    | inr (a, e) ↦ elim (ℕ_discrete a q.address) [
      | yes here ↦ inl (e ∙ ap some here)
      | no other ↦ inr (record {
        seen = refl;
        sound = sound;
        stale = λ k f. other (ground (arith, f, e, ap (λ j. lookup j s.items) (h.own k f)));
      })
    ]
  ]

  module _ (q : MemoryRef) (v : Contents) (s : MemoryStore) (h : IsUnseen q v s) (o : Object) where
    abbrev written : MemoryStore
    written = record s { objects = set s.objects q.address o }

    elsewhere :
        (j : Bytes) (b : ℕ)
        → lookup j s.items ≡ some b
        → get_elem? written.objects b ≡ get_elem? s.objects b
    elsewhere j b e =
        get_elem?-set_ne s.objects q.address b o (λ p. h.stale j (e ∙ ap some (sym p)))

    same_object : (j : Bytes) → object_at kind written j ≡ object_at kind s j
    unfolding object_at
    same_object j = elim (Option-cases (lookup j s.items)) [
      | inl e ↦ ground (arith, e)
      | inr (b, e) ↦ ground (arith, e, elsewhere j b e)
    ]

    written-IsUnseen : IsUnseen q v written
    unfolding view
    written-IsUnseen = record {
      seen =
          contents_ext _ _ (λ j. ground (arith, same_object j)) (λ j. ground (arith, same_object j))
            (λ j. ground (arith, same_object j))
          ∙ h.seen;
      sound = record {
        typed = λ j b e. rw (elsewhere j b e) (h.sound.typed j b e);
        apart = h.sound.apart;
      };
      stale = h.stale;
    }

  -- A method on it leaves the contents as they are.
  pub on_object-IsUnseen :
      {A : Type 0} (q : MemoryRef) (v : Contents) (f : Object → Result A × Object)
      → Keeps (IsUnseen q v) (on_object f q)
  unfolding on_object write_back
  on_object-IsUnseen {A = A} q v f = record {
    at = λ s h.
        elim (get_elem? s.objects q.address)
          as (λ x.
            IsUnseen q v
              (elim x as (λ _. Result A × MemoryStore) [
                | none ↦ (halt Halt.panics, s)
                | some o ↦ write_back q s (f o)
              ]).1) [ none ↦ h | some o ↦ written-IsUnseen q v s h (f o).1 ];
  }

  -- `Queue` shows nothing new.
  pub queue_of-seen :
      (s : MemoryStore) (k : Bytes)
      → IsSound kind s
      → kind k ≡ queues
      → let after = (find_or_add (memory_queue []) is_queue k s).1 in
        (view kind after ≡ view kind s) × IsSound kind after
  unfolding view
  queue_of-seen s k h e =
      let f = find_queue s k h e in
      (
        contents_ext _ _ (λ j. ground (arith, f.same_view j)) (λ j. ground (arith, f.same_view j))
            (λ j. ground (arith, f.same_view j)),
        f.sound,
      )
