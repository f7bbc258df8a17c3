-- ===== src/Store/Memory/Held.antt =====
-- A reference that a goroutine holds while others work on the memory store: its object stays its own, though its
-- key may come to point to another one. memory_store.go.
use yodi.Base.{
  ◌<◌, ◌≡◌, Bytes, length, some, none, arith, Result, inl, inr, Option-cases, get_elem?, halt, Halt,
  length-append, length-set, ◌∷◌, [], Bool,
}
use yodi.Base.Keeps.{Keeps, Keeps-bind, keeps_rules}
use yodi.Base.Assoc.{lookup, lookup-insert, lookup-erase}
use yodi.Store.Memory.{
  MemoryStore, MemoryRef, Object, allocate, assert_type, find_or_add, on_object, write_back,
  memory_destroy,
}

-- The object is there, and no key but the one of the reference points to it.
pub record IsHeld (r : MemoryRef) (s : MemoryStore) : Type 0 where
  pub allocated : r.address < length s.objects
  pub own : (k : Bytes) → lookup k s.items ≡ some r.address → k ≡ r.key

module _ (r : MemoryRef) where
  -- A new object stands at a new address.
  allocate-IsHeld : (o : Object) (k : Bytes) → Keeps (IsHeld r) (allocate o k)
  unfolding allocate
  allocate-IsHeld o k = record {
    at = λ s h. record {
      allocated = ground (arith, h.allocated, length-append s.objects (o ∷ []));
      own = λ j e.
          h.own j (ground (arith, e, lookup-insert k j (length s.objects) s.items, h.allocated));
    };
  }

  assert_type-IsHeld : (is : Object → Bool) (q : MemoryRef) → Keeps (IsHeld r) (assert_type is q)
  unfolding assert_type
  assert_type-IsHeld is q = record { at = λ s h. ground (arith, h) }

  pub find_or_add-IsHeld :
      (o : Object) (is : Object → Bool) (k : Bytes) → Keeps (IsHeld r) (find_or_add o is k)
  unfolding find_or_add
  find_or_add-IsHeld o is k = record {
    at = λ s h.
        elim (lookup k s.items)
          as (λ v.
            IsHeld r
              (elim v as (λ _. Result MemoryRef × MemoryStore) [
                | none ↦ allocate o k s
                | some a ↦ assert_type is (record { address = a; key = k }) s
              ]).1) [
                | none ↦ (allocate-IsHeld o k).at s h
                | some a ↦ (assert_type-IsHeld is (record { address = a; key = k })).at s h
              ];
  }

  pub on_object-IsHeld :
      {A : Type 0} (f : Object → Result A × Object) (q : MemoryRef)
      → Keeps (IsHeld r) (on_object f q)
  unfolding on_object write_back
  on_object-IsHeld {A = A} f q = record {
    at = λ s h.
        elim (get_elem? s.objects q.address)
          as (λ v.
            IsHeld r
              (elim v as (λ _. Result A × MemoryStore) [
                | none ↦ (halt Halt.panics, s)
                | some o ↦ write_back q s (f o)
              ]).1) [
                | none ↦ h
                | some o ↦ record {
                  allocated = ground (arith, h.allocated, length-set s.objects q.address (f o).1);
                  own = h.own;
                }
              ];
  }

  pub memory_destroy-IsHeld : (q : MemoryRef) → Keeps (IsHeld r) (memory_destroy q)
  unfolding memory_destroy
  memory_destroy-IsHeld q = record {
    at = λ s h. elim (Option-cases (lookup q.key s.items)) [
      | inl e ↦ rw e h
      | inr (a, e) ↦ rw e (record {
        allocated = h.allocated;
        own = λ j f. h.own j (ground (arith, f, lookup-erase q.key j s.items));
      })
    ];
  }

pub ruleset held_rules = (keeps_rules, find_or_add-IsHeld, on_object-IsHeld, memory_destroy-IsHeld)
