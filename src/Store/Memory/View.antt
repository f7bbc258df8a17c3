-- ===== src/Store/Memory/View.antt =====
-- What is stored under a key of the memory store, and when the store is in order.
use yodi.Base.{
  ℕ, ◌≡◌, Bytes, List, [], ◌∷◌, ◌++◌, get_elem?, length, Option, none, some, Bool, true, refl,
  arith, same_iff, ap, sym, ◌∙◌, Option-cases, inl, inr, ◌≢◌, ◌⊎◌, get_elem?-append_new,
  get_elem?-append_old, get_elem?-length,
}
use yodi.Base.Assoc.{lookup, insert, lookup-insert}
use yodi.Store.Memory.{
  MemoryStore, Object, memory_set, memory_queue, memory_map, is_set, is_queue, is_map,
}

pub data Kind : Type 0 where
  sets : Kind
  queues : Kind
  maps : Kind

abbrev pub kind_of : Object → Kind
kind_of (memory_set _) = sets
kind_of (memory_queue _) = queues
kind_of (memory_map _) = maps

-- The new object, and the type assertion, of `Set`, `Queue` and `Map`.
abbrev pub fresh : Kind → Object
fresh sets = memory_set []
fresh queues = memory_queue []
fresh maps = memory_map []

abbrev pub asserts : Kind → Object → Bool
asserts sets = is_set
asserts queues = is_queue
asserts maps = is_map

abbrev pub IsOf : Kind → Option Object → Type 0
IsOf kind none = ⊥
IsOf kind (some o) = kind_of o ≡ kind

pub asserts_lem : (kind : Kind) (o : Object) → kind_of o ≡ kind → asserts kind o ≡ true
unfolding is_set is_queue is_map
asserts_lem sets (memory_set _) h = refl
asserts_lem queues (memory_queue _) h = refl
asserts_lem maps (memory_map _) h = refl
asserts_lem _ _ h = cc

-- The kinds of the keys are fixed: every key that is there points to an object of its kind, and no two
-- keys point to one object.
pub record IsSound (kind : Bytes → Kind) (s : MemoryStore) : Type 0 where
  pub typed :
      (k : Bytes) (a : ℕ) → lookup k s.items ≡ some a → IsOf (kind k) (get_elem? s.objects a)
  pub apart : (j k : Bytes) (a : ℕ) → lookup j s.items ≡ some a → lookup k s.items ≡ some a → j ≡ k

kind_of-fresh : (kind : Kind) → kind_of (fresh kind) ≡ kind
kind_of-fresh sets = refl
kind_of-fresh queues = refl
kind_of-fresh maps = refl

-- The object behind a key that is there.
pub points_to :
    {kind : Bytes → Kind} {s : MemoryStore} (h : IsSound kind s) (k : Bytes) (a : ℕ)
    → lookup k s.items ≡ some a
    → (o : Object) × (get_elem? s.objects a ≡ some o) × (kind_of o ≡ kind k)
points_to {s} h k a e = elim (Option-cases (get_elem? s.objects a)) [
  | inl gone ↦ absurd (rw gone at (h.typed k a e))
  | inr (o, there) ↦ (o, there, rw there at (h.typed k a e))
]

module _ {kind : Bytes → Kind} {s : MemoryStore} (h : IsSound kind s) (k : Bytes)
    (new : lookup k s.items ≡ none) where
  abbrev pub grown : MemoryStore
  grown = record {
    items = insert k (length s.objects) s.items;
    objects = s.objects ++ (fresh (kind k) ∷ []);
  }

  -- Another key points where it did, and not to the new object.
  pub grown_old :
      (j : Bytes) (a : ℕ)
      → lookup j s.items ≡ some a
      → (a ≢ length s.objects) × (get_elem? grown.objects a ≡ get_elem? s.objects a)
  grown_old j a e =
      let (o, there, of) = points_to h j a e in
      (
        λ same_place. cc (ap (get_elem? s.objects) same_place, get_elem?-length s.objects),
        get_elem?-append_old s.objects (fresh (kind k) ∷ []) a there ∙ sym there,
      )

  grown_cases :
      (j : Bytes) (b : ℕ)
      → lookup j grown.items ≡ some b
      → (j ≡ k) × (b ≡ length s.objects) ⊎ (lookup j s.items ≡ some b)
  grown_cases j b e = ground (arith, lookup-insert k j (length s.objects) s.items, same_iff k j)

  pub grown-IsSound : IsSound kind grown
  grown-IsSound = record {
    typed = λ j b e. elim (grown_cases j b e) [
      | inl (here, place) ↦
          rw (here, place, get_elem?-append_new s.objects (fresh (kind k))) (kind_of-fresh (kind k))
      | inr old ↦
          let (o, there, of) = points_to h j b old in
          rw (get_elem?-append_old s.objects (fresh (kind k) ∷ []) b there) of
    ];
    apart = λ i j b ei ej. elim (grown_cases i b ei) [
      | inl (here, place) ↦ elim (grown_cases j b ej) [
        | inl (here', place') ↦ here ∙ sym here'
        | inr old ↦ absurd ((grown_old j b old).0 place)
      ]
      | inr old ↦ elim (grown_cases j b ej) [
        | inl (here', place') ↦ absurd ((grown_old i b old).0 place')
        | inr old' ↦ h.apart i j b old old'
      ]
    ];
  }

abbrev pub object_or : Object → Option Object → Object
object_or d none = d
object_or d (some o) = o

abbrev pub resolve : Object → List Object → Option ℕ → Object
resolve d objects none = d
resolve d objects (some a) = object_or d (get_elem? objects a)

module _ (kind : Bytes → Kind) where
  -- The object of a key, or the one that the first use of the key makes.
  unfoldable pub object_at : MemoryStore → Bytes → Object
  object_at s k = resolve (fresh (kind k)) s.objects (lookup k s.items)

  -- It has the kind of the key.
  pub kind_of-object_at :
      (s : MemoryStore) (k : Bytes) → IsSound kind s → kind_of (object_at s k) ≡ kind k
  unfolding object_at
  kind_of-object_at s k h = elim (Option-cases (lookup k s.items)) [
    | inl new ↦ rw new (kind_of-fresh (kind k))
    | inr (a, e) ↦ let (o, there, of) = points_to h k a e in rw (e, there) of
  ]
