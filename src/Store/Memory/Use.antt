-- ===== src/Store/Memory/Use.antt =====
-- A method on the object of a key, as the program writes it: `store.Set(key).Add(…)`. It finds or makes
-- the object, runs on it, and leaves the objects of other keys alone.
use yodi.Base.{
  ℕ, ◌≡◌, Bytes, [], ◌∷◌, ◌++◌, get_elem?, set, length, none, some, refl, arith, Exec, Result, ok,
  same, same_iff, if◌then◌else◌, Option-cases, inl, inr, sym, ◌∙◌, ◌>>=◌, get_elem?-append_new,
  get_elem?-set_self, get_elem?-set_ne,
}
use native.Mathlib.Decide.{ℕ_discrete}
use yodi.Base.Assoc.{lookup, insert, lookup-insert}
use yodi.Store.Memory.{MemoryStore, MemoryRef, Object, find_or_add, on_object, write_back}
use yodi.Store.Memory.View.{
  Kind, kind_of, fresh, asserts, asserts_lem, IsSound, points_to, grown-IsSound, grown_old,
  object_at,
}

module _ (kind : Bytes → Kind) where
  -- `find_or_add` returns the pointer of the key, and shows nothing new.
  pub record IsFound (k : Bytes) (s : MemoryStore) (call : Result MemoryRef × MemoryStore)
      : Type 0 where
    pub ref : MemoryRef
    pub returned : call.0 ≡ ok ref
    pub key : ref.key ≡ k
    pub points : lookup k call.1.items ≡ some ref.address
    pub sound : IsSound kind call.1
    pub same_view : (j : Bytes) → object_at kind call.1 j ≡ object_at kind s j

  find_old :
      (s : MemoryStore) (k : Bytes) (a : ℕ)
      → IsSound kind s
      → lookup k s.items ≡ some a
      → IsFound k s (find_or_add (fresh (kind k)) (asserts (kind k)) k s)
  unfolding find_or_add
  find_old s k a h e = elim (Option-cases (get_elem? s.objects a)) [
    | inl gone ↦ absurd (rw gone at (h.typed k a e))
    | inr (o, there) ↦
        let of : kind_of o ≡ kind k = rw there at (h.typed k a e) in
        let run : find_or_add (fresh (kind k)) (asserts (kind k)) k s
            ≡ (ok (record { address = a; key = k }), s) =
          ground (arith, asserts_lem (kind k) o) in
        rw run (record {
          ref = record { address = a; key = k };
          returned = refl;
          key = refl;
          points = e;
          sound = h;
          same_view = λ j. refl;
        })
  ]

  find_new :
      (s : MemoryStore) (k : Bytes)
      → IsSound kind s
      → lookup k s.items ≡ none
      → IsFound k s (find_or_add (fresh (kind k)) (asserts (kind k)) k s)
  unfolding find_or_add object_at
  find_new s k h e =
      let n = length s.objects in
      let s' : MemoryStore = record {
        items = insert k n s.items;
        objects = s.objects ++ (fresh (kind k) ∷ []);
      } in
      let run : find_or_add (fresh (kind k)) (asserts (kind k)) k s
          ≡ (ok (record { address = n; key = k }), s') =
        ground arith in
      rw run (record {
        ref = record { address = n; key = k };
        returned = refl;
        key = refl;
        points = ground (arith, lookup-insert k k n s.items, same_iff k k);
        sound = grown-IsSound h k e;
        same_view = λ j. elim (Option-cases (lookup j s.items)) [
          | inl none_there ↦ ground (
            arith,
            lookup-insert k j n s.items,
            same_iff k j,
            get_elem?-append_new s.objects (fresh (kind k)),
          )
          | inr (a, there) ↦
              ground (arith, lookup-insert k j n s.items, same_iff k j, grown_old h k e j a there)
        ];
      })

  pub find_lem :
      (s : MemoryStore) (k : Bytes)
      → IsSound kind s
      → IsFound k s (find_or_add (fresh (kind k)) (asserts (kind k)) k s)
  find_lem s k h = elim (Option-cases (lookup k s.items)) [
    | inl new ↦ find_new s k h new
    | inr (a, there) ↦ find_old s k a h there
  ]

  module _ (s : MemoryStore) (k : Bytes) (a : ℕ) (h : IsSound kind s)
      (points : lookup k s.items ≡ some a) (o : Object) where
    abbrev written : MemoryStore
    written = record s { objects = set s.objects a o }

    object_at-written :
        (j : Bytes) → object_at kind written j ≡ (if same k j then o else object_at kind s j)
    unfolding object_at
    object_at-written j =
        let (u, there, of) = points_to h k a points in
        elim (Option-cases (lookup j s.items)) [
          | inl new ↦ ground (arith, same_iff k j, get_elem?-set_self s.objects a {u = u} o there)
          | inr (b, e) ↦ ground (
            arith,
            same_iff k j,
            get_elem?-set_self s.objects a {u = u} o there,
            get_elem?-set_ne s.objects a b o,
            λ (same_place : a ≡ b). h.apart k j b (rw (← same_place) points) e,
          )
        ]

    written-IsSound : kind_of o ≡ kind k → IsSound kind written
    written-IsSound of = record {
      typed = λ j b e. elim (ℕ_discrete a b) [
        | yes here ↦
            let (u, there, _) = points_to h k a points in
            let j_is_k : j ≡ k = h.apart j k b e (rw (← here) points) in
            rw (← here, get_elem?-set_self s.objects a {u = u} o there, j_is_k) of
        | no other ↦ rw (get_elem?-set_ne s.objects a b o other) (h.typed j b e)
      ];
      apart = h.apart;
    }

  object_at_old :
      (s : MemoryStore) (k : Bytes) (a : ℕ) (o : Object)
      → lookup k s.items ≡ some a
      → get_elem? s.objects a ≡ some o
      → object_at kind s k ≡ o
  unfolding object_at
  object_at_old s k a o e there = ground arith

  -- The call as a whole, for a method `f` that keeps the kind of its object.
  module _ {A : Type 0} (f : Object → Result A × Object) where
    unfoldable pub use_object : Bytes → Exec MemoryStore A
    use_object k = find_or_add (fresh (kind k)) (asserts (kind k)) k >>= on_object f

    on_object_run :
        (r : MemoryRef) (s : MemoryStore) (o : Object)
        → get_elem? s.objects r.address ≡ some o
        → on_object f r s ≡ ((f o).0, record s { objects = set s.objects r.address (f o).1 })
    unfolding on_object write_back
    on_object_run r s o e = ground arith

    pub use_object_lem :
        (s : MemoryStore) (k : Bytes)
        → IsSound kind s
        → kind_of (f (object_at kind s k)).1 ≡ kind k
        → let call = use_object k s in
          (call.0 ≡ (f (object_at kind s k)).0)
          × IsSound kind call.1
          × ((j : Bytes)
              → object_at kind call.1 j
                ≡ (if same k j then (f (object_at kind s k)).1 else object_at kind s j))
    unfolding use_object
    use_object_lem s k h of =
        let found = find_lem s k h in
        let s1 = (find_or_add (fresh (kind k)) (asserts (kind k)) k s).1 in
        let a = found.ref.address in
        let (o, there, _) = points_to found.sound k a found.points in
        let seen : object_at kind s1 k ≡ o = object_at_old s1 k a o found.points there in
        let same_object : o ≡ object_at kind s k = sym seen ∙ found.same_view k in
        let kept : kind_of (f o).1 ≡ kind k = rw same_object of in
        let run : use_object k s ≡ ((f o).0, written s1 k a found.sound found.points (f o).1) =
          ground (arith, found.returned, there, on_object_run found.ref s1 o) in
        rw (run, ← same_object)
          (
            refl,
            written-IsSound s1 k a found.sound found.points (f o).1 kept,
            λ j.
                object_at-written s1 k a found.sound found.points (f o).1 j
                ∙ rw (found.same_view j),
          )
