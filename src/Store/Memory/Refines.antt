-- ===== src/Store/Memory/Refines.antt =====
-- The contents of a memory store, and what a method on one object means for them.
use yodi.Base.{◌≡◌, Bytes, List, [], refl, arith, Exec, Result, same_iff, ◌∙◌}
use mathlib.Core.Path.{fun_ext}
use yodi.Base.Assoc.{Assoc}
use yodi.Store.Contents.{Contents, update}
use yodi.Store.Memory.{MemoryStore, Object, memory_set, memory_queue, memory_map}
use yodi.Store.Memory.View.{Kind, sets, queues, maps, kind_of, IsSound, object_at}
use yodi.Store.Memory.Use.{use_object, use_object_lem}

abbrev pub elements_of : Object → List Bytes
elements_of (memory_set xs) = xs
elements_of _ = []

abbrev pub queued_of : Object → List Bytes
queued_of (memory_queue xs) = xs
queued_of _ = []

abbrev pub entries_of : Object → Assoc Bytes
entries_of (memory_map m) = m
entries_of _ = []

pub contents_ext :
    (c d : Contents)
    → ((k : Bytes) → c.elements k ≡ d.elements k)
    → ((k : Bytes) → c.queued k ≡ d.queued k)
    → ((k : Bytes) → c.entries k ≡ d.entries k)
    → c ≡ d
contents_ext c d es qs ms =
    λ i. record { elements = fun_ext es i; queued = fun_ext qs i; entries = fun_ext ms i }

pub set_cases : (o : Object) → kind_of o ≡ sets → (xs : List Bytes) × (o ≡ memory_set xs)
set_cases (memory_set xs) h = (xs, refl)
set_cases (memory_queue _) h = cc
set_cases (memory_map _) h = cc

pub queue_cases : (o : Object) → kind_of o ≡ queues → (xs : List Bytes) × (o ≡ memory_queue xs)
queue_cases (memory_queue xs) h = (xs, refl)
queue_cases (memory_set _) h = cc
queue_cases (memory_map _) h = cc

pub map_cases : (o : Object) → kind_of o ≡ maps → (m : Assoc Bytes) × (o ≡ memory_map m)
map_cases (memory_map m) h = (m, refl)
map_cases (memory_set _) h = cc
map_cases (memory_queue _) h = cc

module _ (kind : Bytes → Kind) where
  unfoldable pub view : MemoryStore → Contents
  view s = record {
    elements = λ k. elements_of (object_at kind s k);
    queued = λ k. queued_of (object_at kind s k);
    entries = λ k. entries_of (object_at kind s k);
  }

  -- What one object under a key means for the contents.
  unfoldable pub put_object : Contents → Bytes → Object → Contents
  put_object c k o = record {
    elements = update c.elements k (elements_of o);
    queued = update c.queued k (queued_of o);
    entries = update c.entries k (entries_of o);
  }

  -- The call `m` on the memory store answers as `m'` on its contents, leaves the contents that `m'`
  -- leaves, and keeps the store in order.
  pub record Refines {A : Type 0} (m : Exec MemoryStore A) (m' : Exec Contents A) (s : MemoryStore)
      : Type 0 where
    pub answer : (m s).0 ≡ (m' (view s)).0
    pub effect : view (m s).1 ≡ (m' (view s)).1
    pub sound : IsSound kind (m s).1

  module _ {A : Type 0} (f : Object → Result A × Object) where
    view-use :
        (s : MemoryStore) (k : Bytes)
        → IsSound kind s
        → kind_of (f (object_at kind s k)).1 ≡ kind k
        → view (use_object kind f k s).1 ≡ put_object (view s) k (f (object_at kind s k)).1
    unfolding view put_object
    view-use s k h of =
        let (_, _, at) = use_object_lem kind f s k h of in
        contents_ext _ _ (λ j. ground (arith, at j)) (λ j. ground (arith, at j))
          (λ j. ground (arith, at j))

    -- From what the method does to the object at hand.
    pub refine_at :
        (m' : Exec Contents A) (s : MemoryStore) (k : Bytes)
        → IsSound kind s
        → kind_of (f (object_at kind s k)).1 ≡ kind k
        → (f (object_at kind s k)).0 ≡ (m' (view s)).0
        → put_object (view s) k (f (object_at kind s k)).1 ≡ (m' (view s)).1
        → Refines (use_object kind f k) m' s
    refine_at m' s k h of answer effect =
        let (a, sound, _) = use_object_lem kind f s k h of in
        record { answer = a ∙ answer; effect = view-use s k h of ∙ effect; sound = sound }

  -- The three kinds of object under a key.
  module _ (s : MemoryStore) (k : Bytes) where
    pub put_same : put_object (view s) k (object_at kind s k) ≡ view s
    unfolding view put_object
    put_same =
        contents_ext _ _ (λ j. ground (arith, same_iff k j)) (λ j. ground (arith, same_iff k j))
          (λ j. ground (arith, same_iff k j))

    pub put_set :
        (xs ys : List Bytes)
        → object_at kind s k ≡ memory_set xs
        → put_object (view s) k (memory_set ys)
          ≡ record (view s) { elements = update (view s).elements k ys }
    unfolding view put_object
    put_set xs ys e =
        contents_ext _ _ (λ j. refl) (λ j. ground (arith, same_iff k j))
          (λ j. ground (arith, same_iff k j))

    pub put_queue :
        (xs ys : List Bytes)
        → object_at kind s k ≡ memory_queue xs
        → put_object (view s) k (memory_queue ys)
          ≡ record (view s) { queued = update (view s).queued k ys }
    unfolding view put_object
    put_queue xs ys e =
        contents_ext _ _ (λ j. ground (arith, same_iff k j)) (λ j. refl)
          (λ j. ground (arith, same_iff k j))

    pub put_map :
        (xs ys : Assoc Bytes)
        → object_at kind s k ≡ memory_map xs
        → put_object (view s) k (memory_map ys)
          ≡ record (view s) { entries = update (view s).entries k ys }
    unfolding view put_object
    put_map xs ys e =
        contents_ext _ _ (λ j. ground (arith, same_iff k j)) (λ j. ground (arith, same_iff k j))
          (λ j. refl)
