-- ===== src/Store/Memory/Queues.antt =====
-- The memory store does what the abstract store does, on queues: memory_queue.go.
-- Each method is called as the program calls it.
use yodi.Base.{◌≡◌, Bytes, List, [], ◌∷◌, ◌++◌, Bool, arith, ◌∙◌, ◌>>=◌}
use yodi.Store.Contents
use yodi.Store.Contents.{Contents, contents, update}
use yodi.Store.Memory.{MemoryStore, memory_queue, memory_push, memory_pop, buffer_size}
use yodi.Store.Memory.View.{Kind, queues, IsSound, object_at, kind_of-object_at}
use yodi.Store.Memory.Use.{use_object}
use yodi.Store.Memory.Instance.{memory}
use yodi.Store.Memory.Refines.{Refines, view, queue_cases, put_same, put_queue, refine_at}

module _ (kind : Bytes → Kind) where
  module _ (s : MemoryStore) (k : Bytes) (h : IsSound kind s) where
    -- The methods of a queue.
    seen_queue :
        kind k ≡ queues
        → (xs : List Bytes) × (object_at kind s k ≡ memory_queue xs) × ((view kind s).queued k ≡ xs)
    unfolding view
    seen_queue e =
        let (xs, o) = queue_cases (object_at kind s k) (kind_of-object_at kind s k h ∙ e) in
        (xs, o, ground arith)

    push-Refines :
        (v : Bytes)
        → kind k ≡ queues
        → Refines kind
            (memory.queue_of k >>= λ r. memory.push r v)
            (Contents.push buffer_size (Contents.queue_ref k) v)
            s
    unfolding use_object memory_push
    push-Refines v e =
        let (xs, o, seen) = seen_queue e in
        rw e at (
          refine_at kind (memory_push v) (Contents.push buffer_size (Contents.queue_ref k) v) s k h
            (ground arith) (ground arith)
            (ground (arith, put_same kind s k, put_queue kind s k xs (xs ++ (v ∷ [])) o)))

    pop_from :
        (done takes_done : Bool) (xs : List Bytes)
        → kind k ≡ queues
        → object_at kind s k ≡ memory_queue xs
        → (view kind s).queued k ≡ xs
        → Refines kind
            (use_object kind (memory_pop done takes_done) k)
            (Contents.pop done takes_done (Contents.queue_ref k))
            s
    unfolding memory_pop
    pop_from done takes_done [] e o seen =
        refine_at kind (memory_pop done takes_done)
          (Contents.pop done takes_done (Contents.queue_ref k)) s k h (ground arith) (ground arith)
          (ground (arith, put_same kind s k))
    pop_from done takes_done (v ∷ rest) e o seen =
        refine_at kind (memory_pop done takes_done)
          (Contents.pop done takes_done (Contents.queue_ref k)) s k h (ground arith) (ground arith)
          (ground (arith, put_same kind s k, put_queue kind s k (v ∷ rest) rest o))

    pop-Refines :
        (done takes_done : Bool)
        → kind k ≡ queues
        → Refines kind
            (memory.queue_of k >>= memory.pop done takes_done)
            (Contents.pop done takes_done (Contents.queue_ref k))
            s
    unfolding use_object
    pop-Refines done takes_done e =
        let (xs, o, seen) = seen_queue e in
        let run = pop_from done takes_done xs e o seen in rw e at run

    -- On a memory store in order, under a key for queues, `Push` and `Pop` of `Queue(key)` answer as on
    -- the contents, whose queue has 64 places in order of arrival: where all are taken, `Push` waits. They leave what the calls on
    -- the contents leave there, and keep the store in order, also where the call waits.
    pub queue-Refines :
        (v : Bytes) (done takes_done : Bool)
        → kind k ≡ queues
        → Refines kind
            (memory.queue_of k >>= λ r. memory.push r v)
            (Contents.push buffer_size (Contents.queue_ref k) v)
            s
          × Refines kind
              (memory.queue_of k >>= memory.pop done takes_done)
              (Contents.pop done takes_done (Contents.queue_ref k))
              s
    queue-Refines v done takes_done e = (push-Refines v e, pop-Refines done takes_done e)
