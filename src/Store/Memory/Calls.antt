-- ===== src/Store/Memory/Calls.antt =====
-- The calls of a program on a memory store follow those on its contents.
use yodi.Base.{◌≡◌, Bytes, [], Bool, Exec, ◌>>=◌}
use yodi.Base.Follows.{Follows}
use yodi.Store.{Store}
use yodi.Store.Contents.{Contents, contents}
use yodi.Store.Memory.{MemoryStore, buffer_size}
use yodi.Store.Memory.View.{Kind, sets, queues, maps, IsSound}
use yodi.Store.Memory.Instance.{memory}
use yodi.Store.Memory.Refines.{Refines, view}
use yodi.Store.Memory.Sets.{set-Refines}
use yodi.Store.Memory.Queues.{queue-Refines}
use yodi.Store.Memory.Maps.{map-Refines}
use yodi.Store.Memory.Destroy.{destroy_kind}

-- The contents as a store with the queues of the memory store.
abbrev pub plain : Store
plain = contents buffer_size

module _ (kind : Bytes → Kind) where
  abbrev pub OnMemory : {A : Type 0} → Exec MemoryStore A → Exec Contents A → Type 0
  OnMemory = Follows (view kind) (IsSound kind)

  from-Refines :
      {A : Type 0} (m : Exec MemoryStore A) (m' : Exec Contents A)
      → ((s : MemoryStore) → IsSound kind s → Refines kind m m' s)
      → OnMemory m m'
  from-Refines m m' r = record { at = λ s h. ((r s h).answer, (r s h).effect, (r s h).sound) }

  module _ (k : Bytes) where
    pub add-OnMemory :
        (v : Bytes)
        → kind k ≡ sets
        → OnMemory (memory.set_of k >>= λ r. memory.add r v) (plain.set_of k >>= λ r. plain.add r v)
    add-OnMemory v e = from-Refines _ _ (λ s h. (set-Refines kind s k h v e).0)

    pub remove-OnMemory :
        (v : Bytes)
        → kind k ≡ sets
        → OnMemory
            (memory.set_of k >>= λ r. memory.remove r v)
            (plain.set_of k >>= λ r. plain.remove r v)
    remove-OnMemory v e = from-Refines _ _ (λ s h. (set-Refines kind s k h v e).1)

    pub members-OnMemory :
        kind k ≡ sets
        → OnMemory (memory.set_of k >>= memory.members) (plain.set_of k >>= plain.members)
    members-OnMemory e = from-Refines _ _ (λ s h. (set-Refines kind s k h [] e).2)

    pub push-OnMemory :
        (v : Bytes)
        → kind k ≡ queues
        → OnMemory
            (memory.queue_of k >>= λ r. memory.push r v)
            (plain.queue_of k >>= λ r. plain.push r v)
    push-OnMemory v e =
        from-Refines _ _ (λ s h. (queue-Refines kind s k h v Bool.false Bool.false e).0)

    pub pop-OnMemory :
        (done takes_done : Bool)
        → kind k ≡ queues
        → OnMemory
            (memory.queue_of k >>= memory.pop done takes_done)
            (plain.queue_of k >>= plain.pop done takes_done)
    pop-OnMemory done takes_done e =
        from-Refines _ _ (λ s h. (queue-Refines kind s k h [] done takes_done e).1)

    pub get-OnMemory :
        (f : Bytes)
        → kind k ≡ maps
        → OnMemory
            (memory.map_of k >>= λ r. memory.map_get r f)
            (plain.map_of k >>= λ r. plain.map_get r f)
    get-OnMemory f e = from-Refines _ _ (λ s h. (map-Refines kind s k h f [] e).0)

    pub put-OnMemory :
        (f v : Bytes)
        → kind k ≡ maps
        → OnMemory
            (memory.map_of k >>= λ r. memory.map_set r f v)
            (plain.map_of k >>= λ r. plain.map_set r f v)
    put-OnMemory f v e = from-Refines _ _ (λ s h. (map-Refines kind s k h f v e).1)

    pub delete-OnMemory :
        (f : Bytes)
        → kind k ≡ maps
        → OnMemory
            (memory.map_of k >>= λ r. memory.map_remove r f)
            (plain.map_of k >>= λ r. plain.map_remove r f)
    delete-OnMemory f e = from-Refines _ _ (λ s h. (map-Refines kind s k h f [] e).2)

    pub destroy_set-OnMemory :
        kind k ≡ sets
        → OnMemory (memory.set_of k >>= memory.destroy) (plain.set_of k >>= plain.destroy)
    destroy_set-OnMemory e = from-Refines _ _ (λ s h. destroy_kind kind s k h sets e)

    pub destroy_queue-OnMemory :
        kind k ≡ queues
        → OnMemory (memory.queue_of k >>= memory.destroy) (plain.queue_of k >>= plain.destroy)
    destroy_queue-OnMemory e = from-Refines _ _ (λ s h. destroy_kind kind s k h queues e)

    pub destroy_map-OnMemory :
        kind k ≡ maps
        → OnMemory (memory.map_of k >>= memory.destroy) (plain.map_of k >>= plain.destroy)
    destroy_map-OnMemory e = from-Refines _ _ (λ s h. destroy_kind kind s k h maps e)
