-- ===== src/Tests/Memory.antt =====
-- The memory store.
use yodi.Base.{Bytes, codes, false, refl, ◌>>=◌}
use yodi.Base.Assoc.{lookup}
use yodi.Store.Contents
use yodi.Store.Memory.{MemoryStore, new_memory_store, buffer_size}
use yodi.Store.Memory.View.{Kind, sets, queues, maps, IsSound}
use yodi.Store.Memory.Instance.{memory}
use yodi.Store.Memory.Refines.{Refines}
use yodi.Store.Memory.Sets.{set-Refines}
use yodi.Store.Memory.Queues.{queue-Refines}
use yodi.Store.Memory.Maps.{map-Refines}

pub new_memory_store-IsSound : (kind : Bytes → Kind) → IsSound kind new_memory_store
unfolding lookup
new_memory_store-IsSound kind = record {
  typed = λ k a e. absurd cc;
  apart = λ j k a e f. absurd cc;
}

abbrev key : Bytes
key = codes "/k"

abbrev one : Bytes
one = codes "1"

abbrev all_sets : Bytes → Kind
all_sets k = sets

abbrev all_queues : Bytes → Kind
all_queues k = queues

abbrev all_maps : Bytes → Kind
all_maps k = maps

-- Stores that hold one value.
abbrev set_of_one : MemoryStore
set_of_one = ((memory.set_of key >>= λ r. memory.add r one) new_memory_store).1

abbrev queue_of_one : MemoryStore
queue_of_one = ((memory.queue_of key >>= λ r. memory.push r one) new_memory_store).1

abbrev map_of_one : MemoryStore
map_of_one = ((memory.map_of key >>= λ r. memory.map_set r one one) new_memory_store).1

set_of_one-IsSound : IsSound all_sets set_of_one
set_of_one-IsSound =
    (set-Refines all_sets new_memory_store key (new_memory_store-IsSound all_sets) one refl).0.sound

queue_of_one-IsSound : IsSound all_queues queue_of_one
queue_of_one-IsSound =
    (queue-Refines all_queues new_memory_store key (new_memory_store-IsSound all_queues) one false
      false refl).0.sound

map_of_one-IsSound : IsSound all_maps map_of_one
map_of_one-IsSound =
    (map-Refines all_maps new_memory_store key (new_memory_store-IsSound all_maps) one one
      refl).1.sound

set-Refines_example :
    Refines all_sets
      (memory.set_of key >>= λ r. memory.add r one)
      (Contents.add (Contents.set_ref key) one)
      set_of_one
    × Refines all_sets
        (memory.set_of key >>= λ r. memory.remove r one)
        (Contents.remove (Contents.set_ref key) one)
        set_of_one
    × Refines all_sets
        (memory.set_of key >>= memory.members)
        (Contents.members (Contents.set_ref key))
        set_of_one
set-Refines_example = set-Refines all_sets set_of_one key set_of_one-IsSound one refl

queue-Refines_example :
    Refines all_queues
      (memory.queue_of key >>= λ r. memory.push r one)
      (Contents.push buffer_size (Contents.queue_ref key) one)
      queue_of_one
    × Refines all_queues
        (memory.queue_of key >>= memory.pop false false)
        (Contents.pop false false (Contents.queue_ref key))
        queue_of_one
queue-Refines_example =
    queue-Refines all_queues queue_of_one key queue_of_one-IsSound one false false refl

map-Refines_example :
    Refines all_maps
      (memory.map_of key >>= λ r. memory.map_get r one)
      (Contents.map_get (Contents.map_ref key) one)
      map_of_one
    × Refines all_maps
        (memory.map_of key >>= λ r. memory.map_set r one one)
        (Contents.map_set (Contents.map_ref key) one one)
        map_of_one
    × Refines all_maps
        (memory.map_of key >>= λ r. memory.map_remove r one)
        (Contents.map_remove (Contents.map_ref key) one)
        map_of_one
map-Refines_example = map-Refines all_maps map_of_one key map_of_one-IsSound one one refl
