-- ===== src/Store/Memory/Instance.antt =====
-- The memory store as a `Store`.
use yodi.Base.{[]}
use yodi.Store.{Store}
use yodi.Store.Memory.{
  MemoryStore, MemoryRef, memory_set, memory_queue, memory_map, find_or_add, is_set, is_queue,
  is_map, on_object, memory_add, memory_remove, memory_members, memory_push, memory_pop, memory_get,
  memory_put, memory_delete, memory_scan, memory_map_scan, memory_destroy,
}

-- `NewMemoryStore`, as a `Store`.
abbrev pub memory : Store
memory = record {
  State = MemoryStore;
  Ref = MemoryRef;
  set_of = find_or_add (memory_set []) is_set;
  queue_of = find_or_add (memory_queue []) is_queue;
  map_of = find_or_add (memory_map []) is_map;
  add = λ r v. on_object (memory_add v) r;
  remove = λ r v. on_object (memory_remove v) r;
  members = on_object memory_members;
  scan = memory_scan;
  push = λ r v. on_object (memory_push v) r;
  pop = λ done takes_done. on_object (memory_pop done takes_done);
  map_get = λ r k. on_object (memory_get k) r;
  map_set = λ r k v. on_object (memory_put k v) r;
  map_remove = λ r k. on_object (memory_delete k) r;
  map_scan = memory_map_scan;
  destroy = memory_destroy;
}
