-- ===== src/Tests/Redis.antt =====
-- A small Redis server, and the Redis store at work on it.
use yodi.Base.{
  suc, ◌≡◌, Bytes, List, [], ◌∷◌, ◌++◌, codes, length, contains, contains-append, contains-without,
  without, same, same_iff, Option, none, some, Bool, true, false, if◌then◌else◌, Result, ok, err,
  halt, Halt, Error, refl, arith, ap, inl,
}
use mathlib.Core.Path.{fun_ext}
use yodi.Base.Assoc.{Assoc, lookup, insert, erase, has_key, lookup-insert, lookup-erase}
use yodi.Store.Contents
use yodi.Store.Contents.{Contents, update}
use yodi.Store.Redis.{
  Redis, redis_set, redis_queue, redis_map, redis_add, redis_remove, redis_get, redis_put,
  redis_delete, redis_push, redis_pop, redis_map_scan,
}
use yodi.Store.Redis.Commands.{
  Keyspace, Answers, IsRedis, put_at, add_spec, remove_spec, get_spec, put_spec, delete_spec,
}
use yodi.Store.Redis.Answers.{Refines, redis_set-Refines, redis_map-Refines, redis_pop-push}
use yodi.Store.Redis.Scans.{last, note_pair, redis_map_scan-first_value}
use yodi.Tests.Pipe.{alice, door}

abbrev flat : Assoc Bytes → List Bytes
flat [] = []
flat ((f, v) ∷ entries) = f ∷ v ∷ flat entries

abbrev pop_first : Bytes → Contents → List Bytes → Result (List Bytes) × Contents
pop_first k s [] = (halt Halt.blocks, s)
pop_first k s (v ∷ rest) = (ok (k ∷ v ∷ []), record s { queued = update s.queued k rest })

-- Sets, lists and hashes apart, as on a server where each key has one type.
abbrev little_redis : Redis
little_redis = record {
  State = Contents;
  sadd = λ k v s.
      if contains (s.elements k) v
      then (ok 0, s)
      else (ok 1, record s { elements = update s.elements k (s.elements k ++ (v ∷ [])) });
  srem = λ k v s.
      if contains (s.elements k) v
      then (ok 1, record s { elements = update s.elements k (without v (s.elements k)) })
      else (ok 0, s);
  smembers = λ k s. (ok (s.elements k), s);
  sscan = λ k cursor s. (ok (s.elements k, 0), s);
  lpush = λ k v s.
      (ok (suc (length (s.queued k))), record s { queued = update s.queued k (v ∷ s.queued k) });
  blpop = λ done takes_done k s. pop_first k s (s.queued k);
  hget = λ k f s. (elim (lookup f (s.entries k)) [ none ↦ err Error.redis_nil | some v ↦ ok v ], s);
  hset = λ k f v s. (ok 1, record s { entries = update s.entries k (insert f v (s.entries k)) });
  hdel = λ k f s.
      if has_key (lookup f (s.entries k))
      then (ok 1, record s { entries = update s.entries k (erase f (s.entries k)) })
      else (ok 0, s);
  hscan = λ k cursor s. (ok (flat (s.entries k), 0), s);
  del = λ k s. (
    ok 1,
    record {
      elements = update s.elements k [];
      queued = update s.queued k [];
      entries = update s.entries k [];
    },
  );
}

abbrev seen : Contents → Keyspace
seen s = record {
  has = λ k v. contains (s.elements k) v;
  values = s.queued;
  field = λ k f. lookup f (s.entries k);
}

abbrev with_has : Contents → (Bytes → Bytes → Bool) → Keyspace
with_has s h = record (seen s) { has = h }

abbrev with_field : Contents → (Bytes → Bytes → Option Bytes) → Keyspace
with_field s h = record (seen s) { field = h }

added :
    (k v : Bytes) (s : Contents)
    → seen (record s { elements = update s.elements k (s.elements k ++ (v ∷ [])) })
      ≡ with_has s (put_at (seen s).has k v true)
added k v s =
    ap (with_has s) (
      fun_ext
        (λ j. fun_ext (λ w. ground (arith, same_iff k j, contains-append (s.elements k) v w))))

removed :
    (k v : Bytes) (s : Contents)
    → seen (record s { elements = update s.elements k (without v (s.elements k)) })
      ≡ with_has s (put_at (seen s).has k v false)
removed k v s = ap (with_has s) (
    fun_ext (λ j. fun_ext (λ w. ground (arith, same_iff k j, contains-without v (s.elements k) w))))

inserted :
    (k f v : Bytes) (s : Contents)
    → seen (record s { entries = update s.entries k (insert f v (s.entries k)) })
      ≡ with_field s (put_at (seen s).field k f (some v))
inserted k f v s =
    ap (with_field s) (
      fun_ext (λ j. fun_ext (λ g. ground (arith, same_iff k j, lookup-insert f g v (s.entries k)))))

erased :
    (k f : Bytes) (s : Contents)
    → seen (record s { entries = update s.entries k (erase f (s.entries k)) })
      ≡ with_field s (put_at (seen s).field k f none)
erased k f s =
    ap (with_field s)
      (fun_ext (λ j. fun_ext (λ g. ground (arith, same_iff k j, lookup-erase f g (s.entries k)))))

cleared_set :
    (k j w : Bytes) (s : Contents)
    → contains (update s.elements k [] j) w
      ≡ (if same k j then false else contains (s.elements j) w)
unfolding contains
cleared_set k j w s = ground arith

cleared_map :
    (k j f : Bytes) (s : Contents)
    → lookup f (update s.entries k [] j) ≡ (if same k j then none else lookup f (s.entries j))
unfolding lookup
cleared_map k j f s = ground arith

little_redis-IsRedis : IsRedis little_redis
little_redis-IsRedis = record {
  view = seen;
  sadd_new = λ k v s h. inl (ground (arith, h), ground (arith, h, added k v s));
  sadd_old = λ k v s h. inl (ground (arith, h), ground (arith, h));
  srem_old = λ k v s h. inl (ground (arith, h), ground (arith, h, removed k v s));
  srem_none = λ k v s h. inl (ground (arith, h), ground (arith, h));
  smembers_all = λ k s. (s.elements k, λ w. refl, inl (refl, refl));
  hget_old = λ k f v s h. inl (ground (arith, h), refl);
  hget_none = λ k f s h. inl (ground (arith, h), refl);
  hset_any = λ k f v s. (1, inl (refl, inserted k f v s));
  hdel_old = λ k f v s h. inl (ground (arith, h), ground (arith, h, erased k f s));
  hdel_none = λ k f s h. inl (ground (arith, h), ground (arith, h));
  lpush_head = λ k v s. (suc (length (s.queued k)), inl (refl, refl));
  blpop_head = λ k v rest s h. inl (ground (arith, h), ground (arith, h));
  blpop_none = λ k s h. inl (ground (arith, h), ground (arith, h));
  del_all = λ k s. (
    1,
    inl (
      refl,
      λ i. record {
        has = λ j w. cleared_set k j w s i;
        values = update s.queued k [];
        field = λ j f. cleared_map k j f s i;
      },
    ),
  );
}

-- The client "alice" is in the set "door", and two texts wait.
abbrev busy : Contents
busy = record Contents.empty {
  elements = update (λ k. []) door (alice ∷ codes "bob" ∷ []);
  queued = update (λ k. []) door (codes "old" ∷ []);
  entries = update (λ k. []) door ((codes "1", codes "a") ∷ (codes "2", codes "b") ∷ []);
}

redis_set-Refines_example :
    Refines little_redis-IsRedis
      (redis_add little_redis (redis_set door) alice)
      (add_spec door alice)
      busy
    × Refines little_redis-IsRedis
        (redis_remove little_redis (redis_set door) alice)
        (remove_spec door alice)
        busy
redis_set-Refines_example = redis_set-Refines little_redis-IsRedis door alice busy

redis_map-Refines_example :
    Refines little_redis-IsRedis
      (redis_get little_redis (redis_map door) (codes "1"))
      (get_spec door (codes "1"))
      busy
    × Refines little_redis-IsRedis
        (redis_put little_redis (redis_map door) (codes "1") alice)
        (put_spec door (codes "1") alice)
        busy
    × Refines little_redis-IsRedis
        (redis_delete little_redis (redis_map door) (codes "1"))
        (delete_spec door (codes "1"))
        busy
redis_map-Refines_example = redis_map-Refines little_redis-IsRedis door (codes "1") alice busy

redis_pop-push_example :
    Answers seen
      (redis_pop little_redis false false
        (redis_queue door)
        (redis_push little_redis (redis_queue door) (codes "new") busy).1)
      (ok (codes "new"))
      (seen busy)
unfolding redis_push little_redis-IsRedis
redis_pop-push_example = redis_pop-push little_redis-IsRedis door (codes "new") busy refl

redis_map_scan-first_value_example :
    redis_map_scan little_redis
      (λ w. w.0)
      (λ w t. (t, w.1))
      1
      (redis_map door)
      (note_pair little_redis)
      (busy, [])
    ≡ (ok tt, (busy, (codes "1", codes "a") ∷ (codes "2", codes "a") ∷ []))
unfolding same
redis_map_scan-first_value_example =
    redis_map_scan-first_value little_redis (last refl) 1 [] (omega arith) (refl, tt)
