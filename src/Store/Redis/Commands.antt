-- ===== src/Store/Redis/Commands.antt =====
-- The commands of Redis that pkg/store/redis_*.go call, as their documentation has them, and what the operations of a store are to
-- make of them.
use yodi.Base.{
  ℕ, ◌≡◌, ◌⊎◌, Bytes, List, [], ◌∷◌, contains, same, Option, none, some, Bool, true, false, ◌&&◌,
  if◌then◌else◌, Exec, Result, ok, err, halt, Halt, Error,
}
use yodi.Store.Redis.{Redis}

-- What stands in the server: for each key a set, a list with its head first, and a hash.
pub record Keyspace : Type 0 where
  pub has : Bytes → Bytes → Bool
  pub values : Bytes → List Bytes
  pub field : Bytes → Bytes → Option Bytes

abbrev pub put_at : {A : Type 0} → (Bytes → Bytes → A) → Bytes → Bytes → A → Bytes → Bytes → A
put_at m k v a j w = if same k j && same v w then a else m j w

abbrev pub put_list : (Bytes → List Bytes) → Bytes → List Bytes → Bytes → List Bytes
put_list m k vs j = if same k j then vs else m j

-- Each operation as the interfaces promise it, but for the order of a queue: the value that was pushed last is the first to go.
abbrev pub add_spec : Bytes → Bytes → Exec Keyspace (Unit {0})
add_spec k v y =
    if y.has k v
    then (err Error.value_exists, y)
    else (ok tt, record y { has = put_at y.has k v true })

abbrev pub remove_spec : Bytes → Bytes → Exec Keyspace (Unit {0})
remove_spec k v y =
    if y.has k v
    then (ok tt, record y { has = put_at y.has k v false })
    else (err Error.value_missing, y)

abbrev pub get_spec : Bytes → Bytes → Exec Keyspace Bytes
get_spec k f y = (elim (y.field k f) [ none ↦ err Error.no_key | some v ↦ ok v ], y)

abbrev pub put_spec : Bytes → Bytes → Bytes → Exec Keyspace (Unit {0})
put_spec k f v y = (ok tt, record y { field = put_at y.field k f (some v) })

abbrev pub delete_old : Option Bytes → Bytes → Bytes → Exec Keyspace (Unit {0})
delete_old none k f y = (err Error.no_key, y)
delete_old (some v) k f y = (ok tt, record y { field = put_at y.field k f none })

abbrev pub delete_spec : Bytes → Bytes → Exec Keyspace (Unit {0})
delete_spec k f y = delete_old (y.field k f) k f y

abbrev pub push_spec : Bytes → Bytes → Exec Keyspace (Unit {0})
push_spec k v y = (ok tt, record y { values = put_list y.values k (v ∷ y.values k) })

abbrev pub pop_head : List Bytes → Bytes → Exec Keyspace Bytes
pop_head [] k y = (halt Halt.blocks, y)
pop_head (v ∷ rest) k y = (ok v, record y { values = put_list y.values k rest })

abbrev pub pop_spec : Bytes → Exec Keyspace Bytes
pop_spec k y = pop_head (y.values k) k y

abbrev pub destroy_spec : Bytes → Exec Keyspace (Unit {0})
destroy_spec k y = (
  ok tt,
  record {
    has = λ j w. if same k j then false else y.has j w;
    values = put_list y.values k [];
    field = λ j w. if same k j then none else y.field j w;
  },
)

-- A call answers `a` and leaves `y`, or fails with an error of the connection or of the server, after which nothing is known.
abbrev pub Answers : {S A : Type 0} → (S → Keyspace) → Result A × S → Result A → Keyspace → Type 0
Answers view call a y = ((call.0 ≡ a) × (view call.1 ≡ y)) ⊎ (call.0 ≡ err Error.redis_failed)

abbrev count_if : Bool → ℕ
count_if b = if b then 1 else 0

-- What Redis documents of its commands, and go-redis of its errors. That a command may fail covers a key that holds another type,
-- and a connection that is lost.
pub record IsRedis (r : Redis) : Type 0 where
  pub view : r.State → Keyspace
  pub sadd_new :
      (k v : Bytes) (s : r.State)
      → (view s).has k v ≡ false
      → Answers view (r.sadd k v s) (ok 1) (record (view s) { has = put_at (view s).has k v true })
  pub sadd_old :
      (k v : Bytes) (s : r.State)
      → (view s).has k v ≡ true
      → Answers view (r.sadd k v s) (ok 0) (view s)
  pub srem_old :
      (k v : Bytes) (s : r.State)
      → (view s).has k v ≡ true
      → Answers view (r.srem k v s) (ok 1) (record (view s) { has = put_at (view s).has k v false })
  pub srem_none :
      (k v : Bytes) (s : r.State)
      → (view s).has k v ≡ false
      → Answers view (r.srem k v s) (ok 0) (view s)
  -- SMEMBERS gives the members in some order.
  pub smembers_all :
      (k : Bytes) (s : r.State)
      → (vs : List Bytes) × ((w : Bytes) → contains vs w ≡ (view s).has k w)
        × Answers view (r.smembers k s) (ok vs) (view s)
  pub hget_old :
      (k f v : Bytes) (s : r.State)
      → (view s).field k f ≡ some v
      → Answers view (r.hget k f s) (ok v) (view s)
  pub hget_none :
      (k f : Bytes) (s : r.State)
      → (view s).field k f ≡ none
      → Answers view (r.hget k f s) (err Error.redis_nil) (view s)
  pub hset_any :
      (k f v : Bytes) (s : r.State)
      → (n : ℕ) × Answers view
          (r.hset k f v s)
          (ok n)
          (record (view s) { field = put_at (view s).field k f (some v) })
  pub hdel_old :
      (k f v : Bytes) (s : r.State)
      → (view s).field k f ≡ some v
      → Answers view
          (r.hdel k f s)
          (ok 1)
          (record (view s) { field = put_at (view s).field k f none })
  pub hdel_none :
      (k f : Bytes) (s : r.State)
      → (view s).field k f ≡ none
      → Answers view (r.hdel k f s) (ok 0) (view s)
  -- LPUSH inserts at the head of the list, BLPOP takes the head, and gives the key before it.
  pub lpush_head :
      (k v : Bytes) (s : r.State)
      → (n : ℕ) × Answers view
          (r.lpush k v s)
          (ok n)
          (record (view s) { values = put_list (view s).values k (v ∷ (view s).values k) })
  pub blpop_head :
      (k v : Bytes) (rest : List Bytes) (s : r.State)
      → (view s).values k ≡ v ∷ rest
      → Answers view
          (r.blpop false false k s)
          (ok (k ∷ v ∷ []))
          (record (view s) { values = put_list (view s).values k rest })
  pub blpop_none :
      (k : Bytes) (s : r.State)
      → (view s).values k ≡ []
      → Answers view (r.blpop false false k s) (halt Halt.blocks) (view s)
  pub del_all :
      (k : Bytes) (s : r.State)
      → (n : ℕ) × Answers view (r.del k s) (ok n) (destroy_spec k (view s)).1
