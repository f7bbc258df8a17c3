-- ===== src/Store/Redis.antt =====
-- pkg/store/redis_key.go, redis_set.go, redis_map.go, redis_queue.go, redis_store.go: a store in a Redis server.
pub mod Answers
pub mod Commands
pub mod Scans
pub mod Connect
use yodi.Base.{
  ℕ, zero, suc, Bytes, List, [], ◌∷◌, Bool, not, ◌==◌, Exec, Result, ok, err, halt, Halt, Error,
  pure, stop, on_part, fail_if, for_each, ◌>>=◌, ◌>>◌,
}
use yodi.Store.{Store}

-- What the code calls of go-redis, for a key and its arguments. `sscan` and `hscan` take a cursor and give the next one, which
-- is 0 at the end; the match `*` and the count 1 are the same in every call. `hget` gives `redis.Nil`, the error `redis_nil`,
-- where there is no field. The flags of `blpop` are those of a context, as for `pop` of a store; its timeout is 0.
pub record Redis : Type 1 where
  pub State : Type 0
  pub sadd : Bytes → Bytes → Exec State ℕ
  pub srem : Bytes → Bytes → Exec State ℕ
  pub smembers : Bytes → Exec State (List Bytes)
  pub sscan : Bytes → ℕ → Exec State (List Bytes × ℕ)
  pub lpush : Bytes → Bytes → Exec State ℕ
  pub blpop : Bool → Bool → Bytes → Exec State (List Bytes)
  pub hget : Bytes → Bytes → Exec State Bytes
  pub hset : Bytes → Bytes → Bytes → Exec State ℕ
  pub hdel : Bytes → Bytes → Exec State ℕ
  pub hscan : Bytes → ℕ → Exec State (List Bytes × ℕ)
  pub del : Bytes → Exec State ℕ

-- `redisSet`, `redisQueue` and `redisMap`, each with its key.
pub data RedisKey : Type 0 where
  redis_set redis_queue redis_map : Bytes → RedisKey

abbrev pub key_name : RedisKey → Bytes
key_name (redis_set k) = k
key_name (redis_queue k) = k
key_name (redis_map k) = k

-- `results[1]` of a slice.
abbrev pub second : {S : Type 0} → List Bytes → Exec S Bytes
second (x ∷ y ∷ rest) = pure y
second _ = stop Halt.panics

-- `redis.Nil` of `HGet` as `ErrNoKey`.
abbrev pub no_key_of_nil : Result Bytes → Result Bytes
no_key_of_nil (err Error.redis_nil) = err Error.no_key
no_key_of_nil r = r

module _ (r : Redis) where
  open r use {State, sadd, srem, smembers, sscan, lpush, blpop, hget, hset, hdel, hscan, del}

  pub redis_add : RedisKey → Bytes → Exec State (Unit {0})
  redis_add (redis_set k) v = do n ← sadd k v; fail_if (not (n == 1)) Error.value_exists
  redis_add _ v = stop Halt.panics

  pub redis_remove : RedisKey → Bytes → Exec State (Unit {0})
  redis_remove (redis_set k) v = do n ← srem k v; fail_if (not (n == 1)) Error.value_missing
  redis_remove _ v = stop Halt.panics

  pub redis_members : RedisKey → Exec State (List Bytes)
  redis_members (redis_set k) = smembers k
  redis_members _ = stop Halt.panics

  unfoldable pub redis_push : RedisKey → Bytes → Exec State (Unit {0})
  redis_push (redis_queue k) v = do n ← lpush k v; pure tt
  redis_push _ v = stop Halt.panics

  pub redis_pop : Bool → Bool → RedisKey → Exec State Bytes
  redis_pop done takes_done (redis_queue k) = do result ← blpop done takes_done k; second result
  redis_pop done takes_done _ = stop Halt.panics

  pub redis_get : RedisKey → Bytes → Exec State Bytes
  redis_get (redis_map k) f s = (no_key_of_nil (hget k f s).0, (hget k f s).1)
  redis_get _ f s = (halt Halt.panics, s)

  pub redis_put : RedisKey → Bytes → Bytes → Exec State (Unit {0})
  redis_put (redis_map k) f v = do n ← hset k f v; pure tt
  redis_put _ f v = stop Halt.panics

  pub redis_delete : RedisKey → Bytes → Exec State (Unit {0})
  redis_delete (redis_map k) f = do n ← hdel k f; fail_if (not (n == 1)) Error.no_key
  redis_delete _ f = stop Halt.panics

  pub redis_destroy : RedisKey → Exec State (Unit {0})
  redis_destroy k = do n ← del (key_name k); pure tt

  module _ {W : Type 0} (get : W → State) (put : W → State → W) where
    -- `Scan` of a set from a cursor on, with a bound on the replies.
    pub set_scan_from : ℕ → Bytes → (Bytes → Exec W (Unit {0})) → ℕ → Exec W (Unit {0})
    set_scan_from zero k f cursor = stop Halt.out_of_fuel
    set_scan_from (suc fuel) k f cursor = do
      (values, next) ← on_part get put (sscan k cursor)
      for_each values f
      elim next [ zero ↦ pure tt | suc c ↦ set_scan_from fuel k f (suc c) ]

    -- The pairs of a reply: `f` is called with `results[i]`, for each even `i`, and `results[1]`.
    pub each_pair :
        List Bytes → (Bytes → Bytes → Exec W (Unit {0})) → List Bytes → Exec W (Unit {0})
    each_pair results f [] = pure tt
    each_pair results f (k ∷ []) = do v ← second results; f k v
    each_pair results f (k ∷ _ ∷ rest) = do v ← second results; f k v; each_pair results f rest

    -- `Scan` of a map from a cursor on, with a bound on the replies.
    pub map_scan_from : ℕ → Bytes → (Bytes → Bytes → Exec W (Unit {0})) → ℕ → Exec W (Unit {0})
    map_scan_from zero k f cursor = stop Halt.out_of_fuel
    map_scan_from (suc fuel) k f cursor = do
      (results, next) ← on_part get put (hscan k cursor)
      each_pair results f results
      elim next [ zero ↦ pure tt | suc c ↦ map_scan_from fuel k f (suc c) ]

    pub redis_scan : ℕ → RedisKey → (Bytes → Exec W (Unit {0})) → Exec W (Unit {0})
    redis_scan fuel (redis_set k) f = set_scan_from fuel k f 0
    redis_scan fuel _ f = stop Halt.panics

    pub redis_map_scan : ℕ → RedisKey → (Bytes → Bytes → Exec W (Unit {0})) → Exec W (Unit {0})
    redis_map_scan fuel (redis_map k) f = map_scan_from fuel k f 0
    redis_map_scan fuel _ f = stop Halt.panics

  -- `redisStore`, with the bound on the replies of its scans.
  abbrev pub redis_store : ℕ → Store
  redis_store fuel = record {
    State = State;
    Ref = RedisKey;
    set_of = λ k. pure (redis_set k);
    queue_of = λ k. pure (redis_queue k);
    map_of = λ k. pure (redis_map k);
    add = redis_add;
    remove = redis_remove;
    members = redis_members;
    scan = λ get put. redis_scan get put fuel;
    push = redis_push;
    pop = redis_pop;
    map_get = redis_get;
    map_set = redis_put;
    map_remove = redis_delete;
    map_scan = λ get put. redis_map_scan get put fuel;
    destroy = redis_destroy;
  }
