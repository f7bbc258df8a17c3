-- ===== src/Store/Redis/Answers.antt =====
-- pkg/store/redis_set.go, redis_map.go, redis_queue.go, redis_key.go: the answers of each operation, over the documented answers of
-- the commands.
use yodi.Base.{
  ℕ, ◌≡◌, ◌⊎◌, inl, inr, Bytes, List, [], ◌∷◌, same, Option, none, some, Bool, true, false,
  if◌then◌else◌, same_iff, same_self, Exec, Result, ok, err, Error, refl, arith, ap, continue,
  fail_if, not, ◌==◌, pure, Bool-cases, ◌∙◌,
}
use mathlib.Core.Path.{subst, fun_ext}
use yodi.Store.Redis.{
  Redis, no_key_of_nil, RedisKey, redis_set, redis_queue, redis_map, second, redis_add,
  redis_remove, redis_push, redis_pop, redis_get, redis_put, redis_delete, redis_destroy, key_name,
}
use yodi.Store.Redis.Commands.{
  Keyspace, put_list, add_spec, remove_spec, get_spec, put_spec, delete_old, delete_spec, push_spec,
  pop_head, pop_spec, destroy_spec, Answers, IsRedis,
}

module _ {r : Redis} (l : IsRedis r) where
  open l use {view}

  -- A call does what `spec` says, or fails with an error of the connection or of the server.
  abbrev pub Refines : {A : Type 0} → Exec r.State A → Exec Keyspace A → r.State → Type 0
  Refines call spec s = Answers view (call s) (spec (view s)).0 (spec (view s)).1

  -- What becomes of an answer, and of an error.
  passes :
      {A B : Type 0} {call : Result A × r.State} {a : Result A} {y : Keyspace} {b : Result B}
      → (f : Result A → r.State → Result B × r.State)
      → ((s : r.State) → f (err Error.redis_failed) s ≡ (err Error.redis_failed, s))
      → ((s : r.State) → f a s ≡ (b, s))
      → Answers view call a y
      → Answers view (f call.0 call.1) b y
  passes {call = call} f fails answers (inl (e, v)) =
      let q = ap (λ x. f x call.1) e ∙ answers call.1 in
      inl (ap (λ o. o.0) q, ap (λ o. view o.1) q ∙ v)
  passes {call = call} f fails answers (inr e) =
      inr (ap (λ o. o.0) (ap (λ x. f x call.1) e ∙ fails call.1))

  Answers-if :
      {A : Type 0} {call : Result A × r.State} (b : Bool) {x y : Result A × Keyspace}
      → (b ≡ true → Answers view call x.0 x.1)
      → (b ≡ false → Answers view call y.0 y.1)
      → Answers view call (if b then x else y).0 (if b then x else y).1
  Answers-if true if_true if_false = if_true refl
  Answers-if false if_true if_false = if_false refl

  -- A count other than 1 is an error.
  abbrev counted : Error → Result ℕ → r.State → Result (Unit {0}) × r.State
  counted e x = continue x (λ n. fail_if (not (n == 1)) e)

  -- Over the documented commands of Redis, `Add` and `Remove` of a set answer and leave the server as a set does, with an error
  -- for a value that is there already or is not there, or the call fails with an error of the connection or of the server.
  pub redis_set-Refines :
      (k v : Bytes) (s : r.State)
      → Refines (redis_add r (redis_set k) v) (add_spec k v) s
        × Refines (redis_remove r (redis_set k) v) (remove_spec k v) s
  unfolding redis_add redis_remove
  redis_set-Refines k v s = (
    Answers-if ((view s).has k v)
        (λ e. passes (counted Error.value_exists) (λ s. refl) (λ s. refl) (l.sadd_old k v s e))
        (λ e. passes (counted Error.value_exists) (λ s. refl) (λ s. refl) (l.sadd_new k v s e)),
    Answers-if ((view s).has k v)
        (λ e. passes (counted Error.value_missing) (λ s. refl) (λ s. refl) (l.srem_old k v s e))
        (λ e. passes (counted Error.value_missing) (λ s. refl) (λ s. refl) (l.srem_none k v s e)),
  )

  -- What an ignored count leaves.
  abbrev uncounted : Result ℕ → r.State → Result (Unit {0}) × r.State
  uncounted x = continue x (λ n. pure tt)

  get-Answers :
      (k f : Bytes) (s : r.State) (o : Option Bytes)
      → (view s).field k f ≡ o
      → Answers view
          (redis_get r (redis_map k) f s)
          (elim o [ none ↦ err Error.no_key | some v ↦ ok v ])
          (view s)
  unfolding redis_get
  get-Answers k f s none e =
      passes (λ x s. (no_key_of_nil x, s)) (λ s. refl) (λ s. refl) (l.hget_none k f s e)
  get-Answers k f s (some v) e =
      passes (λ x s. (no_key_of_nil x, s)) (λ s. refl) (λ s. refl) (l.hget_old k f v s e)

  delete-Answers :
      (k f : Bytes) (s : r.State) (o : Option Bytes)
      → (view s).field k f ≡ o
      → Answers view
          (redis_delete r (redis_map k) f s)
          (delete_old o k f (view s)).0
          (delete_old o k f (view s)).1
  unfolding redis_delete
  delete-Answers k f s none e =
      passes (counted Error.no_key) (λ s. refl) (λ s. refl) (l.hdel_none k f s e)
  delete-Answers k f s (some v) e =
      passes (counted Error.no_key) (λ s. refl) (λ s. refl) (l.hdel_old k f v s e)

  -- Get, Set and Remove of a map.
  pub redis_map-Refines :
      (k f v : Bytes) (s : r.State)
      → Refines (redis_get r (redis_map k) f) (get_spec k f) s
        × Refines (redis_put r (redis_map k) f v) (put_spec k f v) s
        × Refines (redis_delete r (redis_map k) f) (delete_spec k f) s
  unfolding redis_put
  redis_map-Refines k f v s = (
    get-Answers k f s ((view s).field k f) refl,
    passes uncounted (λ s. refl) (λ s. refl) (l.hset_any k f v s).1,
    delete-Answers k f s ((view s).field k f) refl,
  )

  pop-Answers :
      (k : Bytes) (s : r.State) (vs : List Bytes)
      → (view s).values k ≡ vs
      → Answers view
          (redis_pop r false false (redis_queue k) s)
          (pop_head vs k (view s)).0
          (pop_head vs k (view s)).1
  unfolding redis_pop
  pop-Answers k s [] e =
      passes (λ x. continue x second) (λ s. refl) (λ s. refl) (l.blpop_none k s e)
  pop-Answers k s (v ∷ rest) e =
      passes (λ x. continue x second) (λ s. refl) (λ s. refl) (l.blpop_head k v rest s e)

  -- Push and Pop of a queue, and Destroy of each type.
  pub redis_queue-Refines :
      (k v : Bytes) (s : r.State)
      → Refines (redis_push r (redis_queue k) v) (push_spec k v) s
        × Refines (redis_pop r false false (redis_queue k)) (pop_spec k) s
  unfolding redis_push
  redis_queue-Refines k v s = (
    passes uncounted (λ s. refl) (λ s. refl) (l.lpush_head k v s).1,
    pop-Answers k s ((view s).values k) refl,
  )

  pub redis_destroy-Refines :
      (key : RedisKey) (s : r.State) → Refines (redis_destroy r key) (destroy_spec (key_name key)) s
  unfolding redis_destroy
  redis_destroy-Refines key s =
      passes uncounted (λ s. refl) (λ s. refl) (l.del_all (key_name key) s).1

  abbrev with_values : Keyspace → (Bytes → List Bytes) → Keyspace
  with_values y m = record y { values = m }

  abbrev put_values : Bytes → List Bytes → Keyspace → Keyspace
  put_values k vs y = record y { values = put_list y.values k vs }

  put_back :
      (k : Bytes) (vs : List Bytes) (y : Keyspace)
      → put_values k (y.values k) (put_values k vs y) ≡ y
  put_back k vs y = ap (with_values y) (fun_ext (λ j. at j (Bool-cases (same k j))))
    where
      at :
          (j : Bytes)
          → (same k j ≡ true) ⊎ (same k j ≡ false)
          → put_list (put_list y.values k vs) k (y.values k) j ≡ y.values j
      at j (inl e) = ground (arith, e, ap y.values ((same_iff k j).0 e))
      at j (inr e) = ground (arith, e)

  -- Whatever waits in a queue, a value that Push has taken is the next one that Pop gives, or Pop fails, and nothing else is gone.
  pub redis_pop-push :
      (k v : Bytes) (s : r.State)
      → (redis_push r (redis_queue k) v s).0 ≡ ok tt
      → Answers view
          (redis_pop r false false (redis_queue k) (redis_push r (redis_queue k) v s).1)
          (ok v)
          (view s)
  redis_pop-push k v s e =
      let after = (redis_push r (redis_queue k) v s).1 in
      elim (redis_queue-Refines k v s).0 [
        | inl (done, at) ↦
            subst (Answers view (redis_pop r false false (redis_queue k) after) (ok v))
              (ap (put_values k ((view s).values k)) at
                ∙ put_back k (v ∷ (view s).values k) (view s))
              (pop-Answers k after (v ∷ (view s).values k)
                (ap (λ y. y.values k) at ∙ ground (arith, same_self k)))
        | inr failed ↦ absurd (ground (arith, e, failed))
      ]
