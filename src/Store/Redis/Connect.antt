-- ===== src/Store/Redis/Connect.antt =====
-- pkg/store/redis_store.go: connectToRedis and NewRedisStore.
use yodi.Base.{
  ◌≡◌, Bytes, List, [], ◌∷◌, Exec, Result, ok, err, halt, Halt, Error, pure, ignore, forget,
  continue, sym, refl, ap, ◌∙◌, ◌>>=◌, ◌>>◌,
}
use mathlib.Core.Path.{subst}

-- What the code calls of go-redis and of the environment. `parse_url` is `ParseURL` of the variable `REDIS_URL`; options are values here,
-- since `NewClient` reads them before the next user name is set.
pub record Dialer : Type 1 where
  pub World : Type 0
  pub Options : Type 0
  pub Client : Type 0
  pub parse_url : Exec World Options
  pub username : Options → Bytes
  pub with_username : Bytes → Options → Options
  pub with_pool_size : Options → Options
  pub new_client : Options → Exec World Client
  pub ping : Client → Exec World (Unit {0})
  pub close : Client → Exec World (Unit {0})

module _ (d : Dialer) where
  open d use {
    World, Options, Client, parse_url, username, with_username, with_pool_size, new_client, ping,
    close,
  }

  -- A client that does not answer is closed, and what comes next is `next`.
  pub after_ping : Client → (Error → Exec World Client) → Result (Unit {0}) → Exec World Client
  after_ping c next (ok _) w = (ok c, w)
  after_ping c next (err e) w = (ignore (close c) >> next e) w
  after_ping c next (halt h) w = (halt h, w)

  pub try_username : Bytes → Options → (Error → Exec World Client) → Exec World Client
  unfolding after_ping
  try_username name opts next = do
    c ← new_client (with_username name opts)
    λ w. after_ping c next (ping c w).0 (ping c w).1

  pub connect_to_redis : Exec World Client
  connect_to_redis = do
    opts ← parse_url
    try_username (username opts) (with_pool_size opts)
        (λ _. try_username [] (with_pool_size opts) (λ e w. (err e, w)))

  -- `NewRedisStore`, whose store is its client, and `Close`, which drops the error.
  pub new_redis_store : Exec World Client
  new_redis_store = do client ← connect_to_redis; pure client

  pub close_redis_store : Client → Exec World (Unit {0})
  close_redis_store client = ignore (close client)

-- What the code relies on: a new client counts as open until it is closed, and nothing else opens or closes one.
pub record IsDialer (d : Dialer) : Type 0 where
  pub opened : d.World → List d.Client
  pub parse_opens : (w : d.World) → opened (d.parse_url w).1 ≡ opened w
  pub new_opens :
      (o : d.Options) (w : d.World)
      → (c : d.Client) × ((d.new_client o w).0 ≡ ok c)
        × (opened (d.new_client o w).1 ≡ c ∷ opened w)
  pub ping_opens : (c : d.Client) (w : d.World) → opened (d.ping c w).1 ≡ opened w
  pub close_opens :
      (c : d.Client) (rest : List d.Client) (w : d.World)
      → opened w ≡ c ∷ rest
      → opened (d.close c w).1 ≡ rest

module _ {d : Dialer} (l : IsDialer d) where
  open l use {opened}

  -- Nothing is left open but the client that is returned, if one is, and that one has answered a ping.
  pub data Leaves (before : List d.Client) : Result d.Client × d.World → Type 0 where
    connected :
        {c : d.Client} {v w : d.World}
        → d.ping c v ≡ (ok tt, w)
        → opened w ≡ c ∷ before
        → Leaves before (ok c, w)
    failed : {e : Error} {w : d.World} → opened w ≡ before → Leaves before (err e, w)
    halted : {h : Halt} {w : d.World} → Leaves before (halt h, w)

  closed-Leaves :
      {before : List d.Client} (next : Exec d.World d.Client)
      → ((w : d.World) → opened w ≡ before → Leaves before (next w))
      → (r : Result (Unit {0})) (w : d.World) → opened w ≡ before
      → Leaves before (continue (forget r) (λ _. next) w)
  closed-Leaves next l (ok a) w h = l w h
  closed-Leaves next l (err e) w h = l w h
  closed-Leaves next l (halt x) w h = halted

  after_ping-Leaves :
      {before : List d.Client} (c : d.Client) (next : Error → Exec d.World d.Client) (v w : d.World)
      (r : Result (Unit {0}))
      → d.ping c v ≡ (r, w)
      → opened w ≡ c ∷ before
      → ((e : Error) (w : d.World) → opened w ≡ before → Leaves before (next e w))
      → Leaves before (after_ping d c next r w)
  unfolding after_ping
  after_ping-Leaves c next v w (ok tt) e h n = connected e h
  after_ping-Leaves {before} c next v w (err x) e h n =
      closed-Leaves (next x) (n x) (d.close c w).0 (d.close c w).1 (l.close_opens c before w h)
  after_ping-Leaves c next v w (halt x) e h n = halted

  try_username-Leaves :
      {before : List d.Client} (name : Bytes) (o : d.Options) (next : Error → Exec d.World d.Client)
      (w : d.World)
      → opened w ≡ before
      → ((e : Error) (w : d.World) → opened w ≡ before → Leaves before (next e w))
      → Leaves before (try_username d name o next w)
  unfolding try_username
  try_username-Leaves {before} name o next w h n =
      let (c, made, one) = l.new_opens (d.with_username name o) w in
      let v = (d.new_client (d.with_username name o) w).1 in
      subst (Leaves before)
        (ap (λ r. continue r (λ c w. after_ping d c next (d.ping c w).0 (d.ping c w).1) v)
          (sym made))
        (after_ping-Leaves c next v (d.ping c v).1 (d.ping c v).0 refl
          (l.ping_opens c v ∙ one ∙ ap (◌∷◌ c) h) n)

  -- connectToRedis leaves no connection open but that of the client that it returns, and that client has answered a ping: whichever
  -- pings fail, and also where the URL does not parse or closing a client fails.
  pub connect_to_redis-Leaves : (w : d.World) → Leaves (opened w) (connect_to_redis d w)
  unfolding connect_to_redis
  connect_to_redis-Leaves w = parsed (d.parse_url w).0 (d.parse_url w).1 (l.parse_opens w)
    where
      parsed :
          (r : Result d.Options) (v : d.World)
          → opened v ≡ opened w
          → Leaves (opened w) (
              continue r
                (λ opts.
                  try_username d
                    (d.username opts)
                    (d.with_pool_size opts)
                    (λ _. try_username d [] (d.with_pool_size opts) (λ e w. (err e, w))))
                v)
      parsed (ok opts) v h =
          try_username-Leaves (d.username opts) (d.with_pool_size opts) _ v h
            (λ _ u k. try_username-Leaves [] (d.with_pool_size opts) _ u k (λ e t i. failed i))
      parsed (err e) v h = failed h
      parsed (halt x) v h = halted

  -- A store that is opened and closed leaves no connection open.
  pub close-new :
      (w : d.World) (c : d.Client)
      → (new_redis_store d w).0 ≡ ok c
      → opened (close_redis_store d c (new_redis_store d w).1).1 ≡ opened w
  unfolding new_redis_store close_redis_store
  close-new w c e = after (connect_to_redis d w) (connect_to_redis-Leaves w) e
    where
      value : d.Client → Result d.Client → d.Client
      value x (ok y) = y
      value x r = x

      after :
          (call : Result d.Client × d.World)
          → Leaves (opened w) call
          → (continue call.0 pure call.1).0 ≡ ok c
          → opened (d.close c (continue call.0 pure call.1).1).1 ≡ opened w
      after _ (connected {c = x} p h) e =
          l.close_opens c (opened w) _ (h ∙ ap (λ y. value x y ∷ opened w) e)
      after _ (failed h) e = absurd cc
      after _ halted e = absurd cc
