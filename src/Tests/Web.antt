-- ===== src/Tests/Web.antt =====
-- A small WebSocket, the login of the web server, and the connection to Redis.
use yodi.Base.{
  zero, ◌≤◌, ◌∙◌, pure, ℕ, suc, ◌+◌, ◌≡◌, ◌≢◌, ◌↔◌, ◌⊎◌, inl, Bytes, List, [], ◌∷◌, ◌++◌, codes,
  length, take, drop, Option, none, some, true, false, if◌then◌else◌, ◌==◌, Exec, ok, err, Error,
  refl, arith, take-append-drop, ap,
}
use yodi.Base.Assoc.{lookup}
use yodi.Auth.{User, users_map}
use yodi.WebSocket.{WebSocket, WebSocketConn, web_socket, binary_message}
use yodi.WebSocket.Frames.{IsFramed}
use yodi.WebSocket.Rounds.{frames}
use yodi.WebSocket.Whole.{web_socket_lem, unread}
use yodi.Web.{validate}
use yodi.Web.Access.{validate_lem, HasUser}
use yodi.Store.Contents.{contents}
use yodi.Store.Redis.Connect.{Dialer, IsDialer, Leaves, connect_to_redis, connect_to_redis-Leaves}
use yodi.Tests.Pipe.{json, with_user, alice}

-- The messages of the peer, the unread part of the one at hand, and what was written.
record Frames : Type 0 where
  current : Bytes
  waiting : List Bytes
  sent : Bytes

abbrev open_next : List Bytes → Exec Frames ℕ
open_next [] s = (err Error.eof, s)
open_next (f ∷ fs) s = (ok binary_message, record s { current = f; waiting = fs })

abbrev read_some : ℕ → Bytes → Frames → (Bytes × Option Error) × Frames
read_some n [] s = (([], some Error.eof), s)
read_some n (b ∷ bs) s = ((take n (b ∷ bs), none), record s { current = drop n (b ∷ bs) })

abbrev little_socket : WebSocket
little_socket = record {
  Socket = Frames;
  next_reader = λ s. open_next s.waiting s;
  read_frame = λ n s. read_some n s.current s;
  write_message = λ type b s. (ok tt, record s { sent = s.sent ++ b });
}

length-take_le : (n : ℕ) (xs : Bytes) → length (take n xs) ≤ n
length-take_le zero xs = omega arith
length-take_le (suc n) [] = omega arith
length-take_le (suc n) (x ∷ xs) = ground (arith, length-take_le n xs)

some_front :
    (n b : ℕ) (bs current : Bytes) (s : Frames)
    → current ≡ b ∷ bs
    → let call = read_some (suc n) current s in
      (x : ℕ) × (chunk : Bytes) × (end : Option Error) × (call.0 ≡ (x ∷ chunk, end))
      × ((x ∷ chunk) ++ call.1.current ≡ b ∷ bs)
      × (length chunk ≤ n)
      × ((end ≡ none) ⊎ (end ≡ some Error.eof) × (call.1.current ≡ []))
some_front n b bs [] s h = absurd (ground (arith, h))
some_front n b bs (c ∷ cs) s h = (
  c,
  take n cs,
  none,
  refl,
  ap (◌∷◌ c) (take-append-drop n cs) ∙ h,
  length-take_le n cs,
  inl refl,
)

same_waiting :
    (n : ℕ) (current : Bytes) (s : Frames) → (read_some n current s).1.waiting ≡ s.waiting
same_waiting n [] s = refl
same_waiting n (b ∷ bs) s = refl

same_sent : (n : ℕ) (current : Bytes) (s : Frames) → (read_some n current s).1.sent ≡ s.sent
same_sent n [] s = refl
same_sent n (b ∷ bs) s = refl

little_socket-IsFramed : IsFramed little_socket
little_socket-IsFramed = record {
  current = λ s. s.current;
  waiting = λ s. s.waiting;
  sent = λ s. s.sent;
  next_frame = λ s f fs h. ground (arith, h);
  no_frame = λ s h. (Error.eof, ground (arith, h));
  some_bytes = λ s n b bs h. some_front n b bs s.current s h;
  at_end = λ s n h. ground (arith, h);
  same_waiting = λ s n. same_waiting n s.current s;
  same_sent = λ s n. same_sent n s.current s;
  written = λ s b. (refl, refl, refl, refl);
}

abbrev rounds : ℕ → WebSocketConn little_socket → ℕ
rounds n c = suc (n + frames little_socket little_socket-IsFramed c)

-- A message that is half read, an empty one, and another one.
abbrev half_read : WebSocketConn little_socket
half_read = record {
  socket = record { current = codes "ab"; waiting = [] ∷ codes "cde" ∷ []; sent = codes "x" };
  frame = true;
}

web_socket_lem_example :
    let to_come = unread little_socket little_socket-IsFramed rounds (λ n c. omega arith) in
    let t = web_socket little_socket rounds in
    ((t.read 4 half_read).0 ≡ ok (take 4 (to_come half_read)))
    × (to_come (t.read 4 half_read).1 ≡ drop 4 (to_come half_read))
    × ((t.read 4 half_read).1.socket.sent ≡ codes "x")
    × ((t.write alice half_read).0 ≡ ok 5)
    × ((t.write alice half_read).1.socket.sent ≡ codes "x" ++ alice)
    × (to_come (t.write alice half_read).1 ≡ to_come half_read)
unfolding little_socket-IsFramed
web_socket_lem_example =
    web_socket_lem little_socket little_socket-IsFramed rounds (λ n c. omega arith) 4 alice
      half_read (omega arith)

validate_lem_example :
    let call = validate (contents 64) json (codes "u") (codes "p") with_user in
    (call.0 ≡ ok true ↔ ((user : User) × HasUser 64 json (codes "u") (codes "p") with_user user))
    × (call.0 ≡ ok false ↔ (
        (lookup (codes "u") (with_user.entries users_map) ≡ none)
        ⊎ ((raw : Bytes) × (user : User) × (lookup (codes "u") (with_user.entries users_map)
              ≡ some raw)
            × (json.unmarshal_user raw ≡ some user)
            × (user.password ≢ codes "p"))))
    × (call.0 ≡ err Error.failed_to_find_user ↔ (
        (raw : Bytes) × (lookup (codes "u") (with_user.entries users_map) ≡ some raw)
        × (json.unmarshal_user raw ≡ none)))
    × (call.1 ≡ with_user)
validate_lem_example = validate_lem 64 json (codes "u") (codes "p") with_user

-- A server of Redis that knows no user names; a client is its user name.
abbrev old_redis : Dialer
old_redis = record {
  World = List Bytes;
  Options = Bytes;
  Client = Bytes;
  parse_url = pure (codes "h");
  username = λ name. name;
  with_username = λ name o. name;
  with_pool_size = λ o. o;
  new_client = λ o w. (ok o, o ∷ w);
  ping = λ c w. (if length c == 0 then ok tt else err Error.redis_failed, w);
  close = λ c w. (ok tt, drop 1 w);
}

old_redis-IsDialer : IsDialer old_redis
old_redis-IsDialer = record {
  opened = λ w. w;
  parse_opens = λ w. refl;
  new_opens = λ o w. (o, refl, refl);
  ping_opens = λ c w. refl;
  close_opens = λ c rest w h. ap (drop 1) h;
}

connect_to_redis-Leaves_example : Leaves old_redis-IsDialer [] (connect_to_redis old_redis [])
unfolding old_redis-IsDialer
connect_to_redis-Leaves_example = connect_to_redis-Leaves old_redis-IsDialer []
