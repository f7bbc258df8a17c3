-- ===== src/Tests/Client.antt =====
-- A client, from its CONNECT packet on.
use yodi.Transport.{IsFinite}
use yodi.Client.Ending.{run_ends}
use yodi.Client.Indices.{handle-IsAgreed}
use yodi.Broker.Subscriptions.{IsAgreed}
use yodi.Client.{min_ping_interval}
use yodi.Base.{◌⊎◌, ◌≤◌, codes}
use yodi.Tests.Pipe.{door}
use yodi.Base.{
  ℕ, zero, suc, ◌<◌, ◌≤◌, ◌≢◌, ◌⊎◌, Bytes, length, ok, halt, Halt, drop, ◌≡◌, ◌∷◌, [], ◌++◌,
  contains, same, true, false, some, err, Error, refl, arith,
}
use yodi.Packet.{
  read_header, handle_ping, parse_connect, read_connect_field, next_remaining, refuse,
  write_connect_ack, write_struct,
}
use yodi.Base.Assoc.{lookup}
use yodi.Wire.Length.{encode_remaining_length, encode_loop, decode_remaining_length, decode_loop}
use yodi.Wire.Binary.{read_struct, read_full}
use yodi.Wire.Text.{read_string}
use yodi.Auth.{authenticate_user, find_user, check_user, check_password}
use yodi.Broker.{add_client}
use yodi.Wire.Header.{message_type, write_fixed_header, write_fixed_header_with_flags}
use yodi.Client.{
  Client, new_client, run, read_packet, handle_connect, read_ping, handle, on_conn, on_store,
  on_server, read_connect, authenticate_connect, keep_user, answer_error,
}
use yodi.Client.Isolation.{read_packet-IsUntouched}
use yodi.Broker.Others.{IsUntouched}
use yodi.Client.Session.{IsSession, run-IsSession}
use yodi.Client.Gate.{run-read_ping}
use yodi.Tests.Pipe.{
  pipe_read, pipe, holding, nothing, alice, user, json, server, pipe_env, connect_packet,
}

-- CONNECT, then a ping.
abbrev pinging : Client pipe_env
pinging = new_client pipe_env (holding (connect_packet ++ (192 ∷ 0 ∷ []))) server

connected : (read_packet pipe_env pinging).1.registered ≡ true
unfolding same lookup contains encode_remaining_length encode_loop read_packet new_client on_conn
    read_header decode_remaining_length decode_loop read_connect parse_connect read_struct read_full
    read_connect_field read_string next_remaining refuse write_connect_ack write_struct
    write_fixed_header write_fixed_header_with_flags handle_connect authenticate_connect keep_user
    answer_error on_store on_server authenticate_user find_user check_user check_password add_client
    message_type
connected = refl

run-IsSession_example : IsSession (run pipe_env 2 pinging).1
run-IsSession_example = run-IsSession pipe_env 2 (holding (connect_packet ++ (192 ∷ 0 ∷ []))) server

abbrev known : Client pipe_env
known = record {
  conn = nothing;
  server = server;
  client_id = alice;
  registered = true;
  started = false;
  last_ping_time = 0;
  user = some user;
}

-- Alice subscribes to "door" at QoS 0.
abbrev subscribing : Client pipe_env
subscribing = record known { conn = holding (130 ∷ 9 ∷ 0 ∷ 1 ∷ 0 ∷ 4 ∷ door ++ (0 ∷ [])) }

read_packet-IsUntouched_example :
    IsUntouched (codes "bob") server.db (read_packet pipe_env subscribing).1.server.db
read_packet-IsUntouched_example =
    read_packet-IsUntouched pipe 64 json (codes "bob") subscribing (λ e. cc)

run-read_ping_example :
    let c = (run pipe_env 3 pinging).1 in
    let t = c.server.times c.server.readings in
    (t < min_ping_interval)
      × ((read_ping pipe_env (record { flags = 192; message_length = 0 }) c).0
          ≡ err Error.pings_too_often)
    ⊎ (min_ping_interval ≤ t)
      × ((read_ping pipe_env (record { flags = 192; message_length = 0 }) c).0
          ≡ (handle_ping pipe c.conn).0)
run-read_ping_example =
    run-read_ping pipe_env 3 (holding (connect_packet ++ (192 ∷ 0 ∷ []))) server
      (record { flags = 192; message_length = 0 })

-- A pipe brings the bytes that it holds.
length-drop_le : (n : ℕ) (xs : Bytes) → length (drop n xs) ≤ length xs
length-drop_le zero xs = omega arith
length-drop_le (suc n) [] = omega arith
length-drop_le (suc n) (x ∷ xs) = ground (arith, length-drop_le n xs)

pub pipe_takes :
    (n : ℕ) (p s bs : Bytes)
    → (pipe_read (suc n) (record { pending = p; sent = s })).0 ≡ ok bs
    → (0 < length bs)
      × (length (pipe_read (suc n) (record { pending = p; sent = s })).1.pending < length p)
pipe_takes n [] s bs e = absurd (ground (arith, e))
pipe_takes n (b ∷ p) s bs e = (ground (arith, e), ground (arith, length-drop_le n p))

pub pipe_shrinks :
    (n : ℕ) (p s : Bytes)
    → length (pipe_read n (record { pending = p; sent = s })).1.pending ≤ length p
pipe_shrinks zero p s = omega arith
pipe_shrinks (suc n) [] s = ground arith
pipe_shrinks (suc n) (b ∷ p) s = ground (arith, length-drop_le n p)

pub pipe_returns :
    (n : ℕ) (p s : Bytes) (h : Halt) → (pipe_read n (record { pending = p; sent = s })).0 ≢ halt h
pipe_returns zero p s h = λ e. cc
pipe_returns (suc n) [] s h = λ e. absurd (ground (arith, e))
pipe_returns (suc n) (b ∷ p) s h = λ e. absurd (ground (arith, e))

unfoldable pub pipe-IsFinite : IsFinite pipe
pipe-IsFinite = record {
  left = λ c. length c.pending;
  read_le = λ n c. pipe_shrinks n c.pending c.sent;
  read_some = λ n c bs e. pipe_takes n c.pending c.sent bs e;
  read_returns = λ n c h. pipe_returns n c.pending c.sent h;
  write_le = λ p c. omega arith;
  write_returns = λ p c h e. cc;
}

run_ends_example :
    let call = run pipe_env 32 pinging in
    ((x : Error) × (call.0 ≡ err x)) ⊎ (call.0 ≡ halt Halt.blocks)
unfolding pipe-IsFinite
run_ends_example =
    run_ends pipe pipe-IsFinite 64 json 32 (holding (connect_packet ++ (192 ∷ 0 ∷ []))) server
      (omega arith)

server-IsAgreed : IsAgreed server.db
unfolding contains
server-IsAgreed = record { agree = λ t c. refl }

handle-IsAgreed_example :
    IsAgreed (handle pipe_env 32 (holding (connect_packet ++ (192 ∷ 0 ∷ []))) server).server.db
handle-IsAgreed_example =
    handle-IsAgreed pipe 64 json 32 (holding (connect_packet ++ (192 ∷ 0 ∷ []))) server
      server-IsAgreed
