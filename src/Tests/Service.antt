-- ===== src/Tests/Service.antt =====
-- The broker at work, with clients that connect.
use yodi.Base.{ℕ, ◌≡◌, ◌≢◌, [], Bytes, contains, same, true, false, Result, ok, halt, Halt, refl}
use yodi.Base.Assoc.{lookup}
use yodi.Wire.Length.{encode_remaining_length, encode_loop, decode_remaining_length, decode_loop}
use yodi.Wire.Binary.{read_struct, read_full}
use yodi.Wire.Text.{read_string}
use yodi.Wire.Header.{message_type, write_fixed_header, write_fixed_header_with_flags}
use yodi.Packet.{
  read_header, parse_connect, read_connect_field, next_remaining, refuse, write_connect_ack,
  write_struct,
}
use yodi.Auth.{authenticate_user, find_user, check_user, check_password}
use yodi.Broker.{add_client}
use yodi.Client.{
  Env, Client, new_client, read_packet, on_conn, on_store, on_server, read_connect, handle_connect,
  authenticate_connect, keep_user, answer_error, close,
}
use yodi.Client.Leak.{env}
use yodi.Client.Indices.{InOrder}
use yodi.Service.{
  Service, Steps, here, next, accept, packet, start, put_down, packet_of, phase_after, running,
  client_at, close_client, closed,
}
use yodi.Service.Names.{IsOrderly, started-IsOrderly, known}
use yodi.Service.Locked.{unacknowledged_for_ever}
use yodi.Tests.Pipe.{
  alice, pipe, broken_pipe, pipe_env, holding, nothing, server, json, connect_packet,
}

abbrev empty_service : Service pipe_env
empty_service = start pipe_env server (λ i. new_client pipe_env nothing server)

-- Connection 3, over which a CONNECT comes.
abbrev accepted : Service pipe_env
accepted =
    put_down pipe_env empty_service 3 running (new_client pipe_env (holding connect_packet) server)

abbrev connected : Service pipe_env
connected =
    put_down pipe_env accepted 3 (phase_after (packet_of pipe_env accepted 3).0)
      (packet_of pipe_env accepted 3).1

alice_connects : (packet_of pipe_env accepted 3).0 ≡ ok tt
unfolding same lookup contains encode_remaining_length encode_loop read_packet new_client on_conn
    read_header decode_remaining_length decode_loop read_connect parse_connect read_struct read_full
    read_connect_field read_string next_remaining refuse write_connect_ack write_struct
    write_fixed_header write_fixed_header_with_flags handle_connect authenticate_connect keep_user
    answer_error on_store on_server authenticate_user find_user check_user check_password add_client
    message_type
alice_connects = refl

ok-ne-halt : (h : Halt) → ◌≢◌ (packet_of pipe_env accepted 3).0 (halt h)
ok-ne-halt h = λ e. cc (alice_connects)

alice_runs : Steps pipe_env empty_service connected
alice_runs = next (next here (accept 3 (holding connect_packet) refl)) (packet 3 refl ok-ne-halt)

server-InOrder : InOrder pipe 64 json server.db
unfolding contains
server-InOrder = (record { agree = λ t c. refl }, λ k. tt)

started-IsOrderly_example : IsOrderly pipe 64 json connected
started-IsOrderly_example =
    started-IsOrderly pipe 64 json server (λ i. new_client pipe_env nothing server) server-InOrder
      alice_runs

-- The same, where the acknowledgement cannot be sent.
abbrev broken_env : Env
broken_env = env broken_pipe 64 json

abbrev empty_broken : Service broken_env
empty_broken = start broken_env server (λ i. new_client broken_env nothing server)

abbrev broken : Service broken_env
broken =
    put_down broken_env empty_broken 3 running
      (new_client broken_env (holding connect_packet) server)

abbrev call : Result (Unit {0}) × Client broken_env
call = packet_of broken_env broken 3

unheard : (call.1.registered ≡ true) × (call.1.client_id ≡ [])
unfolding same lookup contains encode_remaining_length encode_loop read_packet new_client on_conn
    read_header decode_remaining_length decode_loop read_connect parse_connect read_struct read_full
    read_connect_field read_string next_remaining refuse write_connect_ack write_struct
    write_fixed_header write_fixed_header_with_flags handle_connect authenticate_connect keep_user
    answer_error on_store on_server authenticate_user find_user check_user check_password add_client
    message_type
unheard = (refl, refl)

broken-IsOrderly : IsOrderly broken_pipe 64 json broken
broken-IsOrderly =
    started-IsOrderly broken_pipe 64 json server (λ i. new_client broken_env nothing server)
      server-InOrder (next here (accept 3 (holding connect_packet) refl))

abbrev unheard_service : Service broken_env
unheard_service = put_down broken_env broken 3 (phase_after call.0) call.1

-- The connection is closed, and a new one accepted.
abbrev closed_service : Service broken_env
closed_service =
    put_down broken_env unheard_service 3 closed
      (close broken_env (client_at broken_env unheard_service 3)).1

abbrev again : Service broken_env
again =
    put_down broken_env closed_service 4 running
      (new_client broken_env (holding connect_packet) closed_service.server)

goes_on : Steps broken_env unheard_service again
unfolding same lookup contains encode_remaining_length encode_loop read_packet new_client on_conn
    read_header decode_remaining_length decode_loop read_connect parse_connect read_struct read_full
    read_connect_field read_string next_remaining refuse write_connect_ack write_struct
    write_fixed_header write_fixed_header_with_flags handle_connect authenticate_connect keep_user
    answer_error on_store on_server authenticate_user find_user check_user check_password add_client
    message_type
goes_on = next (next here (close_client 3 refl)) (accept 4 (holding connect_packet) refl)

alice_is_new : known broken_pipe 64 json broken alice ≡ false
unfolding contains new_client
alice_is_new = refl

alice_is_added : known broken_pipe 64 json unheard_service alice ≡ true
unfolding same lookup contains encode_remaining_length encode_loop read_packet new_client on_conn
    read_header decode_remaining_length decode_loop read_connect parse_connect read_struct read_full
    read_connect_field read_string next_remaining refuse write_connect_ack write_struct
    write_fixed_header write_fixed_header_with_flags handle_connect authenticate_connect keep_user
    answer_error on_store on_server authenticate_user find_user check_user check_password add_client
    message_type
alice_is_added = refl

unacknowledged_for_ever_example :
    (alice ≢ [])
    × ((j : ℕ) (username password : Bytes)
        → (handle_connect broken_env
            (record { client_id = alice; username = username; password = password })
            (client_at broken_env again j)).0
          ≢ ok tt)
unfolding new_client
unacknowledged_for_ever_example =
    unacknowledged_for_ever broken_pipe 64 json 3 alice broken-IsOrderly refl unheard.0 unheard.1
      alice_is_new alice_is_added goes_on
