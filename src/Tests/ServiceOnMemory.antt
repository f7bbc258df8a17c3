-- ===== src/Tests/ServiceOnMemory.antt =====
-- The broker at work on a memory store.
use yodi.Base.{
  none, true, for_each, ◌≡◌, ◌≢◌, ◌⊎◌, codes, contains, same, some, ok, err, halt, Halt, Error,
  refl, arith, ◌>>=◌,
}
use yodi.Base.Assoc.{lookup, insert, erase}
use yodi.Wire.Length.{encode_remaining_length, encode_loop, decode_remaining_length, decode_loop}
use yodi.Wire.Binary.{read_struct, read_full}
use yodi.Wire.Text.{read_string}
use yodi.Wire.Header.{message_type, write_fixed_header, write_fixed_header_with_flags}
use yodi.Packet.{
  read_header, parse_connect, read_connect_field, next_remaining, refuse, write_connect_ack,
  write_struct,
}
use yodi.Auth.{authenticate_user, find_user, check_user, check_password, users_map}
use yodi.Broker.{Server, add_client}
use yodi.Broker.Kinds.{broker_kind, at_users}
use yodi.Client.{
  Env, new_client, run, read_packet, on_conn, on_store, on_server, read_connect, handle_connect,
  authenticate_connect, keep_user, answer_error,
}
use yodi.Client.Alike.{on_memory, on_contents}
use yodi.Client.OnMemory.{run_ends_on_memory}
use yodi.Store.Memory.{MemoryRef}
use yodi.Broker.{
  client_message_notification, client_subscriptions_set, client_message_queue, remove_client,
  pop_from,
}
use yodi.Broker.OnMemory.{see_server}
use yodi.Client.{close}
use yodi.Client.Alike.{see_client}
use yodi.Service.{
  queue_for, pop_of, notify, put_db, put, listen, close_client, closed, client_at, Service, Steps,
  here, next, accept, packet, start, put_down, packet_of, phase_after, running,
}
use yodi.Service.OnMemory.{see_service, Steps-Refines}
use yodi.Store.Memory.{
  MemoryStore, new_memory_store, allocate, is_set, is_map, assert_type, find_or_add, is_queue,
  memory_destroy, memory_members, memory_remove, memory_pop, memory_add, memory_put, memory_get,
  or_no_key, on_object, write_back,
}
use yodi.Store.Memory.View.{IsSound}
use yodi.Store.Memory.Instance.{memory}
use yodi.Store.Memory.Calls.{put-OnMemory}
use yodi.Tests.Pipe.{alice, pipe, holding, nothing, json, connect_packet}
use yodi.Tests.Client.{pipe-IsFinite}
use yodi.Tests.Memory.{new_memory_store-IsSound}

abbrev env : Env
env = on_memory pipe json

-- A memory store that knows the user "u".
abbrev with_user : MemoryStore
with_user =
    ((memory.map_of users_map >>= λ r. memory.map_set r (codes "u") (codes "{}"))
      new_memory_store).1

with_user-IsSound : IsSound broker_kind with_user
with_user-IsSound =
    ((put-OnMemory broker_kind users_map (codes "u") (codes "{}") at_users).at new_memory_store
      (new_memory_store-IsSound broker_kind)).2

abbrev server : Server memory
server = record { db = with_user; times = λ i. 63713433600000000000; readings = 0 }

abbrev empty_service : Service env
empty_service = start env server (λ i. new_client env nothing server)

abbrev accepted : Service env
accepted = put_down env empty_service 3 running (new_client env (holding connect_packet) server)

abbrev connected : Service env
connected =
    put_down env accepted 3 (phase_after (packet_of env accepted 3).0) (packet_of env accepted 3).1

alice_connects : (packet_of env accepted 3).0 ≡ ok tt
unfolding same lookup contains encode_remaining_length encode_loop read_packet new_client on_conn
    read_header decode_remaining_length decode_loop read_connect parse_connect read_struct read_full
    read_connect_field read_string next_remaining refuse write_connect_ack write_struct
    write_fixed_header write_fixed_header_with_flags handle_connect authenticate_connect keep_user
    answer_error on_store on_server authenticate_user find_user check_user check_password add_client
    message_type allocate is_set is_map assert_type find_or_add memory_add memory_put memory_get
    or_no_key on_object write_back insert client_message_notification
alice_connects = refl

ok-ne-halt : (h : Halt) → ◌≢◌ (packet_of env accepted 3).0 (halt h)
ok-ne-halt h = λ e. cc (alice_connects)

-- The queue of the client, behind the map of users and the set of clients.
abbrev alice_queue : MemoryRef
alice_queue = record { address = 2; key = client_message_notification alice }

alice_listens : (queue_for env connected 3).0 ≡ ok alice_queue
unfolding same lookup contains encode_remaining_length encode_loop read_packet new_client on_conn
    read_header decode_remaining_length decode_loop read_connect parse_connect read_struct read_full
    read_connect_field read_string next_remaining refuse write_connect_ack write_struct
    write_fixed_header write_fixed_header_with_flags handle_connect authenticate_connect keep_user
    answer_error on_store on_server authenticate_user find_user check_user check_password add_client
    message_type allocate is_set is_map assert_type find_or_add memory_add memory_put memory_get
    or_no_key on_object write_back insert client_message_notification
alice_listens = refl

abbrev listening : Service env
listening = record (put_db env connected (queue_for env connected 3).1) {
  queues = put 3 (some alice_queue) connected.queues;
}

-- The connection has ended.
abbrev at_end : Service env
at_end =
    put_down env listening 3 (phase_after (packet_of env listening 3).0)
      (packet_of env listening 3).1

hangs_up : (packet_of env listening 3).0 ≡ err Error.eof
unfolding same lookup contains encode_remaining_length encode_loop read_packet new_client on_conn
    read_header decode_remaining_length decode_loop read_connect parse_connect read_struct read_full
    read_connect_field read_string next_remaining refuse write_connect_ack write_struct
    write_fixed_header write_fixed_header_with_flags handle_connect authenticate_connect keep_user
    answer_error on_store on_server authenticate_user find_user check_user check_password add_client
    message_type allocate is_set is_map assert_type find_or_add memory_add memory_put memory_get
    or_no_key on_object write_back insert client_message_notification
hangs_up = refl

err-ne-halt : (h : Halt) → ◌≢◌ (packet_of env listening 3).0 (halt h)
err-ne-halt h = λ e. cc (hangs_up)

abbrev removed : Service env
removed = put_down env at_end 3 closed (close env (client_at env at_end 3)).1

alice_removed : Steps env empty_service removed
unfolding same lookup contains encode_remaining_length encode_loop read_packet new_client on_conn
    read_header decode_remaining_length decode_loop read_connect parse_connect read_struct read_full
    read_connect_field read_string next_remaining refuse write_connect_ack write_struct
    write_fixed_header write_fixed_header_with_flags handle_connect authenticate_connect keep_user
    answer_error on_store on_server authenticate_user find_user check_user check_password add_client
    message_type allocate is_set is_map assert_type find_or_add memory_add memory_put memory_get
    or_no_key on_object write_back insert client_message_notification
alice_removed =
    next
      (next
        (next (next (next here (accept 3 (holding connect_packet) refl)) (packet 3 refl ok-ne-halt))
          (listen 3 alice_queue (λ e. cc) refl alice_listens))
        (packet 3 refl err-ne-halt))
      (close_client 3 refl)

-- Its queue is not in the store, and the routine still pops from it.
removed_and_held :
    (lookup (client_message_notification alice) removed.server.db.items ≡ none)
    × ((pop_of env removed alice_queue true true).0 ≡ err Error.context_done)
unfolding same lookup contains encode_remaining_length encode_loop read_packet new_client on_conn
    read_header decode_remaining_length decode_loop read_connect parse_connect read_struct read_full
    read_connect_field read_string next_remaining refuse write_connect_ack write_struct
    write_fixed_header write_fixed_header_with_flags handle_connect authenticate_connect keep_user
    answer_error on_store on_server authenticate_user find_user check_user check_password add_client
    message_type allocate is_set is_map assert_type find_or_add memory_add memory_put memory_get
    or_no_key on_object write_back insert client_message_notification client_subscriptions_set
    client_message_queue remove_client close memory_destroy memory_members memory_remove memory_pop
    erase pop_from for_each is_queue
removed_and_held = (refl, refl)

context_done-ne-halt : (h : Halt) → ◌≢◌ (pop_of env removed alice_queue true true).0 (halt h)
context_done-ne-halt h = λ e. cc (removed_and_held.1)

abbrev popped : Service env
popped = put_db env removed (pop_of env removed alice_queue true true).1

alice_popped : Steps env empty_service popped
alice_popped = next alice_removed (notify 3 alice_queue true true refl context_done-ne-halt)

Steps-Refines_example :
    Steps
      (on_contents pipe json)
      (start
        (on_contents pipe json)
        (see_server server)
        (λ i. see_client pipe json (new_client env nothing server)))
      (see_service pipe json popped)
    × IsSound broker_kind popped.server.db
Steps-Refines_example =
    Steps-Refines pipe json server (λ i. new_client env nothing server) with_user-IsSound
      alice_popped

run_ends_on_memory_example :
    let call = run env 32 (new_client env (holding connect_packet) server) in
    ((x : Error) × (call.0 ≡ err x)) ⊎ (call.0 ≡ halt Halt.blocks)
unfolding pipe-IsFinite
run_ends_on_memory_example =
    run_ends_on_memory pipe json pipe-IsFinite 32 (holding connect_packet) server with_user-IsSound
      (omega arith)
