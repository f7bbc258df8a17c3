-- ===== src/Lib.antt =====
-- yodi: an MQTT 3.1.1 broker (pkg/mqtt, pkg/store), its daemons (cmd), and a client for devices (client).
--
-- A device connects to the broker over TCP or a WebSocket. The broker reads its packets, checks its
-- user and the access rules, and keeps clients, subscriptions and messages in a store. Another daemon,
-- the mailman, takes published messages from the store and queues them for the subscribers. This
-- library models the broker from the bytes of a packet to the contents of the store.
--
-- Base         lists, bytes, maps, decimal numbers, and the outcomes of a Go call: a value, an error, or
--              no return (a panic, waiting for ever, or fuel that ran out). A call passes its state on.
--              Keeps, Steady, Gives and Follows hold the rules for what calls keep, how they end, what
--              they return, and how they agree on two states.
-- Transport    the `io.Reader` and `io.Writer` of a client, as an interface. Three records say what a
--              theorem asks of it: an unbroken stream of bytes, reads and writes that are whole, or
--              that its bytes come to an end.
-- Wire         pkg/mqtt/length.go (Length), header.go (Header), string.go (Text), and what encoding/binary
--              does with big-endian numbers and fixed-size structs (Binary).
-- Message      pkg/mqtt/message.go, qos.go.
-- Packet       what the handlers of pkg/mqtt read and write: connect.go, publish.go and the
--              acknowledgements. `readConnect` and `readPublish` stop here before their handler.
-- Auth         pkg/mqtt/auth.go.
-- Json         encoding/json, as an interface: that text comes back as it was.
-- Store        pkg/store: the interfaces as a record. Store/Contents is the abstract store, sets, queues
--              and maps by key; Store/Memory is the memory store, with its objects behind pointers;
--              Store/Redis is the Redis store over the commands of a server, and its connection.
-- Broker       pkg/mqtt/broker.go, over any store, any JSON and any clock.
-- Client       pkg/mqtt/client.go and the handlers: `readPacket`, `Run`, `Close`, and `handle` of
--              cmd/broker/main.go, which puts them together.
-- Delivery     the goroutines of a subscriber, `notifyClient`, `queueMessages` and `deliverMessages`, as
--              one step relation, with their channels and the lock of the map that a scan holds.
-- WebSocket    pkg/mqtt/websocket.go, as a Transport over the messages of a WebSocket.
-- Mailman      the loop of cmd/mailman/main.go, composed from two operations of the broker.
-- Service      the broker at work: the goroutine of each connection (`main` of cmd/broker/main.go), the
--              message routines, and the mailman, over one store, as one step relation. Names follows
--              the names of the clients, Locked a name that is left behind, Reaching a message from its
--              packet to its subscribers, and OnMemory carries runs over from the memory store, with the
--              queues that the notifying routines hold (Held).
-- Web          cmd/web/main.go: `handleMQTT`, the check of credentials, and the skipper.
-- Tests        runs on small inputs.
--
-- Names are those of the source in snake case: `writeFixedHeader` is `write_fixed_header`. A definition
-- whose name differs has the Go name in a comment.
--
-- Numbers are natural numbers. Where Go converts to or counts in uint16 or uint32, the model takes the
-- remainder; lengths of `int` do not overflow. A byte is a number, and the theorems that need it below
-- 256 say so. Times are nanoseconds since the zero `time.Time`, for a clock past 1970.
--
-- Fuel: the two loops of length.go have four rounds, as in the source. `read_payload` and `read_full`
-- take a round for each byte that is missing; a round that goes on has read one. `run` is bounded by a
-- number of packets: on a connection with finitely many bytes, one packet more than bytes is enough.
-- `read_loop` of a WebSocket has enough rounds with one for each byte and each message, since a round
-- that reads nothing ends a message. A scan of the Redis store has one round for each reply.
--
-- The two stores: the broker, a client and the mailman are written over any store. What they do is proved
-- over the abstract store, and carried over to the memory store by rules for two states of which one is
-- what is seen of the other (Base/Follows; Store/Memory/Calls, Broker/OnMemory, Broker/Serving,
-- Client/Alike, Mailman/OnMemory). The kind of each key is fixed by its text (Broker/Kinds). `notifyClient`
-- fetches its queue once: Store/Memory/Stale says what becomes of a reference whose key is destroyed.
--
-- Concurrency: Delivery takes the steps of its goroutines in any order, and each call of the store as one
-- step; the lock of the map is a flag there, and a write that waits for ever is no step. It is about a client
-- that `RemoveClient` has not removed; removal is a part of Service. Service takes the handling of a packet, a closing, a call of a
-- message routine and a round of the mailman as one step each, in any order; a call that would wait is no
-- step until it need not wait. Elsewhere a call runs alone, so `Pop` and a full queue give
-- the outcome that they wait, and two flags stand for the context and for the choice of `select`.
--
-- Parameters: the connection, the WebSocket, the Redis server and its client library, encoding/json, and
-- the upgrade of a request. What a theorem needs of their documentation stands in a record beside each.
--
-- Not modelled: deadlines; the other locks, so the callbacks of a `Scan` outside Delivery do not come back
-- to the object under the lock; logging; in cmd, the set-up of the processes, their environment and the routes of
-- the web server, which are calls of libraries; the client for devices, a separate program in C. Keys that Go
-- iterates in any order come in the order of a list, and the theorems hold for every list.
pub mod Base
pub mod Message
pub mod Transport
pub mod Wire
pub mod Packet
pub mod Store
pub mod Auth
pub mod Json
pub mod Broker
pub mod Client
pub mod Delivery
pub mod WebSocket
pub mod Mailman
pub mod Service
pub mod Web
pub mod Tests
