-- ===== src/Service.antt =====
-- The broker at work: the goroutines of its connections (`main` and `handle` of cmd/broker/main.go, and
-- cmd/web/main.go), the message routines that pkg/mqtt/client.go starts, and the rounds of
-- cmd/mailman/main.go, over one store. The handling of a packet, the closing of a client, a call of a
-- message routine and a round of the mailman are one step each, and the steps come in any order. A message
-- routine may update and send any message here; which ones it does is a part of Delivery.
pub mod Held
pub mod Locked
pub mod Names
pub mod OnMemory
pub mod Reaching
use yodi.Base.{
  ℕ, ◌≡◌, ◌≢◌, Option, none, some, Bool, true, false, ◌==◌, if◌then◌else◌, Exec, Result, ok, err,
  halt, Halt, Error,
}
use yodi.Message.{QueuedMessage}
use yodi.Packet
use yodi.Broker
use yodi.Broker.{Server}
use yodi.Client.{Env, Client, new_client, read_packet, close}
use yodi.Mailman.{deliver_one}

-- Where the goroutine of a connection stands: not yet there, in the loop of `Run`, behind `Run` with `Close` to come,
-- or at its end.
pub data Phase : Type 0 where
  vacant : Phase
  running : Phase
  ended : Phase
  closed : Phase

abbrev pub is_open : Phase → Bool
is_open running = true
is_open ended = true
is_open _ = false

-- After a packet `Run` goes on, unless there was an error.
abbrev pub phase_after : Result (Unit {0}) → Phase
phase_after (ok u) = running
phase_after _ = ended

abbrev pub put : {A : Type 0} → ℕ → A → (ℕ → A) → ℕ → A
put i x f j = if i == j then x else f j

-- The connections have numbers. What `clients` holds for a number that is vacant means nothing, and so does the field
-- `server` of a client that is not at work: all of them point to the server of the service.
pub record Service (e : Env) : Type 0 where
  pub server : Server e.store
  pub clients : ℕ → Client e
  pub phases : ℕ → Phase
  -- What `notifyClient` holds for a connection, from the call of `Queue` on: it fetches the queue once.
  pub queues : ℕ → Option (e.store.Ref)

-- The call returns, with a value or an error.
abbrev pub IsReturned : {A : Type 0} → Result A → Type 0
IsReturned r = (h : Halt) → r ≢ halt h

module _ (e : Env) where
  -- The client at work, with the server as the others left it.
  abbrev pub client_at : Service e → ℕ → Client e
  client_at s i = record (s.clients i) { server = s.server }

  -- What is left when the client `c` is put down again.
  abbrev pub put_down : Service e → ℕ → Phase → Client e → Service e
  put_down s i phase c = record {
    server = c.server;
    clients = put i c s.clients;
    phases = put i phase s.phases;
    queues = s.queues;
  }

  -- What a message routine sends over the connection of the client.
  abbrev pub send : QueuedMessage → Exec (Client e) (Unit {0})
  send m c = let call = Packet.publish e.transport m c.conn in (call.0, record c { conn = call.1 })

  -- The next packet of a client.
  abbrev pub packet_of : Service e → ℕ → Result (Unit {0}) × Client e
  packet_of s i = read_packet e (client_at s i)

  -- `b.store.Queue(…)` of `notifyClient`, which it calls once, before its loop.
  abbrev pub queue_for : Service e → ℕ → Result (e.store.Ref) × e.store.State
  queue_for s i =
      e.store.queue_of (Broker.client_message_notification (s.clients i).client_id) s.server.db

  -- `Pop` of `notifyClient` on the queue that it holds, whether or not it is still that of its key, and what decodes its message.
  abbrev pub pop_of : Service e → e.store.Ref → Bool → Bool → Result QueuedMessage × e.store.State
  pop_of s q done takes_done = Broker.pop_from e.store e.json done takes_done q s.server.db

  -- `UpdateQueuedMessageForSubscriber` of `deliverMessages`.
  abbrev pub update_of : Service e → ℕ → QueuedMessage → Result (Unit {0}) × e.store.State
  update_of s i m =
      Broker.update_queued_message_for_subscriber e.store e.json (s.clients i).client_id m
        s.server.db

  -- What is left when the store is `db`.
  abbrev pub put_db : Service e → e.store.State → Service e
  put_db s db = record s { server = record (s.server) { db = db } }

  abbrev pub mail_of : Service e → Result (Unit {0}) × Server e.store
  mail_of s = deliver_one e.store e.json false false s.server

  -- A call that would wait is no step until it need not wait, and none follows a panic. A message routine may
  -- still be at work when its client is closed.
  pub data Step (s : Service e) : Service e → Type 0 where
    -- `listener.Accept`, and `NewClient` on the new connection.
    accept :
        (i : ℕ) (conn : e.transport.Conn)
        → s.phases i ≡ vacant
        → Step s (put_down s i running (new_client e conn s.server))
    packet :
        (i : ℕ)
        → s.phases i ≡ running
        → IsReturned (packet_of s i).0
        → Step s (put_down s i (phase_after (packet_of s i).0) (packet_of s i).1)
    close_client :
        (i : ℕ) → s.phases i ≡ ended → Step s (put_down s i closed (close e (client_at s i)).1)
    listen :
        (i : ℕ) (q : e.store.Ref)
        → s.phases i ≢ vacant
        → s.queues i ≡ none
        → (queue_for s i).0 ≡ ok q
        → Step s (record (put_db s (queue_for s i).1) { queues = put i (some q) s.queues })
    notify :
        (i : ℕ) (q : e.store.Ref) (done takes_done : Bool)
        → s.queues i ≡ some q
        → IsReturned (pop_of s q done takes_done).0
        → Step s (put_db s (pop_of s q done takes_done).1)
    update :
        (i : ℕ) (m : QueuedMessage) → s.phases i ≢ vacant → Step s (put_db s (update_of s i m).1)
    publish :
        (i : ℕ) (m : QueuedMessage)
        → s.phases i ≢ vacant
        → Step s (record s { clients = put i (send m (s.clients i)).1 s.clients })
    mail : IsReturned (mail_of s).0 → Step s (record s { server = (mail_of s).1 })

  pub data Steps (s : Service e) : Service e → Type 0 where
    here : Steps s s
    next : {u v : Service e} → Steps s u → Step u v → Steps s v

  -- A service without connections.
  abbrev pub start : Server e.store → (ℕ → Client e) → Service e
  start server clients = record {
    server = server;
    clients = clients;
    phases = λ i. vacant;
    queues = λ i. none;
  }
