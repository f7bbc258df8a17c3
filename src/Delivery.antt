-- ===== src/Delivery.antt =====
-- The goroutines that deliver messages to a subscriber: `notifyClient` of pkg/mqtt/broker.go, and
-- `queueMessages` and `deliverMessages` of pkg/mqtt/client.go, with the two channels between them, the
-- lock of the map of messages that wait for an acknowledgement, and the connection.
pub mod Deadlock
pub mod Invariant
use yodi.Base.{
  ℕ, halt, Halt, ◌+◌, ◌*◌, ◌<◌, ◌≡◌, ◌≢◌, Bytes, List, [], ◌∷◌, ◌++◌, length, Option, none, some,
  Bool, true, false, not, ◌||◌, ltb, ◌==◌, if◌then◌else◌,
}
use yodi.Base.Assoc.{Assoc, insert, erase}
use yodi.Base.Decimal.{decimal}
use yodi.Message.{QueuedMessage, qos0}
use yodi.Transport.{Transport}
use yodi.Json.{Json}
use yodi.Packet

-- `time.Second * 5`
abbrev pub ack_timeout : ℕ
ack_timeout = 5 * 1000000000

-- `make(chan *QueuedMessage, 1)`, twice.
abbrev pub channel_size : ℕ
channel_size = 1

-- Where `notifyClient` stands: in `Pop`, at the send to its channel with a message, or at its end.
pub data Notifier : Type 0 where
  popping : Notifier
  notifying : QueuedMessage → Notifier
  notifier_done : Notifier

-- Where `queueMessages` stands: in its `select`, at the send of a message that was notified, at the lock of the map,
-- in the loop of `Scan`, at the send of the callback, or at its end. A scan has a time and the entries behind.
pub data Queuer : Type 0 where
  selecting : Queuer
  passing : QueuedMessage → Queuer
  locking : ℕ → Queuer
  scanning : ℕ → Assoc Bytes → Queuer
  offering : ℕ → QueuedMessage → Assoc Bytes → Queuer
  queuer_done : Queuer

-- Where `deliverMessages` stands: in its `select`, at the update of a kept message, at `publish`, or at its end.
pub data Deliverer : Type 0 where
  receiving : Deliverer
  updating : QueuedMessage → Deliverer
  publishing : QueuedMessage → Deliverer
  deliverer_done : Deliverer

-- `notifications` is the queue of the client in the store, and `kept` its map of messages. `notified` is the channel of
-- `GetMessagesChannelForClient`, and `queued` is `messageQueue`. `locked` says whether the lock of the map is held.
pub record System (t : Transport) : Type 0 where
  pub notifications : List Bytes
  pub kept : Assoc Bytes
  pub locked : Bool
  pub notified : List QueuedMessage
  pub queued : List QueuedMessage
  pub notifier : Notifier
  pub queuer : Queuer
  pub deliverer : Deliverer
  pub cancelled : Bool
  pub conn : t.Conn

-- `!queuedMessage.Duplicate || now.After(queuedMessage.SendTime.Add(ackTimeout))`
abbrev pub is_due : ℕ → QueuedMessage → Bool
is_due now m = not m.duplicate || ltb (m.send_time + ack_timeout) now

-- What `notifyClient` does with a text: one that does not decode is skipped.
pub after_pop : Option QueuedMessage → Notifier
after_pop none = popping
after_pop (some m) = notifying m

-- The callback of the scan, after `decodeMessage`.
unfoldable pub after_decode : ℕ → Assoc Bytes → Option QueuedMessage → Queuer
after_decode now rest none = scanning now rest
after_decode now rest (some m) = if is_due now m then offering now m rest else scanning now rest

-- `deliverMessages` with a message from its channel.
pub after_receive : ℕ → QueuedMessage → Deliverer
after_receive now m =
    if m.qos == qos0
    then publishing m
    else updating (record m { send_time = now; duplicate = true })

-- A step of one goroutine, or of the rest of the program, for a client that `RemoveClient` has not yet removed from the
-- store. `scan_locks` says whether the store holds the lock of a map during `Scan`. The memory store does, and gives the entries
-- of that moment. The Redis store does not, its calls may fail, and its `Scan` gives wrong values: there the entries may be any.
module _ (t : Transport) (json : Json) (scan_locks : Bool) where
  pub data Step (s : System t) : System t → Type 0 where
    pop :
        (raw : Bytes) (rest : List Bytes)
        → s.notifier ≡ popping
        → s.notifications ≡ raw ∷ rest
        → Step s (record s { notifications = rest; notifier = after_pop (json.unmarshal raw) })
    notify :
        (m : QueuedMessage)
        → s.notifier ≡ notifying m
        → length s.notified < channel_size
        → Step s (record s { notified = s.notified ++ (m ∷ []); notifier = popping })
    stop_notifier :
        s.notifier ≡ popping → s.cancelled ≡ true → Step s (record s { notifier = notifier_done })
    receive_notified :
        (m : QueuedMessage) (rest : List QueuedMessage)
        → s.queuer ≡ selecting
        → s.notified ≡ m ∷ rest
        → Step s (record s { notified = rest; queuer = passing m })
    pass :
        (m : QueuedMessage)
        → s.queuer ≡ passing m
        → length s.queued < channel_size
        → Step s (record s { queued = s.queued ++ (m ∷ []); queuer = selecting })
    time_out : (now : ℕ) → s.queuer ≡ selecting → Step s (record s { queuer = locking now })
    begin_scan :
        (now : ℕ) (entries : Assoc Bytes)
        → s.queuer ≡ locking now
        → s.locked ≡ false
        → (scan_locks ≡ true → entries ≡ s.kept)
        → Step s (record s { locked = scan_locks; queuer = scanning now entries })
    scan :
        (now : ℕ) (key raw : Bytes) (rest : Assoc Bytes)
        → s.queuer ≡ scanning now ((key, raw) ∷ rest)
        → Step s (record s { queuer = after_decode now rest (json.unmarshal raw) })
    offer :
        (now : ℕ) (m : QueuedMessage) (rest : Assoc Bytes)
        → s.queuer ≡ offering now m rest
        → length s.queued < channel_size
        → Step s (record s { queued = s.queued ++ (m ∷ []); queuer = scanning now rest })
    end_scan :
        (now : ℕ)
        → s.queuer ≡ scanning now []
        → Step s (record s { locked = false; queuer = selecting })
    stop_queuer :
        s.queuer ≡ selecting → s.cancelled ≡ true → Step s (record s { queuer = queuer_done })
    receive :
        (now : ℕ) (m : QueuedMessage) (rest : List QueuedMessage)
        → s.deliverer ≡ receiving
        → s.queued ≡ m ∷ rest
        → Step s (record s { queued = rest; deliverer = after_receive now m })
    -- `UpdateQueuedMessageForSubscriber`, which encodes before it takes the lock, and `continue` on its error.
    update :
        (m : QueuedMessage) (raw : Bytes)
        → s.deliverer ≡ updating m
        → json.marshal m ≡ some raw
        → s.locked ≡ false
        → Step s (record s { kept = insert (decimal m.id) raw s.kept; deliverer = publishing m })
    skip_update :
        (m : QueuedMessage)
        → s.deliverer ≡ updating m
        → json.marshal m ≡ none
        → Step s (record s { deliverer = receiving })
    -- `Set` of a store that holds no lock may fail, and `continue`; that of the memory store does not.
    fail_update :
        (m : QueuedMessage)
        → s.deliverer ≡ updating m
        → scan_locks ≡ false
        → Step s (record s { deliverer = receiving })
    -- A send that waits for ever is no step.
    publish :
        (m : QueuedMessage)
        → s.deliverer ≡ publishing m
        → ((h : Halt) → (Packet.publish t m s.conn).0 ≢ halt h)
        → Step s (record s { conn = (Packet.publish t m s.conn).1; deliverer = receiving })
    stop_deliverer :
        s.deliverer ≡ receiving
        → s.cancelled ≡ true
        → Step s (record s { deliverer = deliverer_done })
    -- `QueueMessageForSubscriber` of the mailman, in its two parts.
    keep :
        (id : ℕ) (raw : Bytes)
        → s.locked ≡ false
        → Step s (record s { kept = insert (decimal id) raw s.kept })
    arrive : (raw : Bytes) → Step s (record s { notifications = s.notifications ++ (raw ∷ []) })
    -- `UnqueueMessageForSubscriber`, on an acknowledgement.
    acknowledge :
        (id : ℕ) → s.locked ≡ false → Step s (record s { kept = erase (decimal id) s.kept })
    -- The context is done: its deadline has passed. The same call of `cancel` ends `Close`.
    cancel : Step s (record s { cancelled = true })

  pub data Steps (s : System t) : System t → Type 0 where
    here : Steps s s
    next : {u v : System t} → Steps s u → Step u v → Steps s v
