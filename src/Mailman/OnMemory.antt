-- ===== src/Mailman/OnMemory.antt =====
-- The mailman on a memory store: cmd/mailman/main.go over pkg/store/memory_store.go.
use mathlib.Core.Path.{subst}
use yodi.Base.{ℕ, zero, suc, ◌+◌, ◌≤◌, Bytes, List, length, Bool, false, sym, All}
use yodi.Base.Follows.{Follows-bind, Follows-pure}
use yodi.Json.{Json, IsJson, IsPlain}
use yodi.Message.{QueuedMessage}
use yodi.Store.Memory.{buffer_size, MemoryRef}
use yodi.Store.Memory.View.{IsSound}
use yodi.Store.Memory.Instance.{memory}
use yodi.Store.Memory.Calls.{plain}
use yodi.Base.Keeps.{Keeps-bind}
use yodi.Broker.Held.{
  Serves, on_db-IsHeld, pop_queued_message-IsHeld, queue_message_for_subscribers-IsHeld,
}
use yodi.Broker.{pop_queued_message, Server, message_queue, topic_subscribers_set}
use yodi.Base.Distinct.{Distinct}
use yodi.Broker.Delivery.{notified}
use yodi.Broker.Messages.{Holds}
use yodi.Broker.Kinds.{broker_kind}
use yodi.Broker.OnMemory.{see_server, pop_queued_message-InStep}
use yodi.Broker.Serving.{Serving, on_db-Serving, queue_message_for_subscribers-Serving}
use yodi.Mailman.{deliver_one, deliver}
use yodi.Mailman.Rounds.{IsMailed, deliver-IsMailed}

module _ (json : Json) where
  -- A round leaves alone a reference that a goroutine holds.
  pub deliver_one-IsHeld :
      (r : MemoryRef) (done takes_done : Bool)
      → Serves json r (deliver_one memory json done takes_done)
  unfolding deliver_one
  deliver_one-IsHeld r done takes_done =
      Keeps-bind _ _
        (on_db-IsHeld json r (pop_queued_message memory json done takes_done)
          (pop_queued_message-IsHeld json r done takes_done))
        (queue_message_for_subscribers-IsHeld json r)

  pub deliver_one-Serving :
      (done takes_done : Bool)
      → Serving (deliver_one memory json done takes_done) (deliver_one plain json done takes_done)
  unfolding deliver_one
  deliver_one-Serving done takes_done =
      Follows-bind _ _ _ _ (on_db-Serving json _ _ (pop_queued_message-InStep json done takes_done))
        (queue_message_for_subscribers-Serving json)

  pub deliver-Serving : (n : ℕ) → Serving (deliver memory json n) (deliver plain json n)
  unfolding deliver
  deliver-Serving zero = Follows-pure tt
  deliver-Serving (suc n) =
      Follows-bind _ _ _ _ (deliver_one-Serving false false) (λ _. deliver-Serving n)

  -- On a sound memory store whose contents meet the conditions of `deliver-IsMailed`, with 64 places in a queue, the rounds of
  -- the mailman for `ms` do to those contents what they do over the abstract store, and leave the store sound.
  pub deliver_on_memory :
      (j : IsJson json) (ms : List QueuedMessage) (s : Server memory)
      → IsSound broker_kind s.db
      → Holds json ((see_server s).db.queued message_queue) ms
      → All IsPlain ms
      → ((t : Bytes) → Distinct ((see_server s).db.elements (topic_subscribers_set t)))
      → ((d : Bytes) → length (notified (see_server s).db d) + length ms ≤ buffer_size)
      → let call = deliver memory json (length ms) s in
        IsMailed buffer_size json j ms (see_server s) (call.0, see_server call.1)
        × IsSound broker_kind call.1.db
  deliver_on_memory j ms s sound held plain apart room =
      let (answer, effect, kept) = (deliver-Serving (length ms)).at s sound in
      let mailed = deliver-IsMailed buffer_size json j ms (see_server s) held plain apart room in
      (
        subst (IsMailed buffer_size json j ms (see_server s)) (sym (λ i. (answer i, effect i)))
            mailed,
        kept,
      )
