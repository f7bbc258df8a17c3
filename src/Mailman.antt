-- ===== src/Mailman.antt =====
-- cmd/mailman/main.go: the loop that takes each published message to the queues of its subscribers.
pub mod OnMemory
pub mod Rounds
pub mod Sets
use yodi.Base.{ℕ, zero, suc, Bool, false, Exec, pure, ◌>>=◌, ◌>>◌}
use yodi.Store.{Store}
use yodi.Json.{Json}
use yodi.Broker.{Server, on_db, pop_queued_message, queue_message_for_subscribers}

module _ (st : Store) (json : Json) where
  -- One round. The flags are those of `Store.pop`. An error ends the process by `log.Fatal`.
  pub deliver_one : Bool → Bool → Exec (Server st) (Unit {0})
  deliver_one done takes_done = do
    queued_message ← on_db st json (pop_queued_message st json done takes_done)
    queue_message_for_subscribers st json queued_message

  -- The first rounds of the loop, which has no end.
  pub deliver : ℕ → Exec (Server st) (Unit {0})
  unfolding deliver_one
  deliver zero = pure tt
  deliver (suc n) = do deliver_one false false; deliver n
