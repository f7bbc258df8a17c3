-- ===== src/Mailman/Sets.antt =====
-- A round of the mailman leaves the sets alone.
use yodi.Base.{ℕ, Bytes, List, Bool, Exec}
use yodi.Base.Keeps.{Keeps, Keeps-bind}
use yodi.Json.{Json}
use yodi.Store.Contents.{Contents, contents}
use yodi.Broker.{on_db}
use yodi.Broker.Clients.{HasSets, pop_queued_message-HasSets, queue_message_for_subscribers-HasSets}
use yodi.Mailman.{deliver_one}

module _ (capacity : ℕ) (json : Json) (sets : Bytes → List Bytes) where
  on_db-HasSets :
      {A : Type 0} (m : Exec Contents A)
      → Keeps (HasSets capacity json sets) m
      → Keeps (λ s. HasSets capacity json sets s.db) (on_db (contents capacity) json m)
  on_db-HasSets m k = record { at = λ s h. k.at s.db h }

  pub deliver_one-HasSets :
      (done takes_done : Bool)
      → Keeps
          (λ s. HasSets capacity json sets s.db)
          (deliver_one (contents capacity) json done takes_done)
  unfolding deliver_one
  deliver_one-HasSets done takes_done =
      Keeps-bind _ _
        (on_db-HasSets _ (pop_queued_message-HasSets capacity json sets done takes_done))
        (queue_message_for_subscribers-HasSets capacity json sets)
