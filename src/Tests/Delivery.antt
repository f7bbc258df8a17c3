-- ===== src/Tests/Delivery.antt =====
-- Delivery to a client that three messages are kept for.
use yodi.Base.{ℕ, ◌∷◌, [], ◌++◌, ◌≡◌, Bytes, codes, false, true, refl}
use yodi.Base.Assoc.{Assoc}
use yodi.Message.{QueuedMessage}
use yodi.Delivery.{System, Steps, here, next, time_out, begin_scan, scan, offering, after_decode}
use yodi.Delivery.Deadlock.{delivery_deadlocks}
use yodi.Delivery.Invariant.{IsOrderly, start, delivery-IsOrderly}
use yodi.Tests.Pipe.{pipe, json, nothing, door}

abbrev kept_message : ℕ → QueuedMessage
kept_message id = record {
  id = id;
  topic = door;
  message = codes "open";
  qos = 1;
  duplicate = false;
  send_time = 0;
}

abbrev text_of : ℕ → Bytes
text_of id = id ∷ 1 ∷ 0 ∷ 0 ∷ 4 ∷ door ++ codes "open"

abbrev later_two : Assoc Bytes
later_two = (codes "2", text_of 2) ∷ (codes "3", text_of 3) ∷ []

abbrev three : Assoc Bytes
three = (codes "1", text_of 1) ∷ later_two

delivery_deadlocks_example :
    (stuck : System pipe) × Steps pipe json true (start pipe json true nothing [] three) stuck
    × ((u : System pipe)
        → Steps pipe json true stuck u
        → (u.conn ≡ stuck.conn) × (u.kept ≡ stuck.kept))
delivery_deadlocks_example =
    delivery_deadlocks pipe json (start pipe json true nothing [] three) 5 (codes "1") (codes "2")
      (codes "3") (text_of 1) (text_of 2) (text_of 3) (kept_message 1) (kept_message 2)
      (kept_message 3) [] refl refl refl refl refl refl refl refl refl refl refl (λ e. cc)
      (1 ∷ 1 ∷ 1 ∷ 5 ∷ 4 ∷ door ++ codes "open") refl

-- A scan without a lock, at its first message.
abbrev at_first : System pipe
at_first = record (start pipe json false nothing [] three) {
  queuer = offering 5 (kept_message 1) later_two;
}

reach-at_first : Steps pipe json false (start pipe json false nothing [] three) at_first
unfolding after_decode
reach-at_first =
    next (next (next here (time_out 5 refl)) (begin_scan 5 three refl refl (λ e. refl)))
      (scan 5 (codes "1") (text_of 1) later_two refl)

delivery-IsOrderly_example : IsOrderly pipe json false at_first
delivery-IsOrderly_example = delivery-IsOrderly pipe json false nothing [] three reach-at_first
