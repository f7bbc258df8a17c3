-- ===== src/Message.antt =====
-- pkg/mqtt/message.go and qos.go: a message published to a topic.
use yodi.Base.{ℕ, Bytes, Bool}

-- A QoS is a uint8: `qos0` and `qos1` are the two that the broker serves.
abbrev pub qos0 : ℕ
qos0 = 0

abbrev pub qos1 : ℕ
qos1 = 1

-- `send_time` is the instant, in nanoseconds since the zero `time.Time`.
pub record QueuedMessage : Type 0 where
  pub id : ℕ
  pub topic : Bytes
  pub message : Bytes
  pub qos : ℕ
  pub duplicate : Bool
  pub send_time : ℕ
