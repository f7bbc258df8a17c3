-- ===== src/Json.antt =====
-- What the broker uses of encoding/json, as an interface: a message and a user as JSON text. `none`
-- is an error of `json.Marshal` or `json.Unmarshal`. What the documentation of the package promises
-- stands below: text in UTF-8 comes back as it was.
use yodi.Base.{ℕ, ◌*◌, ◌<◌, ◌≡◌, Bytes, [], ◌∷◌, Option, some}
use yodi.Message.{QueuedMessage}
use yodi.Auth.{User}

pub record Json : Type 0 where
  pub marshal : QueuedMessage → Option Bytes
  pub unmarshal : Bytes → Option QueuedMessage
  pub unmarshal_user : Bytes → Option User

-- `utf8.Valid`, on ASCII: each byte is below 0x80.
abbrev pub IsAscii : Bytes → Type 0
IsAscii [] = Unit
IsAscii (b ∷ bs) = (b < 128) × IsAscii bs

-- The range of a `time.Time` that has a JSON form: the years 1 to 9999, in nanoseconds.
abbrev pub year_10000 : ℕ
year_10000 = 315537897600 * 1000000000

-- What a message needs to be kept by its JSON form: text, numbers in the range of their Go types,
-- and a time with a year of four digits.
pub record IsPlain (m : QueuedMessage) : Type 0 where
  pub topic_ascii : IsAscii m.topic
  pub message_ascii : IsAscii m.message
  pub id_range : m.id < 65536
  pub qos_range : m.qos < 256
  pub time_range : m.send_time < year_10000

pub record IsJson (j : Json) : Type 0 where
  pub unmarshal-marshal :
      (m : QueuedMessage)
      → IsPlain m
      → (raw : Bytes) × (j.marshal m ≡ some raw) × (j.unmarshal raw ≡ some m)
