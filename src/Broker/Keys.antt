-- ===== src/Broker/Keys.antt =====
-- The keys of the broker in the store, as `fmt.Sprintf` builds them.
use yodi.Base.{
  ℕ, ◌≡◌, ◌≢◌, refl, ap, Bytes, ◌++◌, codes, same, same_iff, same-injective, false, arith, head_or,
  drop, append_assoc,
}
use mathlib.Core.List.{reverse, reverse-append, append_cancel_left, append_cancel_right}
use yodi.Auth.{users_map}
use yodi.Broker.{
  client_set, message_queue, topic_subscribers_set, client_subscriptions_set, client_message_queue,
  client_message_notification,
}

-- What the program keeps in the store: the clients, the published messages and the users; for a topic
-- its subscribers; for a client its subscriptions, its messages, and its notifications.
pub data Key : Type 0 where
  clients : Key
  messages : Key
  users : Key
  topic_subscribers : Bytes → Key
  client_subscriptions : Bytes → Key
  client_messages : Bytes → Key
  client_notify : Bytes → Key

abbrev pub key_name : Key → Bytes
key_name clients = client_set
key_name messages = message_queue
key_name users = users_map
key_name (topic_subscribers topic) = topic_subscribers_set topic
key_name (client_subscriptions client_id) = client_subscriptions_set client_id
key_name (client_messages client_id) = client_message_queue client_id
key_name (client_notify client_id) = client_message_notification client_id

abbrev pub byte_at : ℕ → Bytes → ℕ
byte_at i bs = head_or 0 (drop i bs)

-- The last byte but one tells the three keys of a client apart.
pub reverse-key :
    (p id s : Bytes) → reverse (p ++ (id ++ s)) ≡ reverse s ++ (reverse id ++ reverse p)
reverse-key p id s = simp (reverse-append, append_assoc)

abbrev ends : Bytes → Bytes → Bytes → ℕ
ends p id s = byte_at 1 (reverse s ++ (reverse id ++ reverse p))

differ :
    (id id' s s' : Bytes)
    → codes "/client/" ++ (id ++ s) ≡ codes "/client/" ++ (id' ++ s')
    → ends (codes "/client/") id s ≡ ends (codes "/client/") id' s'
differ id id' s s' e =
    rw (reverse-key (codes "/client/") id s, reverse-key (codes "/client/") id' s') at
      (ap (λ (bs : Bytes). byte_at 1 (reverse bs)) e)

inner : (p s id id' : Bytes) → p ++ (id ++ s) ≡ p ++ (id' ++ s) → id ≡ id'
inner p s id id' e = append_cancel_right id id' s (append_cancel_left p (id ++ s) (id' ++ s) e)

-- Two keys of the broker with the same text are the same: no topic and no client ID, whatever its
-- bytes, reaches the data of another.
pub key_name_injective : (a b : Key) → key_name a ≡ key_name b → a ≡ b
unfolding topic_subscribers_set client_subscriptions_set client_message_queue
    client_message_notification
key_name_injective clients clients e = refl
key_name_injective messages messages e = refl
key_name_injective users users e = refl
key_name_injective (topic_subscribers t) (topic_subscribers u) e =
    ap topic_subscribers (inner (codes "/topic/") (codes "/subscribers") t u e)
key_name_injective (client_subscriptions t) (client_subscriptions u) e =
    ap client_subscriptions (inner (codes "/client/") (codes "/subscriptions") t u e)
key_name_injective (client_messages t) (client_messages u) e =
    ap client_messages (inner (codes "/client/") (codes "/messages") t u e)
key_name_injective (client_notify t) (client_notify u) e =
    ap client_notify (inner (codes "/client/") (codes "/notify") t u e)
key_name_injective (client_subscriptions t) (client_messages u) e =
    absurd (omega (arith, differ t u (codes "/subscriptions") (codes "/messages") e))
key_name_injective (client_messages t) (client_subscriptions u) e =
    absurd (omega (arith, differ t u (codes "/messages") (codes "/subscriptions") e))
key_name_injective (client_subscriptions t) (client_notify u) e =
    absurd (omega (arith, differ t u (codes "/subscriptions") (codes "/notify") e))
key_name_injective (client_notify t) (client_subscriptions u) e =
    absurd (omega (arith, differ t u (codes "/notify") (codes "/subscriptions") e))
key_name_injective (client_messages t) (client_notify u) e =
    absurd (omega (arith, differ t u (codes "/messages") (codes "/notify") e))
key_name_injective (client_notify t) (client_messages u) e =
    absurd (omega (arith, differ t u (codes "/notify") (codes "/messages") e))
key_name_injective _ _ e = absurd (omega (arith, ap (byte_at 1) e, ap (byte_at 7) e))

pub same-key_ne : (a b : Key) → a ≢ b → same (key_name a) (key_name b) ≡ false
same-key_ne a b h = ground (
  arith,
  same_iff (key_name a) (key_name b),
  λ (e : key_name a ≡ key_name b). h (key_name_injective a b e),
)

pub same-topic_client :
    (t c : Bytes) → same (topic_subscribers_set t) (client_subscriptions_set c) ≡ false
same-topic_client t c = same-key_ne (topic_subscribers t) (client_subscriptions c) (λ e. cc)

pub same-client_topic :
    (c t : Bytes) → same (client_subscriptions_set c) (topic_subscribers_set t) ≡ false
same-client_topic c t = same-key_ne (client_subscriptions c) (topic_subscribers t) (λ e. cc)

pub same-topics :
    (t u : Bytes) → same (topic_subscribers_set t) (topic_subscribers_set u) ≡ same t u
same-topics t u =
    same-injective topic_subscribers_set t u
      (λ e. cc (key_name_injective (topic_subscribers t) (topic_subscribers u) e))

pub same-clients :
    (c d : Bytes) → same (client_subscriptions_set c) (client_subscriptions_set d) ≡ same c d
same-clients c d =
    same-injective client_subscriptions_set c d
      (λ e. cc (key_name_injective (client_subscriptions c) (client_subscriptions d) e))

pub same-set_topic : (t : Bytes) → same client_set (topic_subscribers_set t) ≡ false
same-set_topic t = same-key_ne clients (topic_subscribers t) (λ e. cc)

pub same-set_client : (c : Bytes) → same client_set (client_subscriptions_set c) ≡ false
same-set_client c = same-key_ne clients (client_subscriptions c) (λ e. cc)
