-- ===== src/Broker/Kinds.antt =====
-- What the broker keeps under each of its keys: a set, a queue or a map.
use yodi.Base.{ℕ, ◌≡◌, ◌≢◌, ap, Bytes, codes, same, ◌==◌, if◌then◌else◌, refl, arith}
use mathlib.Core.List.{reverse}
use yodi.Auth.{users_map}
use yodi.Store.Memory.View.{Kind, sets, queues, maps}
use yodi.Broker.{
  client_set, message_queue, topic_subscribers_set, client_subscriptions_set, client_message_queue,
  client_message_notification,
}
use yodi.Broker.Keys.{
  Key, clients, messages, users, topic_subscribers, client_subscriptions, client_messages,
  client_notify, key_name, same-key_ne, reverse-key, byte_at,
}

-- By the last byte but one, after the two keys with a name of their own.
pub kind_by_byte : ℕ → Kind
kind_by_byte b = if b == 102 then queues else if b == 101 then maps else sets

pub broker_kind : Bytes → Kind
unfolding kind_by_byte
broker_kind k =
    if same k message_queue
    then queues
    else if same k users_map
    then maps
    else kind_by_byte (byte_at 1 (reverse k))

abbrev pub kind_of_key : Key → Kind
kind_of_key clients = sets
kind_of_key messages = queues
kind_of_key users = maps
kind_of_key (topic_subscribers t) = sets
kind_of_key (client_subscriptions c) = sets
kind_of_key (client_messages c) = maps
kind_of_key (client_notify c) = queues

named :
    (k : Key) (b : ℕ)
    → k ≢ messages
    → k ≢ users
    → byte_at 1 (reverse (key_name k)) ≡ b
    → broker_kind (key_name k) ≡ kind_by_byte b
unfolding broker_kind
named k b m u e = ground (arith, e, same-key_ne k messages m, same-key_ne k users u)

-- `broker_kind` gives each key of the broker what the broker keeps there.
pub broker_kind_lem : (k : Key) → broker_kind (key_name k) ≡ kind_of_key k
unfolding broker_kind kind_by_byte topic_subscribers_set client_subscriptions_set
    client_message_queue client_message_notification same
broker_kind_lem clients = refl
broker_kind_lem messages = refl
broker_kind_lem users = refl
broker_kind_lem (topic_subscribers t) =
    named (topic_subscribers t) 114 (λ e. cc) (λ e. cc)
      (ap (byte_at 1) (reverse-key (codes "/topic/") t (codes "/subscribers")))
broker_kind_lem (client_subscriptions c) =
    named (client_subscriptions c) 110 (λ e. cc) (λ e. cc)
      (ap (byte_at 1) (reverse-key (codes "/client/") c (codes "/subscriptions")))
broker_kind_lem (client_messages c) =
    named (client_messages c) 101 (λ e. cc) (λ e. cc)
      (ap (byte_at 1) (reverse-key (codes "/client/") c (codes "/messages")))
broker_kind_lem (client_notify c) =
    named (client_notify c) 102 (λ e. cc) (λ e. cc)
      (ap (byte_at 1) (reverse-key (codes "/client/") c (codes "/notify")))

pub at_clients : broker_kind client_set ≡ sets
at_clients = broker_kind_lem clients

pub at_published : broker_kind message_queue ≡ queues
at_published = broker_kind_lem messages

pub at_users : broker_kind users_map ≡ maps
at_users = broker_kind_lem users

pub at_topic : (t : Bytes) → broker_kind (topic_subscribers_set t) ≡ sets
at_topic t = broker_kind_lem (topic_subscribers t)

pub at_subscriptions : (c : Bytes) → broker_kind (client_subscriptions_set c) ≡ sets
at_subscriptions c = broker_kind_lem (client_subscriptions c)

pub at_messages : (c : Bytes) → broker_kind (client_message_queue c) ≡ maps
at_messages c = broker_kind_lem (client_messages c)

pub at_notify : (c : Bytes) → broker_kind (client_message_notification c) ≡ queues
at_notify c = broker_kind_lem (client_notify c)
