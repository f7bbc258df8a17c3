-- ===== src/Tests/Broker.antt =====
-- Keys, subscriptions and clients in a store.
use yodi.Base.{
  ◌≡◌, ◌≤◌, Bytes, codes, contains, same, true, ◌||◌, ◌&&◌, not, if◌then◌else◌, ok, err, Error,
  refl, arith, ◌↔◌, some,
}
use yodi.Base.Assoc.{lookup}
use yodi.Auth.{TopicAcl, authenticate_publish, authenticate_subscribe}
use yodi.Auth.Access.{authenticate_iff}
use yodi.Store.Contents
use yodi.Store.Contents.{Contents, contents}
use yodi.Broker.{add_client, subscribe, unsubscribe, remove_client, client_set}
use yodi.Broker.Keys.{topic_subscribers, key_name_injective, same-set_topic, same-set_client}
use yodi.Broker.Subscriptions.{IsAgreed, subscriber, subscribe_lem, unsubscribe_lem}
use yodi.Broker.Removal.{IsGone, remove_client_lem}
use yodi.Tests.Pipe.{json, alice, door, user}

key_name_injective_example : topic_subscribers (codes "a/b") ≡ topic_subscribers (codes "a/b")
key_name_injective_example =
    key_name_injective (topic_subscribers (codes "a/b")) (topic_subscribers (codes "a/b")) refl

-- Alice is a client, and then subscribes to the topic "door".
abbrev joined : Contents
joined = (add_client (contents 64) json alice Contents.empty).1

abbrev subscribed : Contents
subscribed = (subscribe (contents 64) json alice door joined).1

joined-IsAgreed : IsAgreed joined
unfolding add_client contains
joined-IsAgreed = record { agree = λ t c. ground (arith, same-set_topic t, same-set_client c) }

subscribe_lem_example :
    ((subscribe (contents 64) json alice door joined).0
      ≡ (if subscriber joined door alice then err Error.value_exists else ok tt))
    × IsAgreed subscribed
    × ((u d : Bytes)
        → subscriber subscribed u d ≡ (subscriber joined u d || (same door u && same alice d)))
subscribe_lem_example = subscribe_lem 64 json joined alice door joined-IsAgreed

unsubscribe_lem_example :
    let call = unsubscribe (contents 64) json alice door subscribed in
    (call.0 ≡ (if subscriber subscribed door alice then ok tt else err Error.value_missing))
    × IsAgreed call.1
    × ((u d : Bytes)
        → subscriber call.1 u d ≡ (subscriber subscribed u d && not (same door u && same alice d)))
unsubscribe_lem_example = unsubscribe_lem 64 json subscribed alice door (subscribe_lem_example.1)

remove_client_lem_example :
    let call = remove_client (contents 64) json alice subscribed in
    (call.0 ≡ (
      if contains (subscribed.elements client_set) alice then ok tt else err Error.value_missing))
    × IsGone 64 json alice subscribed call.1
remove_client_lem_example = remove_client_lem 64 json alice subscribed (subscribe_lem_example.1)

authenticate_iff_example :
    ((authenticate_publish user.acl door 0 ≡ ok tt)
      ↔ ((a : TopicAcl) × (lookup door user.acl ≡ some a) × (a.may_publish ≡ true) × (0 ≤ a.qos)))
    × ((authenticate_subscribe user.acl door 0 ≡ ok tt) ↔ (
        (a : TopicAcl) × (lookup door user.acl ≡ some a) × (a.may_subscribe ≡ true) × (0 ≤ a.qos)))
authenticate_iff_example = authenticate_iff user.acl door 0
