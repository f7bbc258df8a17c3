-- ===== src/Broker/Subscriptions.antt =====
-- `Subscribe`, `Unsubscribe` and `RemoveClient` keep the two indices of the subscriptions in step.
use yodi.Base.{
  ℕ, ◌≡◌, Bytes, [], ◌∷◌, ◌++◌, contains, contains-append, contains-without, same, same_iff, Bool,
  ◌||◌, ◌&&◌, not, if◌then◌else◌, ok, err, Error, refl, arith, Bool-cases, inl, inr, without,
}
use yodi.Json.{Json}
use yodi.Store.Contents.{Contents, contents, update}
use yodi.Broker.{
  subscribe, finish_subscribe, unsubscribe, topic_subscribers_set, client_subscriptions_set,
}
use yodi.Broker.Keys.{same-topic_client, same-client_topic, same-topics, same-clients}

-- The client is among the subscribers of the topic; the topic is among the client's subscriptions.
abbrev pub subscriber : Contents → Bytes → Bytes → Bool
subscriber s topic client_id = contains (s.elements (topic_subscribers_set topic)) client_id

abbrev pub subscription : Contents → Bytes → Bytes → Bool
subscription s client_id topic = contains (s.elements (client_subscriptions_set client_id)) topic

pub record IsAgreed (s : Contents) : Type 0 where
  pub agree :
      (topic client_id : Bytes) → subscriber s topic client_id ≡ subscription s client_id topic

-- Both indices with one subscription more, and with one less.
enter : Contents → Bytes → Bytes → Contents
enter s c t = record s {
  elements =
      update
        (update s.elements (client_subscriptions_set c)
          (s.elements (client_subscriptions_set c) ++ (t ∷ [])))
        (topic_subscribers_set t) (s.elements (topic_subscribers_set t) ++ (c ∷ []));
}

leave : Contents → Bytes → Bytes → Contents
leave s c t = record s {
  elements =
      update
        (update s.elements (topic_subscribers_set t)
          (without c (s.elements (topic_subscribers_set t))))
        (client_subscriptions_set c) (without t (s.elements (client_subscriptions_set c)));
}

module _ (s : Contents) (c t u d : Bytes) where
  subscriber-enter : subscriber (enter s c t) u d ≡ (subscriber s u d || (same t u && same c d))
  unfolding enter
  subscriber-enter = ground (
    arith,
    same-client_topic c u,
    same-topics t u,
    same_iff t u,
    contains-append (s.elements (topic_subscribers_set t)) c d,
  )

  subscription-enter :
      subscription (enter s c t) d u ≡ (subscription s d u || (same t u && same c d))
  unfolding enter
  subscription-enter = ground (
    arith,
    same-topic_client t d,
    same-clients c d,
    same_iff c d,
    contains-append (s.elements (client_subscriptions_set c)) t u,
  )

  subscriber-leave : subscriber (leave s c t) u d ≡ (subscriber s u d && not (same t u && same c d))
  unfolding leave
  subscriber-leave = ground (
    arith,
    same-client_topic c u,
    same-topics t u,
    same_iff t u,
    contains-without c (s.elements (topic_subscribers_set t)) d,
  )

  subscription-leave :
      subscription (leave s c t) d u ≡ (subscription s d u && not (same t u && same c d))
  unfolding leave
  subscription-leave = ground (
    arith,
    same-topic_client t d,
    same-clients c d,
    same_iff c d,
    contains-without t (s.elements (client_subscriptions_set c)) u,
  )

enter-IsAgreed : (s : Contents) (c t : Bytes) → IsAgreed s → IsAgreed (enter s c t)
enter-IsAgreed s c t h = record {
  agree = λ u d. cc (h.agree u d, subscriber-enter s c t u d, subscription-enter s c t u d);
}

leave-IsAgreed : (s : Contents) (c t : Bytes) → IsAgreed s → IsAgreed (leave s c t)
leave-IsAgreed s c t h = record {
  agree = λ u d. cc (h.agree u d, subscriber-leave s c t u d, subscription-leave s c t u d);
}

module _ (capacity : ℕ) (json : Json) (s : Contents) (c t : Bytes) (h : IsAgreed s) where
  subscribe_run :
      subscribe (contents capacity) json c t s
      ≡ (if subscriber s t c then (err Error.value_exists, s) else (ok tt, enter s c t))
  unfolding subscribe finish_subscribe enter
  subscribe_run = ground (arith, h.agree t c, same-client_topic c t)

  -- From indices in step, a subscription succeeds exactly when it is new. It leaves the indices in
  -- step, adds that one subscription, and no other.
  pub subscribe_lem :
      let call = subscribe (contents capacity) json c t s in
      (call.0 ≡ (if subscriber s t c then err Error.value_exists else ok tt))
      × IsAgreed call.1
      × ((u d : Bytes) → subscriber call.1 u d ≡ (subscriber s u d || (same t u && same c d)))
  subscribe_lem = elim (Bool-cases (subscriber s t c)) [
    | inl old ↦
        let e : subscribe (contents capacity) json c t s ≡ (err Error.value_exists, s) =
          ground (arith, subscribe_run) in
        rw (e, old) (refl, h, λ u d. ground (arith, same_iff t u, same_iff c d))
    | inr new ↦
        let e : subscribe (contents capacity) json c t s ≡ (ok tt, enter s c t) =
          ground (arith, subscribe_run) in
        rw (e, new) (refl, enter-IsAgreed s c t h, subscriber-enter s c t)
  ]

  unsubscribe_run :
      unsubscribe (contents capacity) json c t s
      ≡ (if subscriber s t c then (ok tt, leave s c t) else (err Error.value_missing, s))
  unfolding unsubscribe leave
  unsubscribe_run = ground (arith, h.agree t c, same-topic_client t c)

  -- From indices in step, `Unsubscribe` succeeds exactly when there is that subscription. It leaves
  -- the indices in step, takes that one subscription away, and no other.
  pub unsubscribe_lem :
      let call = unsubscribe (contents capacity) json c t s in
      (call.0 ≡ (if subscriber s t c then ok tt else err Error.value_missing))
      × IsAgreed call.1
      × ((u d : Bytes) → subscriber call.1 u d ≡ (subscriber s u d && not (same t u && same c d)))
  unsubscribe_lem = elim (Bool-cases (subscriber s t c)) [
    | inl old ↦
        let e : unsubscribe (contents capacity) json c t s ≡ (ok tt, leave s c t) =
          ground (arith, unsubscribe_run) in
        rw (e, old) (refl, leave-IsAgreed s c t h, subscriber-leave s c t)
    | inr new ↦
        let e : unsubscribe (contents capacity) json c t s ≡ (err Error.value_missing, s) =
          ground (arith, unsubscribe_run) in
        rw (e, new) (refl, h, λ u d. ground (arith, same_iff t u, same_iff c d))
  ]
