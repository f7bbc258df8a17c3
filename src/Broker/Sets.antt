-- ===== src/Broker/Sets.antt =====
-- The calls of a client keep each set free of doubles.
use yodi.Base.{
  ℕ, Bytes, List, [], ◌∷◌, ◌++◌, Bool, true, false, contains, without, if◌then◌else◌, same, Result,
  ok, err, halt, for_each, ignore, Bool-cases, inl, inr,
}
use yodi.Base.Distinct.{Distinct, append-Distinct, without-Distinct}
use yodi.Base.Keeps.{Keeps, Keeps-bind, Keeps-ignore, keeps_rules}
use yodi.Base.Assoc.{lookup, has_key}
use yodi.Base.Decimal.{decimal}
use yodi.Broker.Frames.{queue_message-keeps}
use yodi.Json.{Json}
use yodi.Auth.{authenticate_user, find_user}
use yodi.Store.Contents.{Contents, Ref, set_ref, queue_ref, map_ref, contents, update, destroy}
use yodi.Broker.{
  add_client, remove_client, queue_message, unqueue_message_for_subscriber, subscribe,
  finish_subscribe, unsubscribe, set_add, set_remove, client_set, client_subscriptions_set,
  topic_subscribers_set, client_message_queue, client_message_notification,
}

abbrev pub HasDistinct : Contents → Type 0
HasDistinct s = (k : Bytes) → Distinct (s.elements k)

-- An update of one set.
update-HasDistinct :
    (s : Contents) (k : Bytes) (xs : List Bytes)
    → HasDistinct s
    → Distinct xs
    → HasDistinct (record s { elements = update s.elements k xs })
update-HasDistinct s k xs h d j = branch (same k j)
  where
    branch : (b : Bool) → Distinct (if b then xs else s.elements j)
    branch true = d
    branch false = h j

module _ (capacity : ℕ) (json : Json) where
  set_add-HasDistinct : (k v : Bytes) → Keeps HasDistinct (set_add (contents capacity) json k v)
  set_add-HasDistinct k v = record {
    at = λ s h. elim (Bool-cases (contains (s.elements k) v)) [
      | inl there ↦ rw there h
      | inr new ↦ rw new (
          update-HasDistinct s k (s.elements k ++ (v ∷ [])) h
            (append-Distinct (s.elements k) v new (h k)))
    ];
  }

  set_remove-HasDistinct :
      (k v : Bytes) → Keeps HasDistinct (set_remove (contents capacity) json k v)
  set_remove-HasDistinct k v = record {
    at = λ s h. elim (Bool-cases (contains (s.elements k) v)) [
      | inl there ↦ rw there (
          update-HasDistinct s k (without v (s.elements k)) h
            (without-Distinct v (s.elements k) (h k)))
      | inr new ↦ rw new h
    ];
  }

  destroy-HasDistinct : (r : Ref) → Keeps HasDistinct (destroy r)
  destroy-HasDistinct (set_ref k) = record { at = λ s h. update-HasDistinct s k [] h tt }
  destroy-HasDistinct (queue_ref k) = record { at = λ s h. h }
  destroy-HasDistinct (map_ref k) = record { at = λ s h. h }

  pub login-HasDistinct :
      (username password : Bytes)
      → Keeps HasDistinct
          (authenticate_user (contents capacity) json.unmarshal_user username password)
  unfolding authenticate_user find_user
  login-HasDistinct username password = record { at = λ s h. h }

  pub add_client-HasDistinct :
      (id : Bytes) → Keeps HasDistinct (add_client (contents capacity) json id)
  unfolding add_client
  add_client-HasDistinct id = set_add-HasDistinct client_set id

  pub queue_message-HasDistinct :
      (topic message : Bytes) (id qos : ℕ)
      → Keeps HasDistinct (queue_message (contents capacity) json topic message id qos)
  queue_message-HasDistinct topic message id qos = record {
    at = λ s h k. rw (queue_message-keeps capacity json topic message id qos s).0 (h k);
  }

  pub unqueue-HasDistinct :
      (client_id : Bytes) (id : ℕ)
      → Keeps HasDistinct (unqueue_message_for_subscriber (contents capacity) json client_id id)
  unfolding unqueue_message_for_subscriber
  unqueue-HasDistinct client_id id = record {
    at = λ s h k.
        elim (Bool-cases
          (has_key (lookup (decimal id) (s.entries (client_message_queue client_id))))) [
            | inl e ↦ rw e (h k)
            | inr e ↦ rw e (h k)
          ];
  }

  finish_subscribe-HasDistinct :
      (c topic : Bytes) (r : Result (Unit {0}))
      → Keeps HasDistinct (finish_subscribe (contents capacity) json c topic r)
  unfolding finish_subscribe
  finish_subscribe-HasDistinct c topic (ok u) = record { at = λ s h. h }
  finish_subscribe-HasDistinct c topic (err x) = search (keeps_rules, set_remove-HasDistinct)
  finish_subscribe-HasDistinct c topic (halt x) = record { at = λ s h. h }

  pub subscribe-HasDistinct :
      (c topic : Bytes) → Keeps HasDistinct (subscribe (contents capacity) json c topic)
  unfolding subscribe
  subscribe-HasDistinct c topic =
      Keeps-bind (set_add (contents capacity) json (client_subscriptions_set c) topic) _
        (set_add-HasDistinct (client_subscriptions_set c) topic)
        (λ u. record {
          at = λ s h.
              let call = set_add (contents capacity) json (topic_subscribers_set topic) c s in
              (finish_subscribe-HasDistinct c topic call.0).at call.1
                ((set_add-HasDistinct (topic_subscribers_set topic) c).at s h);
        })

  pub unsubscribe-HasDistinct :
      (c topic : Bytes) → Keeps HasDistinct (unsubscribe (contents capacity) json c topic)
  unfolding unsubscribe
  unsubscribe-HasDistinct c topic =
      Keeps-bind (set_remove (contents capacity) json (topic_subscribers_set topic) c) _
        (set_remove-HasDistinct (topic_subscribers_set topic) c)
        (λ u. set_remove-HasDistinct (client_subscriptions_set c) topic)

  loop-HasDistinct :
      (c : Bytes) (topics : List Bytes)
      → Keeps HasDistinct (
          for_each topics
            (λ topic. ignore (set_remove (contents capacity) json (topic_subscribers_set topic) c)))
  unfolding for_each
  loop-HasDistinct c [] = search keeps_rules
  loop-HasDistinct c (topic ∷ topics) =
      Keeps-bind _ _ (Keeps-ignore _ (set_remove-HasDistinct (topic_subscribers_set topic) c))
        (λ u. loop-HasDistinct c topics)

  pub remove_client-HasDistinct :
      (c : Bytes) → Keeps HasDistinct (remove_client (contents capacity) json c)
  unfolding remove_client
  remove_client-HasDistinct c = record {
    at = λ s h.
        let topics = s.elements (client_subscriptions_set c) in
        (Keeps-bind (for_each topics _) _ (loop-HasDistinct c topics) (λ u.
            Keeps-bind (destroy (set_ref (client_subscriptions_set c))) _
              (destroy-HasDistinct (set_ref (client_subscriptions_set c)))
              (λ u.
                Keeps-bind (destroy (map_ref (client_message_queue c))) _
                  (destroy-HasDistinct (map_ref (client_message_queue c)))
                  (λ u.
                    Keeps-bind (destroy (queue_ref (client_message_notification c))) _
                      (destroy-HasDistinct (queue_ref (client_message_notification c)))
                      (λ u. set_remove-HasDistinct client_set c))))).at
          s h;
  }
