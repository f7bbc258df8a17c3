-- ===== src/Broker/Removal.antt =====
-- `RemoveClient` leaves no trace of the client.
use yodi.Base.{
  ℕ, ◌≡◌, Bytes, List, [], ◌∷◌, contains, contains-without, same, same_iff, same_self, false, ◌&&◌,
  not, if◌then◌else◌, ok, err, Error, refl, arith, for_each, Exec, ignore,
}
use yodi.Json.{Json}
use yodi.Store.Contents.{Contents, contents, update}
use yodi.Broker.{
  remove_client, client_set, set_remove, topic_subscribers_set, client_subscriptions_set,
  client_message_queue, client_message_notification,
}
use yodi.Broker.Keys.{
  same-topic_client, same-client_topic, same-topics, same-clients, same-set_topic, same-set_client,
  same-key_ne, clients, topic_subscribers, client_subscriptions,
}
use yodi.Broker.Subscriptions.{IsAgreed, subscriber}

module _ (capacity : ℕ) (json : Json) (c : Bytes) where
  -- One round of the loop over the topics, whose error is dropped.
  round : Bytes → Exec Contents (Unit {0})
  round t = ignore (set_remove (contents capacity) json (topic_subscribers_set t) c)

  -- What the loop changes: only the subscribers of its topics.
  record IsLooped (ts : List Bytes) (s s' : Contents) : Type 0 where
    subscribers :
        (u d : Bytes) → subscriber s' u d ≡ (subscriber s u d && not (contains ts u && same c d))
    subscriptions :
        (d : Bytes)
        → s'.elements (client_subscriptions_set d) ≡ s.elements (client_subscriptions_set d)
    clients : s'.elements client_set ≡ s.elements client_set
    queued : s'.queued ≡ s.queued
    entries : s'.entries ≡ s.entries

  round_lem :
      (t : Bytes) (s : Contents) → ((round t s).0 ≡ ok tt) × IsLooped (t ∷ []) s (round t s).1
  unfolding round contains
  round_lem t s = (
    ground arith,
    record {
      subscribers = λ u d. ground (
        arith,
        same-topics t u,
        same_iff t u,
        same_iff c d,
        contains-without c (s.elements (topic_subscribers_set t)) d,
      );
      subscriptions = λ d. ground (arith, same-topic_client t d);
      clients = ground (arith, same-key_ne (topic_subscribers t) clients (λ e. cc));
      queued = ground arith;
      entries = ground arith;
    },
  )

  loop_lem :
      (ts : List Bytes) (s : Contents)
      → ((for_each ts round s).0 ≡ ok tt) × IsLooped ts s (for_each ts round s).1
  unfolding for_each contains
  loop_lem [] s = (
    refl,
    record {
      subscribers = λ u d. ground arith;
      subscriptions = λ d. refl;
      clients = refl;
      queued = refl;
      entries = refl;
    },
  )
  loop_lem (t ∷ ts) s =
      let (r, one) = round_lem t s in
      let (r', rest) = loop_lem ts (round t s).1 in
      (
        ground arith,
        rw r (record {
          subscribers = λ u d. ground (arith, one.subscribers u d, rest.subscribers u d);
          subscriptions = λ d. cc (one.subscriptions d, rest.subscriptions d);
          clients = cc (one.clients, rest.clients);
          queued = cc (one.queued, rest.queued);
          entries = cc (one.entries, rest.entries);
        }),
      )

  -- What the steps after the loop change.
  abbrev cleared : Contents → Contents
  cleared s = record s {
    elements = update s.elements (client_subscriptions_set c) [];
    entries = update s.entries (client_message_queue c) [];
    queued = update s.queued (client_message_notification c) [];
  }

  remove_client_run :
      (s : Contents)
      → let s' = cleared (for_each (s.elements (client_subscriptions_set c)) round s).1 in
        remove_client (contents capacity) json c s
        ≡ set_remove (contents capacity) json client_set c s'
  unfolding remove_client round
  remove_client_run s = rw (loop_lem (s.elements (client_subscriptions_set c)) s).0 refl

  -- What is left of the client `c`: nothing; and what is left of the others: all of it.
  pub record IsGone (s s' : Contents) : Type 0 where
    pub agreed : IsAgreed s'
    pub subscribers : (u d : Bytes) → subscriber s' u d ≡ (subscriber s u d && not (same c d))
    pub clients :
        (d : Bytes)
        → contains (s'.elements client_set) d
          ≡ (contains (s.elements client_set) d && not (same c d))
    pub queued :
        (k : Bytes)
        → s'.queued k ≡ (if same (client_message_notification c) k then [] else s.queued k)
    pub entries :
        (k : Bytes) → s'.entries k ≡ (if same (client_message_queue c) k then [] else s.entries k)

  -- The last step, `Remove` of the client from the set of clients.
  module _ (s : Contents) where
    last : Contents
    last = (set_remove (contents capacity) json client_set c s).1

    elements-last : (k : Bytes) → same client_set k ≡ false → last.elements k ≡ s.elements k
    unfolding last
    elements-last k h = ground arith

    clients-last :
        (d : Bytes)
        → contains (last.elements client_set) d
          ≡ (contains (s.elements client_set) d && not (same c d))
    unfolding last
    clients-last d =
        ground
          (arith, same_self client_set, same_iff c d, contains-without c (s.elements client_set) d)

    others-last : (last.queued ≡ s.queued) × (last.entries ≡ s.entries)
    unfolding last
    others-last = ground arith

  -- The set of clients afterwards, whatever the indices hold.
  pub clients-remove_client :
      (s : Contents) (d : Bytes)
      → contains ((remove_client (contents capacity) json c s).1.elements client_set) d
        ≡ (contains (s.elements client_set) d && not (same c d))
  unfolding last
  clients-remove_client s d =
      let s1 = (for_each (s.elements (client_subscriptions_set c)) round s).1 in
      let l = (loop_lem (s.elements (client_subscriptions_set c)) s).1 in
      rw (remove_client_run s) (
        ground (
          arith,
          clients-last (cleared s1) d,
          l.clients,
          same-key_ne (client_subscriptions c) clients (λ e. cc),
        ))

  -- From indices in step, `RemoveClient` takes the client out of the set of clients, out of the
  -- subscribers of every topic, and empties its queues. Nothing of another client changes. It
  -- succeeds exactly if the client was there.
  pub remove_client_lem :
      (s : Contents)
      → IsAgreed s
      → let call = remove_client (contents capacity) json c s in
        (call.0 ≡ (if contains (s.elements client_set) c then ok tt else err Error.value_missing))
        × IsGone s call.1
  unfolding last contains
  remove_client_lem s h =
      let s1 = (for_each (s.elements (client_subscriptions_set c)) round s).1 in
      let s' = cleared s1 in
      let l = (loop_lem (s.elements (client_subscriptions_set c)) s).1 in
      rw (remove_client_run s) (
        ground (arith, l.clients, same-key_ne (client_subscriptions c) clients (λ e. cc)),
        record {
          agreed = record {
            agree = λ u d. ground (
              arith,
              elements-last s' (topic_subscribers_set u) (same-set_topic u),
              elements-last s' (client_subscriptions_set d) (same-set_client d),
              l.subscribers u d,
              l.subscriptions d,
              same-clients c d,
              same_iff c d,
              same-client_topic c u,
              h.agree u d,
            );
          };
          subscribers = λ u d. ground (
            arith,
            elements-last s' (topic_subscribers_set u) (same-set_topic u),
            l.subscribers u d,
            same_iff c d,
            h.agree u d,
            same-client_topic c u,
          );
          clients = λ d. ground (
            arith,
            clients-last s' d,
            l.clients,
            same-key_ne (client_subscriptions c) clients (λ e. cc),
          );
          queued = λ k. ground (arith, others-last s', l.queued);
          entries = λ k. ground (arith, others-last s', l.entries);
        },
      )
