-- ===== src/Mailman/Rounds.antt =====
-- What the rounds of the mailman deliver.
use mathlib.Core.Path.{subst}
use yodi.Base.{
  ap, sym, ◌∙◌, continue, ℕ, ◌+◌, ◌<◌, ◌≤◌, ◌≡◌, Bytes, List, [], ◌∷◌, ◌++◌, length, false,
  contains, if◌then◌else◌, Result, ok, refl, arith, some, append_assoc, append-nil, length-append,
  Bool-cases, inl, inr, All,
}
use yodi.Message.{QueuedMessage}
use yodi.Json.{Json, IsJson, IsPlain}
use yodi.Store.Contents.{contents}
use yodi.Broker.{
  Server, queue_message_for_subscribers, topic_subscribers_set, message_queue, pop_queued_message,
}
use yodi.Base.Distinct.{Distinct}
use yodi.Broker.Delivery.{notified, IsDelivered, queue_message_for_subscribers_lem}
use yodi.Broker.Frames.{queue_message_for_subscribers-keeps, pop_queued_message-keeps}
use yodi.Broker.Messages.{Holds, pop_queued_message_lem}
use yodi.Mailman.{deliver_one, deliver}

-- The texts decode to the messages, each under some packet identifier.
abbrev pub Numbered : Json → List Bytes → List QueuedMessage → Type 0
Numbered json [] [] = Unit
Numbered json (raw ∷ raws) (m ∷ ms) =
    ((id : ℕ) × (json.unmarshal raw ≡ some (record m { id = id }))) × Numbered json raws ms
Numbered json _ _ = ⊥

-- The messages for the topics that a client subscribes to.
abbrev pub wanted : (Bytes → List Bytes) → Bytes → List QueuedMessage → List QueuedMessage
wanted sets d [] = []
wanted sets d (m ∷ ms) =
    if contains (sets (topic_subscribers_set m.topic)) d
    then m ∷ wanted sets d ms
    else wanted sets d ms

module _ (capacity : ℕ) (json : Json) (j : IsJson json) where
  abbrev St : Type 0
  St = Server (contents capacity)

  -- What one round does with the message in front.
  record IsRound (m : QueuedMessage) (ms : List QueuedMessage) (s : St)
      (call : Result (Unit {0}) × St) : Type 0 where
    returned : call.0 ≡ ok tt
    rest : Holds json (call.1.db.queued message_queue) ms
    same_sets : call.1.db.elements ≡ s.db.elements
    delivered : IsDelivered json m (s.db.elements (topic_subscribers_set m.topic)) s.db call.1.db

  round_lem :
      (m : QueuedMessage) (ms : List QueuedMessage) (s : St)
      → Holds json (s.db.queued message_queue) (m ∷ ms)
      → IsPlain m
      → ((t : Bytes) → Distinct (s.db.elements (topic_subscribers_set t)))
      → ((d : Bytes) → length (notified s.db d) < capacity)
      → IsRound m ms s (deliver_one (contents capacity) json false false s)
  unfolding deliver_one
  round_lem m ms s h p apart room =
      let db = (pop_queued_message (contents capacity) json false false s.db).1 in
      let s1 : St = record s { db = db } in
      let (r, left) = pop_queued_message_lem capacity json s.db false m ms h in
      let (sets, queues) =
        pop_queued_message-keeps capacity json false s.db (s.db.queued message_queue) refl in
      let (sets', queue') = queue_message_for_subscribers-keeps capacity json m s1 in
      let subs = ap (λ e. e (topic_subscribers_set m.topic)) sets in
      let (r', d) =
        queue_message_for_subscribers_lem capacity json j m p s1
          (subst Distinct (sym subs) (apart m.topic)) (λ c e. ground (arith, queues c, room c)) in
      let run : deliver_one (contents capacity) json false false s
          ≡ queue_message_for_subscribers (contents capacity) json m s1 =
        ap (λ a. continue a (queue_message_for_subscribers (contents capacity) json) s1) r in
      subst (IsRound m ms s) (sym run) (record {
        returned = r';
        rest = subst (λ q. Holds json q ms) (sym queue') left;
        same_sets = sets' ∙ sets;
        delivered = record {
          to_subscriber = λ c e.
              let (raw, id, new, back) = d.to_subscriber c (ap (λ cs. contains cs c) subs ∙ e) in
              (raw, id, new ∙ ap (λ q. q ++ (raw ∷ [])) (queues c), back);
          to_other = λ c e. d.to_other c (ap (λ cs. contains cs c) subs ∙ e) ∙ queues c;
        };
      })

  -- What all rounds do.
  pub record IsMailed (ms : List QueuedMessage) (s : St) (call : Result (Unit {0}) × St)
      : Type 0 where
    pub returned : call.0 ≡ ok tt
    pub emptied : call.1.db.queued message_queue ≡ []
    pub same_sets : call.1.db.elements ≡ s.db.elements
    pub mailed :
        (d : Bytes)
        → (raws : List Bytes) × (notified call.1.db d ≡ notified s.db d ++ raws)
          × Numbered json raws (wanted s.db.elements d ms)

  none-held : (raws : List Bytes) → Holds json raws [] → raws ≡ []
  none-held [] h = refl
  none-held (raw ∷ raws) h = absurd h

  -- What a client gets in one round.
  got :
      (m : QueuedMessage) (ms : List QueuedMessage) (s : St) (call : Result (Unit {0}) × St)
      (d : Bytes)
      → IsRound m ms s call
      → (raws : List Bytes) × (notified call.1.db d ≡ notified s.db d ++ raws)
        × (length raws ≤ 1)
        × ((more : List Bytes)
            → Numbered json more (wanted s.db.elements d ms)
            → Numbered json (raws ++ more) (wanted s.db.elements d (m ∷ ms)))
  got m ms s call d r =
      elim (Bool-cases (contains (s.db.elements (topic_subscribers_set m.topic)) d)) [
        | inl e ↦
            let (raw, id, new, back) = r.delivered.to_subscriber d e in
            (
              raw ∷ [],
              new,
              omega arith,
              λ more h.
                  subst
                    (λ b.
                      Numbered json (raw ∷ more)
                        (if b then m ∷ wanted s.db.elements d ms else wanted s.db.elements d ms))
                    (sym e) ((id, back), h),
            )
        | inr e ↦ (
          [],
          r.delivered.to_other d e ∙ sym (append-nil (notified s.db d)),
          omega arith,
          λ more h.
              subst
                (λ b.
                  Numbered json more
                    (if b then m ∷ wanted s.db.elements d ms else wanted s.db.elements d ms))
                (sym e) h,
        )
      ]

  -- Over the abstract store, whose queues are first in, first out, and from contents where the queue of published messages holds the plain messages `ms`, no topic lists a subscriber twice, and each client
  -- has room for all of them, the rounds of the mailman for `ms` succeed and empty that queue; each client then has, behind what waited
  -- for it, the messages for the topics that it subscribes to, once each, in the order of their publication, each under some packet
  -- identifier, and nothing else. The subscriptions stay.
  pub deliver-IsMailed :
      (ms : List QueuedMessage) (s : St)
      → Holds json (s.db.queued message_queue) ms
      → All IsPlain ms
      → ((t : Bytes) → Distinct (s.db.elements (topic_subscribers_set t)))
      → ((d : Bytes) → length (notified s.db d) + length ms ≤ capacity)
      → IsMailed ms s (deliver (contents capacity) json (length ms) s)
  unfolding deliver
  deliver-IsMailed [] s h p apart room = record {
    returned = refl;
    emptied = none-held (s.db.queued message_queue) h;
    same_sets = refl;
    mailed = λ d. ([], sym (append-nil (notified s.db d)), tt);
  }
  deliver-IsMailed (m ∷ ms) s h (p, ps) apart room =
      let call = deliver_one (contents capacity) json false false s in
      let one = round_lem m ms s h p apart (λ d. ground (arith, room d)) in
      let all =
        deliver-IsMailed ms call.1 one.rest ps
          (λ t. subst (λ e. Distinct (e (topic_subscribers_set t))) (sym one.same_sets) (apart t))
          (λ d.
            let (raws, new, few, more) = got m ms s call d one in
            ground (arith, new, few, room d, length-append (notified s.db d) raws)) in
      subst (IsMailed (m ∷ ms) s)
        (sym (
          ap (λ a. continue a (λ _. deliver (contents capacity) json (length ms)) call.1)
            one.returned))
        (record {
          returned = all.returned;
          emptied = all.emptied;
          same_sets = all.same_sets ∙ one.same_sets;
          mailed = λ d.
              let (raws, new, few, more) = got m ms s call d one in
              let (raws', new', numbered) = all.mailed d in
              (
                raws ++ raws',
                new' ∙ ap (λ q. q ++ raws') new ∙ append_assoc (notified s.db d) raws raws',
                more raws'
                    (subst (λ e. Numbered json raws' (wanted e d ms)) one.same_sets numbered),
              );
        })
