-- ===== src/Delivery/Deadlock.antt =====
-- With a store whose scan holds the lock of the map, delivery can come to a stop for ever.
use yodi.Base.{
  ℕ, ◌≤◌, ◌≡◌, ◌≢◌, Bytes, [], ◌∷◌, ◌++◌, length, Bool, some, true, false, refl, ap, arith, ◌∙◌,
}
use mathlib.Core.Path.{subst}
use yodi.Base.Assoc.{Assoc, has_key}
use yodi.Message.{QueuedMessage, qos0}
use yodi.Transport.{Transport}
use yodi.Json.{Json}
use yodi.Delivery.{
  System, Queuer, Deliverer, selecting, scanning, offering, receiving, updating, locking, is_due,
  after_decode, after_receive, Step, Steps, here, next, pop, notify, stop_notifier,
  receive_notified, pass, time_out, begin_scan, scan, offer, end_scan, stop_queuer, receive, update,
  skip_update, fail_update, publish, stop_deliverer, keep, arrive, acknowledge, cancel,
  channel_size,
}

abbrev is_offering : Queuer → Bool
is_offering (offering _ _ _) = true
is_offering _ = false

module _ (t : Transport) (json : Json) where
  -- At the lock, with the text to keep.
  pub is_updating : Deliverer → Bool
  is_updating (updating m) = has_key (json.marshal m)
  is_updating _ = false

  -- The scan holds the lock and waits for room in the channel; the other end of the channel waits for
  -- the lock.
  pub record IsStuck (s : System t) : Type 0 where
    pub held : s.locked ≡ true
    pub full : channel_size ≤ length s.queued
    pub scanner : is_offering s.queuer ≡ true
    pub updater : is_updating s.deliverer ≡ true

  Step-IsStuck :
      {s u : System t}
      → Step t json true s u
      → IsStuck s
      → IsStuck u × (u.conn ≡ s.conn) × (u.kept ≡ s.kept)
  unfolding is_updating
  Step-IsStuck (pop raw rest p q) h = ground arith
  Step-IsStuck (notify m p q) h = ground arith
  Step-IsStuck (stop_notifier p q) h = ground arith
  Step-IsStuck (receive_notified m rest p q) h = ground arith
  Step-IsStuck (pass m p q) h = ground arith
  Step-IsStuck (time_out now p) h = ground arith
  Step-IsStuck (begin_scan now entries p q e) h = ground arith
  Step-IsStuck (scan now key raw rest p) h = ground arith
  Step-IsStuck (offer now m rest p q) h = ground arith
  Step-IsStuck (end_scan now p) h = ground arith
  Step-IsStuck (stop_queuer p q) h = ground arith
  Step-IsStuck (receive now m rest p q) h = ground arith
  Step-IsStuck (update m raw p e q) h = ground arith
  Step-IsStuck (skip_update m p e) h = ground arith
  Step-IsStuck (fail_update m p e) h = absurd cc
  Step-IsStuck (publish m p r) h = ground arith
  Step-IsStuck (stop_deliverer p q) h = ground arith
  Step-IsStuck (keep id raw p) h = ground arith
  Step-IsStuck (arrive raw) h = ground arith
  Step-IsStuck (acknowledge id p) h = ground arith
  Step-IsStuck cancel h = ground arith

  Steps-IsStuck :
      {s u : System t}
      → Steps t json true s u
      → IsStuck s
      → IsStuck u × (u.conn ≡ s.conn) × (u.kept ≡ s.kept)
  Steps-IsStuck here h = (h, refl, refl)
  Steps-IsStuck (next r st) h =
      let (k, c, m) = Steps-IsStuck r h in
      let (k', c', m') = Step-IsStuck st k in (k', c' ∙ c, m' ∙ m)

  -- Steps with what they lead to.
  module _ (s : System t) {b : Bool} (now : ℕ) (m : QueuedMessage) (rest : Assoc Bytes) where
    scan_due :
        (key raw : Bytes)
        → s.queuer ≡ scanning now ((key, raw) ∷ rest)
        → json.unmarshal raw ≡ some m
        → is_due now m ≡ true
        → Step t json b s (record s { queuer = offering now m rest })
    unfolding after_decode
    scan_due key raw p d due =
        let e : after_decode now rest (json.unmarshal raw) ≡ offering now m rest = ground arith in
        subst (λ q. Step t json b s (record s { queuer = q })) e (scan now key raw rest p)

    offer_first :
        s.queuer ≡ offering now m rest
        → s.queued ≡ []
        → Step t json b s (record s { queued = m ∷ []; queuer = scanning now rest })
    offer_first p e =
        subst (λ q. Step t json b s (record s { queued = q; queuer = scanning now rest }))
          (ap (λ q. q ++ (m ∷ [])) e) (offer now m rest p (ground arith))

    receive_kept :
        s.deliverer ≡ receiving
        → s.queued ≡ m ∷ []
        → m.qos ≢ qos0
        → Step t json b s (record s {
          queued = [];
          deliverer = updating (record m { send_time = now; duplicate = true });
        })
    unfolding after_receive
    receive_kept p q n =
        let e : after_receive now m ≡ updating (record m { send_time = now; duplicate = true }) =
          ground arith in
        subst (λ d. Step t json b s (record s { queued = []; deliverer = d })) e
          (receive now m [] p q)

  -- A scan begins while the first three messages of the map are due, and the first is for QoS 1.
  module _ (s : System t) (now : ℕ) (k1 k2 k3 r1 r2 r3 : Bytes) (m1 m2 m3 : QueuedMessage)
      (rest : Assoc Bytes) (idle : s.queuer ≡ selecting) (ready : s.deliverer ≡ receiving)
      (empty : s.queued ≡ []) (free : s.locked ≡ false)
      (entries : s.kept ≡ (k1, r1) ∷ (k2, r2) ∷ (k3, r3) ∷ rest) (d1 : json.unmarshal r1 ≡ some m1)
      (d2 : json.unmarshal r2 ≡ some m2) (d3 : json.unmarshal r3 ≡ some m3)
      (due1 : is_due now m1 ≡ true) (due2 : is_due now m2 ≡ true) (due3 : is_due now m3 ≡ true)
      (asks : m1.qos ≢ qos0) (r : Bytes)
      (encodes : json.marshal (record m1 { send_time = now; duplicate = true }) ≡ some r) where
    held_up : System t
    held_up = record s {
      locked = true;
      queued = m2 ∷ [];
      queuer = offering now m3 rest;
      deliverer = updating (record m1 { send_time = now; duplicate = true });
    }

    reach-held_up : Steps t json true s held_up
    unfolding held_up
    reach-held_up =
        let s1 : System t = record s { queuer = locking now } in
        let s2 : System t = record s1 { locked = true; queuer = scanning now s.kept } in
        let s3 : System t = record s2 { queuer = offering now m1 ((k2, r2) ∷ (k3, r3) ∷ rest) } in
        let s4 : System t = record s3 {
          queued = m1 ∷ [];
          queuer = scanning now ((k2, r2) ∷ (k3, r3) ∷ rest);
        } in
        let s5 : System t = record s4 {
          queued = [];
          deliverer = updating (record m1 { send_time = now; duplicate = true });
        } in
        let s6 : System t = record s5 { queuer = offering now m2 ((k3, r3) ∷ rest) } in
        let s7 : System t = record s6 {
          queued = m2 ∷ [];
          queuer = scanning now ((k3, r3) ∷ rest);
        } in
        let e1 : Step t json true s s1 = time_out now idle in
        let e2 : Step t json true s1 s2 = begin_scan now s.kept refl free (λ e. refl) in
        let e3 : Step t json true s2 s3 =
          scan_due s2 now m1 ((k2, r2) ∷ (k3, r3) ∷ rest) k1 r1 (ap (scanning now) entries) d1
            due1 in
        let e4 : Step t json true s3 s4 =
          offer_first s3 now m1 ((k2, r2) ∷ (k3, r3) ∷ rest) refl empty in
        let e5 : Step t json true s4 s5 = receive_kept s4 now m1 [] ready refl asks in
        let e6 : Step t json true s5 s6 = scan_due s5 now m2 ((k3, r3) ∷ rest) k2 r2 refl d2 due2 in
        let e7 : Step t json true s6 s7 = offer_first s6 now m2 ((k3, r3) ∷ rest) refl refl in
        let e8 : Step t json true s7 held_up = scan_due s7 now m3 rest k3 r3 refl d3 due3 in
        next (next (next (next (next (next (next (next here e1) e2) e3) e4) e5) e6) e7) e8

    held_up-IsStuck : IsStuck held_up
    unfolding held_up is_updating
    held_up-IsStuck = record {
      held = refl;
      full = omega arith;
      scanner = refl;
      updater = ground (arith, encodes);
    }

    -- With the store whose `Scan` holds the lock, let a scan begin while nothing is under way and the first three messages
    -- of the map are due, the first of them not for QoS 0 and with a JSON form. Then some steps lead to a state from which no step,
    -- whatever is notified, acknowledged or cancelled, sends anything to the client or changes what is
    -- kept for it.
    pub delivery_deadlocks :
        (stuck : System t) × Steps t json true s stuck
        × ((u : System t)
            → Steps t json true stuck u
            → (u.conn ≡ stuck.conn) × (u.kept ≡ stuck.kept))
    delivery_deadlocks =
        (held_up, reach-held_up, λ u r. let (k, c, m) = Steps-IsStuck r held_up-IsStuck in (c, m))
