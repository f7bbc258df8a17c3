-- ===== src/Delivery/Invariant.antt =====
-- What holds of delivery at all times: of its channels, of the lock and of the flag of a duplicate.
use yodi.Base.{
  ◌≤◌, ◌≡◌, Bytes, List, [], ◌∷◌, length, length-append, Bool, true, false, refl, arith, ◌==◌, ◌||◌,
  ◌&&◌,
}
use yodi.Base.Assoc.{Assoc}
use yodi.Message.{qos0}
use yodi.Transport.{Transport}
use yodi.Json.{Json}
use yodi.Delivery.{
  System, Queuer, Deliverer, popping, publishing, selecting, scanning, offering, receiving,
  updating, after_decode, after_receive, Step, Steps, here, next, pop, notify, stop_notifier,
  receive_notified, pass, time_out, begin_scan, scan, offer, end_scan, stop_queuer, receive, update,
  skip_update, fail_update, publish, stop_deliverer, keep, arrive, acknowledge, cancel,
  channel_size,
}

abbrev in_scan : Queuer → Bool
in_scan (scanning _ _) = true
in_scan (offering _ _ _) = true
in_scan _ = false

-- A message for QoS 1 is about to be sent with the flag of a duplicate.
abbrev is_marked : Deliverer → Bool
is_marked (updating m) = m.duplicate
is_marked (publishing m) = m.qos == qos0 || m.duplicate
is_marked _ = true

module _ (t : Transport) (json : Json) (scan_locks : Bool) where
  pub record IsOrderly (s : System t) : Type 0 where
    pub one_notified : length s.notified ≤ channel_size
    pub one_queued : length s.queued ≤ channel_size
    pub lock : s.locked ≡ (in_scan s.queuer && scan_locks)
    pub marked : is_marked s.deliverer ≡ true

  Step-IsOrderly : {s u : System t} → Step t json scan_locks s u → IsOrderly s → IsOrderly u
  unfolding after_receive after_decode
  Step-IsOrderly (pop raw rest p q) h = ground arith
  Step-IsOrderly {s} (notify m p q) h = ground (arith, length-append s.notified (m ∷ []))
  Step-IsOrderly (stop_notifier p q) h = ground arith
  Step-IsOrderly (receive_notified m rest p q) h = ground arith
  Step-IsOrderly {s} (pass m p q) h = ground (arith, length-append s.queued (m ∷ []))
  Step-IsOrderly (time_out now p) h = ground arith
  Step-IsOrderly (begin_scan now entries p q e) h = ground arith
  Step-IsOrderly (scan now key raw rest p) h = ground arith
  Step-IsOrderly {s} (offer now m rest p q) h = ground (arith, length-append s.queued (m ∷ []))
  Step-IsOrderly (end_scan now p) h = ground arith
  Step-IsOrderly (stop_queuer p q) h = ground arith
  Step-IsOrderly (receive now m rest p q) h = ground arith
  Step-IsOrderly (update m raw p e q) h = ground arith
  Step-IsOrderly (skip_update m p e) h = ground arith
  Step-IsOrderly (fail_update m p e) h = ground arith
  Step-IsOrderly (publish m p r) h = ground arith
  Step-IsOrderly (stop_deliverer p q) h = ground arith
  Step-IsOrderly (keep id raw p) h = ground arith
  Step-IsOrderly (arrive raw) h = ground arith
  Step-IsOrderly (acknowledge id p) h = ground arith
  Step-IsOrderly cancel h = ground arith

  -- A client that has just subscribed: nothing is under way, whatever the store holds.
  abbrev pub start : t.Conn → List Bytes → Assoc Bytes → System t
  start conn notifications kept = record {
    notifications = notifications;
    kept = kept;
    locked = false;
    notified = [];
    queued = [];
    notifier = popping;
    queuer = selecting;
    deliverer = receiving;
    cancelled = false;
    conn = conn;
  }

  -- At all times each channel holds at most its one message, the lock is held exactly while a scan of a store that
  -- locks is under way, and a message for QoS 1 that is about to be sent has the flag of a duplicate, also
  -- if it was never sent before.
  pub delivery-IsOrderly :
      (conn : t.Conn) (notifications : List Bytes) (kept : Assoc Bytes) {s : System t}
      → Steps t json scan_locks (start conn notifications kept) s
      → IsOrderly s
  delivery-IsOrderly conn notifications kept here = record {
    one_notified = omega arith;
    one_queued = omega arith;
    lock = refl;
    marked = refl;
  }
  delivery-IsOrderly conn notifications kept (next r st) =
      Step-IsOrderly st (delivery-IsOrderly conn notifications kept r)
