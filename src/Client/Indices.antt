-- ===== src/Client/Indices.antt =====
-- The subscription indices in the store stay in step through the whole life of a client.
use yodi.Base.{ℕ}
use yodi.Json.{Json}
use yodi.Transport.{Transport}
use yodi.Store.Contents.{Contents, contents}
use yodi.Broker.{Server}
use yodi.Broker.Subscriptions.{IsAgreed, subscribe_lem, unsubscribe_lem}
use yodi.Broker.Removal.{remove_client_lem}
use yodi.Broker.Agreement.{
  login-IsAgreed, add_client-IsAgreed, queue_message-IsAgreed, unqueue-IsAgreed,
}
use yodi.Client.{Client, read_packet, close, run, new_client, handle}
use yodi.Broker.Sets.{
  HasDistinct, login-HasDistinct, add_client-HasDistinct, remove_client-HasDistinct,
  queue_message-HasDistinct, unqueue-HasDistinct, subscribe-HasDistinct, unsubscribe-HasDistinct,
}
use yodi.Client.Database.{IsKept, read_packet-InStore, run-InStore, close-InStore}
use yodi.Client.Leak.{env}

module _ (t : Transport) (capacity : ℕ) (json : Json) where
  indices-IsKept : IsKept (env t capacity json) IsAgreed
  indices-IsKept = record {
    login = login-IsAgreed capacity json;
    add_client = add_client-IsAgreed capacity json;
    remove_client = λ id. record { at = λ s h. (remove_client_lem capacity json id s h).1.agreed };
    handled = record {
      queue = queue_message-IsAgreed capacity json;
      unqueue = λ c id u. unqueue-IsAgreed capacity json c id;
      subscribe = λ c topic u. record { at = λ s h. (subscribe_lem capacity json s c topic h).1 };
      unsubscribe =
          λ c topic u. record { at = λ s h. (unsubscribe_lem capacity json s c topic h).1 };
    };
  }

  distinct-IsKept : IsKept (env t capacity json) HasDistinct
  distinct-IsKept = record {
    login = login-HasDistinct capacity json;
    add_client = add_client-HasDistinct capacity json;
    remove_client = remove_client-HasDistinct capacity json;
    handled = record {
      queue = queue_message-HasDistinct capacity json;
      unqueue = λ c id u. unqueue-HasDistinct capacity json c id;
      subscribe = λ c topic u. subscribe-HasDistinct capacity json c topic;
      unsubscribe = λ c topic u. unsubscribe-HasDistinct capacity json c topic;
    };
  }

  -- What holds of the sets of a store: the indices are in step, and no set holds a value twice.
  abbrev pub InOrder : Contents → Type 0
  InOrder s = IsAgreed s × HasDistinct s

  pub read_packet-InOrder :
      (c : Client (env t capacity json))
      → InOrder c.server.db
      → InOrder (read_packet (env t capacity json) c).1.server.db
  read_packet-InOrder c (h, k) =
      let e = env t capacity json in
      (
        (read_packet-InStore e IsAgreed indices-IsKept).at c h,
        (read_packet-InStore e HasDistinct distinct-IsKept).at c k,
      )

  pub close-InOrder :
      (c : Client (env t capacity json))
      → InOrder c.server.db
      → InOrder (close (env t capacity json) c).1.server.db
  close-InOrder c (h, k) =
      let e = env t capacity json in
      (
        (close-InStore e IsAgreed indices-IsKept).at c h,
        (close-InStore e HasDistinct distinct-IsKept).at c k,
      )

  -- Over the abstract store, from contents whose subscription indices are in step, any number of packets of a client, whatever they are and
  -- however their handling ends, and `Close` after them, leave the indices in step.
  pub handle-IsAgreed :
      (fuel : ℕ) (conn : t.Conn) (server : Server (contents capacity))
      → IsAgreed server.db
      → IsAgreed (handle (env t capacity json) fuel conn server).server.db
  unfolding handle new_client
  handle-IsAgreed fuel conn server h =
      let e = env t capacity json in
      let c = new_client e conn server in
      (close-InStore e IsAgreed indices-IsKept).at (run e fuel c).1
        ((run-InStore e IsAgreed indices-IsKept fuel).at c h)
