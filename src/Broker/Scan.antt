-- ===== src/Broker/Scan.antt =====
-- `ScanQueuedMessagesForClient`: what its callback gets.
use yodi.Base.{
  ℕ, ◌≡◌, Bytes, List, [], ◌∷◌, ◌++◌, Option, none, some, Exec, ok, arith, for_each, append_assoc,
  append-nil, Option-cases, inl, inr,
}
use yodi.Base.Assoc.{Assoc}
use yodi.Message.{QueuedMessage}
use yodi.Json.{Json}
use yodi.Store.Contents.{Contents, contents}
use yodi.Broker.{scan_queued_messages_for_client, on_entry, decode_message, client_message_queue}

-- The messages of a map that decode.
abbrev pub and_decoded : Option QueuedMessage → List QueuedMessage → List QueuedMessage
and_decoded none ms = ms
and_decoded (some m) ms = m ∷ ms

abbrev pub decoded : Json → Assoc Bytes → List QueuedMessage
decoded json [] = []
decoded json ((k, raw) ∷ entries) = and_decoded (json.unmarshal raw) (decoded json entries)

-- A callback that notes its message.
abbrev pub note : QueuedMessage → Exec (Contents × List QueuedMessage) (Unit {0})
note m w = (ok tt, (w.0, w.1 ++ (m ∷ [])))

module _ (capacity : ℕ) (json : Json) where
  visit : Bytes × Bytes → Exec (Contents × List QueuedMessage) (Unit {0})
  visit e = on_entry (contents capacity) json note (decode_message (contents capacity) json e.1)

  loop_lem :
      (entries : Assoc Bytes) (s : Contents) (seen : List QueuedMessage)
      → for_each entries visit (s, seen) ≡ (ok tt, (s, seen ++ decoded json entries))
  unfolding for_each visit on_entry decode_message
  loop_lem [] s seen = ground (arith, append-nil seen)
  loop_lem ((k, raw) ∷ entries) s seen = elim (Option-cases (json.unmarshal raw)) [
    | inl e ↦ ground (arith, loop_lem entries s seen)
    | inr (m, e) ↦ ground (
      arith,
      loop_lem entries s (seen ++ (m ∷ [])),
      append_assoc seen (m ∷ []) (decoded json entries),
    )
  ]

  -- Over the abstract store, whose scan gives each entry its own value, as the memory store does and the Redis store does not:
  -- with a callback that notes its message, the scan notes each message that is kept for the client and
  -- decodes, once and in the order of the map, skips the others, and succeeds.
  pub scan_queued_messages_lem :
      (client_id : Bytes) (s : Contents) (seen : List QueuedMessage)
      → scan_queued_messages_for_client
          (contents capacity)
          json
          (λ w. w.0)
          (λ w db. (db, w.1))
          client_id
          note
          (s, seen)
        ≡ (ok tt, (s, seen ++ decoded json (s.entries (client_message_queue client_id))))
  unfolding scan_queued_messages_for_client visit
  scan_queued_messages_lem client_id s seen =
      loop_lem (s.entries (client_message_queue client_id)) s seen
