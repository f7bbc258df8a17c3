-- ===== src/Store/Redis/Scans.antt =====
-- pkg/store/redis_set.go, redis_map.go: what the two scans call back with, reply by reply.
use yodi.Base.{
  Bool, true, false, All, ℕ, zero, suc, ◌≤◌, ◌≡◌, Bytes, List, [], ◌∷◌, ◌++◌, length, Exec, ok,
  for_each, refl, arith, append_assoc, append-nil, ◌∙◌, ap,
}
use yodi.Store.Redis.{
  Redis, set_scan_from, each_pair, map_scan_from, redis_scan, redis_map_scan, redis_set, redis_map,
}

-- The replies of a scan command that nothing else comes between, from a cursor on.
pub data Replies {S : Type 0} (command : ℕ → Exec S (List Bytes × ℕ))
    : S → ℕ → List (List Bytes) → S → Type 0 where
  last :
      {s : S} {cursor : ℕ} {reply : List Bytes} {s' : S}
      → command cursor s ≡ (ok (reply, 0), s')
      → Replies command s cursor (reply ∷ []) s'
  more :
      {s : S} {cursor next : ℕ} {reply : List Bytes} {rest : List (List Bytes)} {s' end : S}
      → command cursor s ≡ (ok (reply, suc next), s')
      → Replies command s' (suc next) rest end
      → Replies command s cursor (reply ∷ rest) end

abbrev pub all_values : List (List Bytes) → List Bytes
all_values [] = []
all_values (values ∷ rest) = values ++ all_values rest

-- Every second element, from the first one on, each with the same value.
abbrev pub keys_with : Bytes → List Bytes → List (Bytes × Bytes)
keys_with v [] = []
keys_with v (k ∷ []) = (k, v) ∷ []
keys_with v (k ∷ _ ∷ rest) = (k, v) ∷ keys_with v rest

-- The pairs of a reply as the scan of a map calls back: its keys, all with the value of the first one.
abbrev pub called_with : List Bytes → List (Bytes × Bytes)
called_with (k ∷ v ∷ rest) = keys_with v (k ∷ v ∷ rest)
called_with _ = []

abbrev pub all_calls : List (List Bytes) → List (Bytes × Bytes)
all_calls [] = []
all_calls (results ∷ rest) = called_with results ++ all_calls rest

abbrev pub pairs : List Bytes → List (Bytes × Bytes)
pairs (k ∷ v ∷ rest) = (k, v) ∷ pairs rest
pairs _ = []

abbrev pub all_pairs : List (List Bytes) → List (Bytes × Bytes)
all_pairs [] = []
all_pairs (results ∷ rest) = pairs results ++ all_pairs rest

abbrev pub even : List Bytes → Bool
even [] = true
even (x ∷ []) = false
even (x ∷ y ∷ rest) = even rest

module _ (r : Redis) where
  -- The server, and what a callback has noted.
  abbrev pub note : Bytes → Exec (r.State × List Bytes) (Unit {0})
  note v (s, seen) = (ok tt, (s, seen ++ (v ∷ [])))

  abbrev pub note_pair : Bytes → Bytes → Exec (r.State × List (Bytes × Bytes)) (Unit {0})
  note_pair k v (s, seen) = (ok tt, (s, seen ++ ((k, v) ∷ [])))

  for_each-note :
      (vs : List Bytes) (s : r.State) (seen : List Bytes)
      → for_each vs note (s, seen) ≡ (ok tt, (s, seen ++ vs))
  unfolding for_each
  for_each-note [] s seen = ground (arith, append-nil seen)
  for_each-note (v ∷ vs) s seen =
      for_each-note vs s (seen ++ (v ∷ []))
      ∙ ap (λ x. (ok tt, (s, x))) (append_assoc seen (v ∷ []) vs)

  scan-values :
      {k : Bytes} {s end : r.State} {cursor : ℕ} {replies : List (List Bytes)}
      → Replies (r.sscan k) s cursor replies end
      → (fuel : ℕ) (seen : List Bytes) → length replies ≤ fuel
      → set_scan_from r (λ w. w.0) (λ w t. (t, w.1)) fuel k note cursor (s, seen)
        ≡ (ok tt, (end, seen ++ all_values replies))
  unfolding set_scan_from
  scan-values (last e) zero seen h = absurd (ground arith)
  scan-values (more e rest) zero seen h = absurd (ground arith)
  scan-values {end = end} (last {reply = reply} e) (suc fuel) seen h =
      ground (arith, e, for_each-note reply end seen, append-nil reply)
  scan-values (more {reply = reply} {rest = rest} {s' = s'} e it) (suc fuel) seen h = ground (
    arith,
    e,
    for_each-note reply s' seen,
    append_assoc seen reply (all_values rest),
    scan-values it fuel (seen ++ reply) (ground (arith, h)),
  )

  each_pair-note :
      (k v : Bytes) (rest ps : List Bytes) (s : r.State) (seen : List (Bytes × Bytes))
      → each_pair r (λ w. w.0) (λ w t. (t, w.1)) (k ∷ v ∷ rest) note_pair ps (s, seen)
        ≡ (ok tt, (s, seen ++ keys_with v ps))
  unfolding each_pair
  each_pair-note k v rest [] s seen = ground (arith, append-nil seen)
  each_pair-note k v rest (x ∷ []) s seen = refl
  each_pair-note k v rest (x ∷ y ∷ ps) s seen =
      each_pair-note k v rest ps s (seen ++ ((x, v) ∷ []))
      ∙ ap (λ z. (ok tt, (s, z))) (append_assoc seen ((x, v) ∷ []) (keys_with v ps))

  each_reply-note :
      (results : List Bytes) (s : r.State) (seen : List (Bytes × Bytes))
      → even results ≡ true
      → each_pair r (λ w. w.0) (λ w t. (t, w.1)) results note_pair results (s, seen)
        ≡ (ok tt, (s, seen ++ called_with results))
  unfolding each_pair
  each_reply-note [] s seen h = ground (arith, append-nil seen)
  each_reply-note (k ∷ []) s seen h = absurd (ground (arith, h))
  each_reply-note (k ∷ v ∷ rest) s seen h = each_pair-note k v rest (k ∷ v ∷ rest) s seen

  scan-calls :
      {k : Bytes} {s end : r.State} {cursor : ℕ} {replies : List (List Bytes)}
      → Replies (r.hscan k) s cursor replies end
      → (fuel : ℕ) (seen : List (Bytes × Bytes)) → length replies ≤ fuel
      → All (λ reply. even reply ≡ true) replies
      → map_scan_from r (λ w. w.0) (λ w t. (t, w.1)) fuel k note_pair cursor (s, seen)
        ≡ (ok tt, (end, seen ++ all_calls replies))
  unfolding map_scan_from
  scan-calls (last e) zero seen h evens = absurd (ground arith)
  scan-calls (more e rest) zero seen h evens = absurd (ground arith)
  scan-calls {end = end} (last {reply = reply} e) (suc fuel) seen h (even_reply, evens) =
      ground (arith, e, each_reply-note reply end seen even_reply, append-nil (called_with reply))
  scan-calls (more {reply = reply} {rest = rest} {s' = s'} e it) (suc fuel) seen h
        (even_reply, evens) =
      ground (
        arith,
        e,
        each_reply-note reply s' seen even_reply,
        append_assoc seen (called_with reply) (all_calls rest),
        scan-calls it fuel (seen ++ called_with reply) (ground (arith, h)) evens,
      )

  all_calls-small :
      (replies : List (List Bytes))
      → All (λ reply. even reply ≡ true) replies
      → All (λ reply. length reply ≤ 2) replies
      → all_calls replies ≡ all_pairs replies
  all_calls-small [] e l = refl
  all_calls-small ([] ∷ rest) (e, es) (l, ls) = all_calls-small rest es ls
  all_calls-small ((k ∷ []) ∷ rest) (e, es) (l, ls) = absurd (ground (arith, e))
  all_calls-small ((k ∷ v ∷ []) ∷ rest) (e, es) (l, ls) =
      ap (◌∷◌ (k, v)) (all_calls-small rest es ls)
  all_calls-small ((k ∷ v ∷ x ∷ xs) ∷ rest) (e, es) (l, ls) = absurd (ground (arith, l))

  -- With a callback that notes its value, `Scan` of a set notes the values of all replies of SSCAN in their order, and succeeds:
  -- for replies that no other command comes between, the last one with the cursor 0, and a bound that is at least their number.
  pub redis_scan_lem :
      {k : Bytes} {s end : r.State} {replies : List (List Bytes)}
      → Replies (r.sscan k) s 0 replies end
      → (fuel : ℕ) (seen : List Bytes) → length replies ≤ fuel
      → redis_scan r (λ w. w.0) (λ w t. (t, w.1)) fuel (redis_set k) note (s, seen)
        ≡ (ok tt, (end, seen ++ all_values replies))
  unfolding redis_scan
  redis_scan_lem it fuel seen h = scan-values it fuel seen h

  -- With a callback that notes its key and its value, `Scan` of a map succeeds and notes every key of the replies of HSCAN, but
  -- each with the value of the first pair of its reply: for replies of pairs that no other command comes between, the last one with
  -- the cursor 0, and a bound that is at least their number.
  pub redis_map_scan-first_value :
      {k : Bytes} {s end : r.State} {replies : List (List Bytes)}
      → Replies (r.hscan k) s 0 replies end
      → (fuel : ℕ) (seen : List (Bytes × Bytes)) → length replies ≤ fuel
      → All (λ reply. even reply ≡ true) replies
      → redis_map_scan r (λ w. w.0) (λ w t. (t, w.1)) fuel (redis_map k) note_pair (s, seen)
        ≡ (ok tt, (end, seen ++ all_calls replies))
  unfolding redis_map_scan
  redis_map_scan-first_value it fuel seen h evens = scan-calls it fuel seen h evens

  -- Where moreover no reply has more than one pair, `Scan` of a map notes exactly the pairs of the replies, in their order.
  pub redis_map_scan-one_pair :
      {k : Bytes} {s end : r.State} {replies : List (List Bytes)}
      → Replies (r.hscan k) s 0 replies end
      → (fuel : ℕ) (seen : List (Bytes × Bytes)) → length replies ≤ fuel
      → All (λ reply. even reply ≡ true) replies
      → All (λ reply. length reply ≤ 2) replies
      → redis_map_scan r (λ w. w.0) (λ w t. (t, w.1)) fuel (redis_map k) note_pair (s, seen)
        ≡ (ok tt, (end, seen ++ all_pairs replies))
  unfolding redis_map_scan
  redis_map_scan-one_pair {end = end} {replies = replies} it fuel seen h evens small =
      scan-calls it fuel seen h evens
      ∙ ap (λ x. (ok tt, (end, seen ++ x))) (all_calls-small replies evens small)
