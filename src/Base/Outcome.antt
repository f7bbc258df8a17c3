-- ===== src/Base/Outcome.antt =====
-- What a Go call does: it returns a value or an error, or it does not return. The state comes back
-- in each case, since what was written before an error stays written.
use mathlib.Core.Path.{◌≡◌, refl}
use mathlib.Core.Logic.{◌⊎◌, inl, inr}
use mathlib.Core.Bool.{Bool, true, false}
use mathlib.Core.List.{List, [], ◌∷◌}

-- The errors of the program, one for each message, and those of the packages it calls.
pub data Error : Type 0 where
  -- io, net, encoding/json, context
  eof io_failed marshal_failed unmarshal_failed context_done : Error
  -- string.go, length.go, header.go
  failed_to_read_length buffer_too_small malformed_remaining_length invalid_qos_level : Error
  message_too_long header_not_written : Error
  -- connect.go
  bad_protocol_name bad_protocol_version connect_flags_not_set invalid_connect : Error
  empty_client_id empty_username empty_password : Error
  -- publish.go, subscribe.go, unsubscribe.go, ping.go, ping_response.go
  empty_topic unknown_qos_level no_message message_truncated message_too_big : Error
  failed_to_send_topic failed_to_send_message bad_qos pings_too_often : Error
  ping_has_payload ping_response_has_payload : Error
  -- client.go, websocket.go
  must_connect_first unknown_message_type disconnected unsupported_message_type : Error
  -- auth.go
  no_acl publishing_forbidden subscription_forbidden qos_forbidden : Error
  bad_credentials failed_to_find_user : Error
  -- pkg/store
  no_key value_exists value_missing key_missing redis_nil redis_failed : Error
  -- cmd/web
  bad_request : Error

-- Why a call does not return: the goroutine panics, waits for another one, or the fuel of the
-- model ran out.
pub data Halt : Type 0 where
  panics blocks out_of_fuel : Halt

pub data Result {ℓ} (A : Type ℓ) : Type ℓ where
  ok : A → Result A
  err : Error → Result A
  halt : Halt → Result A

abbrev pub Exec {ℓ κ} : Type ℓ → Type κ → Type (ℓ ⊔ κ)
Exec S A = S → Result A × S

module _ {ℓ κ} {S : Type ℓ} {A : Type κ} where
  abbrev pub pure : A → Exec S A
  pure a s = (ok a, s)

  abbrev pub raise : Error → Exec S A
  raise e s = (err e, s)

  abbrev pub stop : Halt → Exec S A
  stop h s = (halt h, s)

  -- A result that needs no state.
  abbrev pub lift : Result A → Exec S A
  lift r s = (r, s)

  abbrev pub gets : (S → A) → Exec S A
  gets f s = (ok (f s), s)

module _ {ℓ κ μ} {S : Type ℓ} {A : Type κ} {B : Type μ} where
  abbrev pub continue : Result A → (A → Exec S B) → Exec S B
  continue (ok a) f s = f a s
  continue (err e) f s = (err e, s)
  continue (halt h) f s = (halt h, s)

  infixl 5 ◌>>=◌ ◌>>◌
  abbrev pub ◌>>=◌ : Exec S A → (A → Exec S B) → Exec S B
  ◌>>=◌ m f s = continue (m s).0 f (m s).1

  abbrev pub ◌>>◌ : Exec S A → Exec S B → Exec S B
  m >> k = m >>= λ _. k

-- What an ignored error leaves: the state, and the code goes on. A panic does not go on.
abbrev pub forget {ℓ} : {A : Type ℓ} → Result A → Result (Unit {0})
forget (ok a) = ok tt
forget (err e) = ok tt
forget (halt h) = halt h

module _ {ℓ} {S : Type ℓ} where
  abbrev pub modify : (S → S) → Exec S (Unit {0})
  modify f s = (ok tt, f s)

  -- `if c { return e }`
  abbrev pub fail_if : Bool → Error → Exec S (Unit {0})
  fail_if true e s = (err e, s)
  fail_if false e s = (ok tt, s)

  abbrev pub ignore {κ} : {A : Type κ} → Exec S A → Exec S (Unit {0})
  ignore m s = (forget (m s).0, (m s).1)

  -- A loop over a slice, or over the keys of a map.
  unfoldable pub for_each {κ} : {A : Type κ} → List A → (A → Exec S (Unit {0})) → Exec S (Unit {0})
  for_each [] f = pure tt
  for_each (x ∷ xs) f = f x >> for_each xs f

  -- A call on a part of the state.
  abbrev pub on_part {κ μ} : {T : Type κ} {A : Type μ} → (T → S) → (T → S → T) → Exec S A → Exec T A
  on_part get put m t = ((m (get t)).0, put t (m (get t)).1)

pub Result-cases {ℓ} :
    {A : Type ℓ} (r : Result A)
    → ((a : A) × (r ≡ ok a)) ⊎ ((e : Error) × (r ≡ err e)) ⊎ ((h : Halt) × (r ≡ halt h))
Result-cases (ok a) = inl (a, refl)
Result-cases (err e) = inr (inl (e, refl))
Result-cases (halt h) = inr (inr (h, refl))
