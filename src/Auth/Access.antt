-- ===== src/Auth/Access.antt =====
-- The access rules, and the ways in which a login ends.
use yodi.Base.{
  halt, Halt, ◌≢◌, ℕ, ◌≡◌, ◌≤◌, ◌↔◌, inl, inr, Bytes, true, some, ok, arith, Option-cases,
}
use yodi.Base.Assoc.{lookup}
use yodi.Auth.{Acl, TopicAcl, authenticate_publish, authenticate_subscribe}

authenticate_publish_iff :
    (acl : Acl) (topic : Bytes) (qos : ℕ)
    → (authenticate_publish acl topic qos ≡ ok tt)
      ↔ ((a : TopicAcl) × (lookup topic acl ≡ some a) × (a.may_publish ≡ true) × (qos ≤ a.qos))
unfolding authenticate_publish
authenticate_publish_iff acl topic qos = elim (Option-cases (lookup topic acl)) [
  | inl e ↦ (λ h. ground arith, λ (a, f, p, q). ground arith)
  | inr (a, e) ↦ (λ h. (a, e, ground arith, ground arith), λ (b, f, p, q). ground arith)
]

authenticate_subscribe_iff :
    (acl : Acl) (topic : Bytes) (qos : ℕ)
    → (authenticate_subscribe acl topic qos ≡ ok tt)
      ↔ ((a : TopicAcl) × (lookup topic acl ≡ some a) × (a.may_subscribe ≡ true) × (qos ≤ a.qos))
unfolding authenticate_subscribe
authenticate_subscribe_iff acl topic qos = elim (Option-cases (lookup topic acl)) [
  | inl e ↦ (λ h. ground arith, λ (a, f, p, q). ground arith)
  | inr (a, e) ↦ (λ h. (a, e, ground arith, ground arith), λ (b, f, p, q). ground arith)
]

-- A publish, or a subscription, is allowed exactly when the topic has an entry that lets the user publish, or subscribe, at a QoS
-- of at least the one that is asked for.
pub authenticate_iff :
    (acl : Acl) (topic : Bytes) (qos : ℕ)
    → ((authenticate_publish acl topic qos ≡ ok tt)
        ↔ ((a : TopicAcl) × (lookup topic acl ≡ some a) × (a.may_publish ≡ true) × (qos ≤ a.qos)))
      × ((authenticate_subscribe acl topic qos ≡ ok tt) ↔ (
          (a : TopicAcl) × (lookup topic acl ≡ some a) × (a.may_subscribe ≡ true) × (qos ≤ a.qos)))
authenticate_iff acl topic qos =
    (authenticate_publish_iff acl topic qos, authenticate_subscribe_iff acl topic qos)

-- Neither test fails to return.
pub authenticate_publish-ne-halt :
    (acl : Acl) (topic : Bytes) (qos : ℕ) (x : Halt) → authenticate_publish acl topic qos ≢ halt x
unfolding authenticate_publish
authenticate_publish-ne-halt acl topic qos x = ground arith

pub authenticate_subscribe-ne-halt :
    (acl : Acl) (topic : Bytes) (qos : ℕ) (x : Halt) → authenticate_subscribe acl topic qos ≢ halt x
unfolding authenticate_subscribe
authenticate_subscribe-ne-halt acl topic qos x = ground arith
