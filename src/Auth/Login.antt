-- ===== src/Auth/Login.antt =====
-- How a login ends.
use yodi.Base.{
  ◌≢◌, ◌⊎◌, none, err, Error, ℕ, ◌≡◌, ◌↔◌, Bytes, Option, some, ok, arith, same_iff, Option-cases,
  inl, inr,
}
use yodi.Base.Assoc.{lookup}
use yodi.Store.Contents.{Contents, contents}
use yodi.Auth.{User, users_map, authenticate_user, find_user, check_user, check_password, is_no_key}

module _ (capacity : ℕ) (unmarshal_user : Bytes → Option User) (username password : Bytes)
    (s : Contents) where
  -- A login succeeds with a user exactly when that user is stored under the name and has the password.
  -- It leaves the store as it is.
  pub authenticate_user_iff :
      (user : User)
      → let call = authenticate_user (contents capacity) unmarshal_user username password s in
        ((call.0 ≡ ok user) ↔ (
          (raw : Bytes) × (lookup username (s.entries users_map) ≡ some raw)
          × (unmarshal_user raw ≡ some user)
          × (user.password ≡ password)))
        × (call.1 ≡ s)
  unfolding authenticate_user find_user check_user check_password is_no_key
  authenticate_user_iff user = elim (Option-cases (lookup username (s.entries users_map))) [
    | inl e ↦ ((λ h. absurd (ground arith), λ (raw, f, g, p). absurd (ground arith)), ground arith)
    | inr (raw, e) ↦ elim (Option-cases (unmarshal_user raw)) [
      | inl bad ↦
          ((λ h. absurd (ground arith), λ (raw', f, g, p). absurd (ground arith)), ground arith)
      | inr (u, good) ↦ (
        (
          λ h. (
            raw,
            e,
            ground (arith, same_iff u.password password),
            ground (arith, same_iff u.password password),
          ),
          λ (raw', f, g, p). ground (arith, same_iff u.password password),
        ),
        ground arith,
      )
    ]
  ]

  -- A login ends with `ErrBadCredentials` exactly when no user is stored under the name, or one with another password.
  pub authenticate_user_denied :
      (authenticate_user (contents capacity) unmarshal_user username password s).0
        ≡ err Error.bad_credentials
      ↔ ((lookup username (s.entries users_map) ≡ none)
          ⊎ ((raw : Bytes) × (user : User) × (lookup username (s.entries users_map) ≡ some raw)
              × (unmarshal_user raw ≡ some user)
              × (user.password ≢ password)))
  unfolding authenticate_user find_user check_user check_password is_no_key
  authenticate_user_denied = elim (Option-cases (lookup username (s.entries users_map))) [
    | inl e ↦ (λ h. inl e, λ h. ground (arith, e))
    | inr (raw, e) ↦ elim (Option-cases (unmarshal_user raw)) [
      | inl bad ↦ (
        λ h. absurd (ground (arith, e, bad)),
        (λ h. elim h [
          | inl q ↦ absurd (ground (arith, e, q))
          | inr t ↦ let (raw', user, f, g, p) = t in absurd (ground (arith, e, f, bad, g))
        ]),
      )
      | inr (u, good) ↦ (
        λ h.
            inr (
              raw,
              u,
              e,
              good,
              λ p. absurd (ground (arith, e, good, same_iff u.password password)),
            ),
        (λ h. elim h [
          | inl q ↦ absurd (ground (arith, e, q))
          | inr t ↦
              let (raw', user, f, g, p) = t in
              ground (arith, e, f, good, g, p, same_iff user.password password)
        ]),
      )
    ]
  ]

  -- It fails in another way where the user that is stored does not decode.
  pub authenticate_user_undecoded :
      (raw : Bytes)
      → lookup username (s.entries users_map) ≡ some raw
      → unmarshal_user raw ≡ none
      → (authenticate_user (contents capacity) unmarshal_user username password s).0
        ≡ err Error.failed_to_find_user
  unfolding authenticate_user find_user check_user check_password
  authenticate_user_undecoded raw e bad = ground (arith, e, bad)
