-- ===== src/Web/Access.antt =====
-- Who passes the login of the web server.
use yodi.Base.{
  ◌==◌, Result, halt, refl, ap, ℕ, ◌≡◌, ◌≢◌, ◌↔◌, ◌⊎◌, Bytes, [], ◌∷◌, ◌++◌, codes, same, Bool,
  true, false, if◌then◌else◌, ok, err, arith, same_iff, none, some, Option-cases, Bool-cases, inl,
  inr, Error,
}
use yodi.Json.{Json}
use yodi.Base.Assoc.{lookup}
use yodi.Auth.{User, users_map}
use yodi.Auth.Login.{authenticate_user_iff, authenticate_user_denied, authenticate_user_undecoded}
use yodi.Store.Contents.{Contents, contents}
use yodi.Web.{validate, check_login, is_bad_credentials, skips_login, has_prefix}

check_login-true : (r : Result User) → check_login r ≡ ok true → (user : User) × (r ≡ ok user)
unfolding check_login
check_login-true (ok user) h = (user, refl)
check_login-true (err e) h = absurd (not_true (is_bad_credentials e) e h)
  where
    not_true : (b : Bool) (e : Error) → (if b then ok false else err e) ≡ ok true → ⊥
    not_true true e h = ground (arith, h)
    not_true false e h = ground (arith, h)
check_login-true (halt x) h = absurd (ground (arith, h))

module _ (capacity : ℕ) (json : Json) (username password : Bytes) (s : Contents) where
  abbrev pub HasUser : User → Type 0
  HasUser user =
      (raw : Bytes) × (lookup username (s.entries users_map) ≡ some raw)
      × (json.unmarshal_user raw ≡ some user)
      × (user.password ≡ password)

  -- Over the abstract store, the web server lets a user in exactly when the user is stored under the name and has the password; it says no exactly when no
  -- user is stored under the name, or one with another password, and fails exactly when the user there does not decode. It leaves
  -- the store as it is.
  pub validate_lem :
      let call = validate (contents capacity) json username password s in
      (call.0 ≡ ok true ↔ ((user : User) × HasUser user))
      × (call.0 ≡ ok false ↔ (
          (lookup username (s.entries users_map) ≡ none)
          ⊎ ((raw : Bytes) × (user : User) × (lookup username (s.entries users_map) ≡ some raw)
              × (json.unmarshal_user raw ≡ some user)
              × (user.password ≢ password))))
      × (call.0 ≡ err Error.failed_to_find_user ↔ (
          (raw : Bytes) × (lookup username (s.entries users_map) ≡ some raw)
          × (json.unmarshal_user raw ≡ none)))
      × (call.1 ≡ s)
  unfolding validate check_login
  validate_lem =
      let known = authenticate_user_iff capacity json.unmarshal_user username password s in
      let denied = (authenticate_user_denied capacity json.unmarshal_user username password s).1 in
      let undecoded =
        authenticate_user_undecoded capacity json.unmarshal_user username password s in
      (
        (
          λ h. let (user, e) = check_login-true _ h in (user, (known user).0.0 e),
          λ (user, h). ap check_login ((known user).0.1 h),
        ),
        (
          λ h. elim (Option-cases (lookup username (s.entries users_map))) [
            | inl e ↦ inl e
            | inr (raw, e) ↦ elim (Option-cases (json.unmarshal_user raw)) [
              | inl bad ↦ absurd (ground (arith, h, ap check_login (undecoded raw e bad)))
              | inr (u, good) ↦ inr (
                raw,
                u,
                e,
                good,
                λ p. absurd (ground (arith, h, ap check_login ((known u).0.1 (raw, e, good, p)))),
              )
            ]
          ],
          λ h. ap check_login (denied h),
        ),
        (
          λ h. elim (Option-cases (lookup username (s.entries users_map))) [
            | inl e ↦ absurd (ground (arith, h, ap check_login (denied (inl e))))
            | inr (raw, e) ↦ elim (Option-cases (json.unmarshal_user raw)) [
              | inl bad ↦ (raw, e, bad)
              | inr (u, good) ↦ elim (Bool-cases (same u.password password)) [
                | inl p ↦ absurd (
                    ground (
                      arith,
                      h,
                      ap check_login
                          ((known u).0.1 (raw, e, good, (same_iff u.password password).0 p)),
                    ))
                | inr p ↦ absurd (
                    ground (
                      arith,
                      h,
                      ap check_login (
                          denied (
                            inr (
                              raw,
                              u,
                              e,
                              good,
                              λ q. ground (arith, p, (same_iff u.password password).1 q),
                            ))),
                    ))
              ]
            ]
          ],
          λ (raw, e, bad). ap check_login (undecoded raw e bad),
        ),
        (known (record { acl = []; password = [] })).1,
      )

has_prefix_iff :
    (s prefix : Bytes) → (has_prefix s prefix ≡ true) ↔ ((rest : Bytes) × (s ≡ prefix ++ rest))
has_prefix_iff s [] = (λ h. (s, refl), λ h. refl)
has_prefix_iff [] (x ∷ prefix) =
    (λ h. absurd (ground (arith, h)), λ (rest, e). absurd (ground (arith, e)))
has_prefix_iff (y ∷ s) (x ∷ prefix) = elim (Bool-cases (y == x)) [
  | inl e ↦ (
    λ h.
        let (rest, q) = (has_prefix_iff s prefix).0 (ground (arith, e, h)) in
        (rest, ground (arith, e, q)),
    λ (rest, q). ground (arith, e, (has_prefix_iff s prefix).1 (rest, ground (arith, q))),
  )
  | inr e ↦ (λ h. absurd (ground (arith, e, h)), λ (rest, q). absurd (ground (arith, e, q)))
]

-- A login is asked for exactly of the paths that begin with /static.
pub skips_login_iff :
    (path : Bytes)
    → (skips_login path ≡ false) ↔ ((rest : Bytes) × (path ≡ codes "/static" ++ rest))
unfolding skips_login
skips_login_iff path =
    let (to, from) = has_prefix_iff path (codes "/static") in
    (λ h. to (ground (arith, h)), λ h. ground (arith, from h))
