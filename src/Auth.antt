-- ===== src/Auth.antt =====
-- pkg/mqtt/auth.go: users, and what they may publish and subscribe to.
pub mod Access
pub mod Login
use yodi.Base.{
  ℕ, Bytes, codes, same, Bool, true, false, not, ltb, if◌then◌else◌, Option, none, some, Exec,
  Result, ok, err, halt, Error, ◌>>=◌,
}
use yodi.Base.Assoc.{Assoc, lookup}
use yodi.Store.{Store}

pub record TopicAcl : Type 0 where
  pub may_publish : Bool
  pub may_subscribe : Bool
  pub qos : ℕ

abbrev pub Acl : Type 0
Acl = Assoc TopicAcl

pub record User : Type 0 where
  pub acl : Acl
  pub password : Bytes

abbrev pub users_map : Bytes
users_map = codes "/users"

-- `ACL.AuthenticatePublish`
unfoldable pub check_publish : Option TopicAcl → ℕ → Result (Unit {0})
check_publish none qos = err Error.no_acl
check_publish (some a) qos =
    if not a.may_publish
    then err Error.publishing_forbidden
    else if ltb a.qos qos
    then err Error.qos_forbidden
    else ok tt

unfoldable pub authenticate_publish : Acl → Bytes → ℕ → Result (Unit {0})
unfolding check_publish
authenticate_publish acl topic qos = check_publish (lookup topic acl) qos

-- `ACL.AuthenticateSubscribe`
pub check_subscribe : Option TopicAcl → ℕ → Result (Unit {0})
check_subscribe none qos = err Error.no_acl
check_subscribe (some a) qos =
    if not a.may_subscribe
    then err Error.subscription_forbidden
    else if ltb a.qos qos
    then err Error.qos_forbidden
    else ok tt

pub authenticate_subscribe : Acl → Bytes → ℕ → Result (Unit {0})
unfolding check_subscribe
authenticate_subscribe acl topic qos = check_subscribe (lookup topic acl) qos

-- `errors.Is(err, store.ErrNoKey)`
pub is_no_key : Error → Bool
is_no_key Error.no_key = true
is_no_key _ = false

-- `subtle.ConstantTimeCompare` gives 1 exactly on equal contents.
unfoldable pub check_password : Bytes → Option User → Result User
check_password password none = err Error.failed_to_find_user
check_password password (some user) =
    if same user.password password then ok user else err Error.bad_credentials

-- What `AuthenticateUser` makes of the answer of the store.
unfoldable pub check_user : (Bytes → Option User) → Bytes → Result Bytes → Result User
unfolding check_password is_no_key
check_user unmarshal_user password (ok j) = check_password password (unmarshal_user j)
check_user unmarshal_user password (err e) =
    if is_no_key e then err Error.bad_credentials else err Error.failed_to_find_user
check_user unmarshal_user password (halt h) = halt h

module _ (st : Store) (unmarshal_user : Bytes → Option User) where
  open st use {State, map_of, map_get}

  unfoldable pub find_user : Bytes → Exec State Bytes
  find_user username = do users ← map_of users_map; map_get users username

  unfoldable pub authenticate_user : Bytes → Bytes → Exec State User
  unfolding find_user
  authenticate_user username password s =
      (check_user unmarshal_user password (find_user username s).0, (find_user username s).1)
