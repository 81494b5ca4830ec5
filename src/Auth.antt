-- ===== src/Auth.antt =====
-- app/auth.py: admin sessions and the login. Times are whole seconds since the epoch; the password
-- hash check, the random CSRF token and the clock readings are arguments.
pub mod Sessions
pub mod Logins
use early_warning_system.Prelude.{
  ℕ, ◌-◌, Bool, true, false, ◌&&◌, ◌||◌, not, Option, none, some, List, Text, codes, find, ◌==◌,
  nat_eq, text_eq, option_eq, ltb, leb, if◌then◌else◌, Result, ok, raise,
}
use early_warning_system.Models.{AdminUser}
use early_warning_system.WebSecurity.Session.{SessionValue, int, WebSession, cleared}
use early_warning_system.WebSecurity.Csrf.{rotate_csrf_token}
use early_warning_system.WebSecurity.Limiter.{
  Digester, LimiterKey, Limiter, limiter_key, attempt_begin, attempt_end, record_failure, clear,
}

-- the responses other than the page itself
pub data HttpError : Type 0 where
  unauthorized : HttpError
  bad_login : HttpError
  login_limited : ℕ → HttpError
  server_error : HttpError

-- `_session_integer`
unfoldable pub session_integer : Option SessionValue → Option ℕ
session_integer (some (int n)) = some n
session_integer _ = none

-- `establish_admin_session`; `none` is the `ValueError` for a user that is not stored
unfoldable pub establish_admin_session : WebSession → AdminUser → ℕ → Option WebSession
establish_admin_session s user now = elim user.id [
  | none ↦ none
  | some id ↦ some (record s {
    admin_user_id = some (int id);
    authenticated_at = some (int now);
    last_activity_at = some (int now);
    admin_session_version = some (int user.session_version);
  })
]

-- the condition of `validate_admin_session` on the four integers, negated
unfoldable pub is_acceptable : AdminUser → ℕ → ℕ → ℕ → ℕ → ℕ → ℕ → ℕ → Bool
is_acceptable user max_age idle now user_id authenticated_at last_activity_at session_version =
    not (
      (user.id == none)
      || not (some user_id == user.id)
      || not (session_version == user.session_version)
      || ltb now authenticated_at
      || ltb now last_activity_at
      || ltb last_activity_at authenticated_at
      || leb max_age (now - authenticated_at)
      || leb idle (now - last_activity_at))

-- all four values are integers and acceptable
unfoldable pub session_accepted : AdminUser → ℕ → ℕ → ℕ → WebSession → Bool
session_accepted user max_age idle now s = elim (session_integer s.admin_user_id) [
  | none ↦ false
  | some user_id ↦ elim (session_integer s.authenticated_at) [
    | none ↦ false
    | some authenticated_at ↦ elim (session_integer s.last_activity_at) [
      | none ↦ false
      | some last_activity_at ↦ elim (session_integer s.admin_session_version) [
        | none ↦ false
        | some version ↦
            is_acceptable user max_age idle now user_id authenticated_at last_activity_at version
      ]
    ]
  ]
]

-- `validate_admin_session`: the answer, and the session as it leaves it
unfoldable pub validate_admin_session : WebSession → AdminUser → ℕ → ℕ → ℕ → Bool × WebSession
validate_admin_session s user max_age idle now =
    if session_accepted user max_age idle now s
    then (true, record s { last_activity_at = some (int now) })
    else (false, cleared)

-- the settings that sessions use
pub record SessionSettings : Type 0 where
  pub session_max_age_seconds : ℕ
  pub session_idle_timeout_seconds : ℕ

abbrev pub get_user : List AdminUser → ℕ → Option AdminUser
get_user users id = find (λ u. u.id == some id) users

abbrev pub find_user : List AdminUser → Text → Option AdminUser
find_user users username = find (λ u. u.username == username) users

unfoldable pub require_valid :
    SessionSettings → WebSession → AdminUser → ℕ → Result HttpError AdminUser × WebSession
require_valid settings s user now =
    let (valid, s') =
      validate_admin_session s user settings.session_max_age_seconds
        settings.session_idle_timeout_seconds now in
    (if valid then ok user else raise unauthorized, s')

-- `require_admin`
unfoldable pub require_admin :
    SessionSettings → List AdminUser → WebSession → ℕ → Result HttpError AdminUser × WebSession
require_admin settings users s now = elim (session_integer s.admin_user_id) [
  | none ↦ (raise unauthorized, cleared)
  | some user_id ↦ elim (get_user users user_id) [
    | none ↦ (raise unauthorized, cleared)
    | some user ↦ require_valid settings s user now
  ]
]

-- `DUMMY_PASSWORD_HASH`
abbrev pub dummy_password_hash : Text
dummy_password_hash = codes "$2b$12$0kBPCpi0b/V47sHVriEA7.Du9xSBpCUp8Dmb5xq.fDZVF3Fc0ZyKW"

-- what a login reads besides its arguments: four clock readings of the limiter's clock, the time
-- of the session and the new token
pub record LoginInputs : Type 0 where
  pub entered : ℕ
  pub admitted : ℕ
  pub failed : ℕ
  pub epoch : ℕ
  pub token : Text

pub record LoginState : Type 0 where
  pub limiter : Limiter
  pub session : WebSession

-- the password is wrong or the user is unknown
unfoldable pub login_failed : LoginState → LimiterKey → ℕ → Result HttpError (Unit {0}) × LoginState
login_failed st key now =
    let (wait, l) = record_failure st.limiter key now in
    (
      if not (wait == 0) then raise (login_limited wait) else raise bad_login,
      record st { limiter = l },
    )

-- the password is right
unfoldable pub login_succeeded :
    LoginState → LimiterKey → AdminUser → LoginInputs → Result HttpError (Unit {0}) × LoginState
login_succeeded st key user inputs =
    let l = clear st.limiter key in
    let (_, s) = rotate_csrf_token inputs.token cleared in
    elim (establish_admin_session s user inputs.epoch) [
      | none ↦ (raise server_error, record { limiter = l; session = s })
      | some s' ↦ (ok tt, record { limiter = l; session = s' })
    ]

unfoldable pub check_password :
    (Text → Text → Bool)
    → Option AdminUser
    → LoginState
    → LimiterKey
    → Text
    → LoginInputs
    → Result HttpError (Unit {0}) × LoginState
check_password verify none st key password inputs =
    let ignored = verify password dummy_password_hash in login_failed st key inputs.failed
check_password verify (some user) st key password inputs =
    if not (verify password user.password_hash)
    then login_failed st key inputs.failed
    else login_succeeded st key user inputs

-- the body of the `with` block of `login`
unfoldable pub login_inside :
    (Text → Text → Bool)
    → List AdminUser
    → LoginState
    → LimiterKey
    → Text
    → Text
    → LoginInputs
    → ℕ
    → Result HttpError (Unit {0}) × LoginState
login_inside verify users st key username password inputs wait =
    if not (wait == 0)
    then (raise (login_limited wait), st)
    else check_password verify (find_user users username) st key password inputs

-- `login`; the limiter is left on every way out
unfoldable pub login :
    Digester
    → (Text → Text → Bool)
    → List AdminUser
    → LoginState
    → Text
    → Text
    → Text
    → LoginInputs
    → Result HttpError (Unit {0}) × LoginState
login d verify users st client_id username password inputs =
    let key = limiter_key d client_id username in
    let (wait, held, l) = attempt_begin st.limiter key inputs.entered inputs.admitted in
    let (reply, st') =
      login_inside verify users (record st { limiter = l }) key username password inputs wait in
    (reply, record st' { limiter = attempt_end st'.limiter key held })

-- `logout`
unfoldable pub logout : WebSession → WebSession
logout s = cleared
