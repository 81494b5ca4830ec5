-- ===== src/Tests/Sessions.antt =====
-- Runs of app/auth.py.
use early_warning_system.Prelude.{
  ◌-◌, ◌≡◌, ◌↔◌, refl, Bool, true, none, some, [], ◌∷◌, Text, codes, arith, ok, raise, ◌==◌,
  text_eq, strip,
}
use early_warning_system.WebSecurity.Session.{int, WebSession}
use early_warning_system.WebSecurity.Limiter.{
  Digester, Limiter, fresh, limiter_key, ceil_seconds, attempt_begin, attempt_enter, attempt_check,
  attempt_acquire, lookup, write, expire_state, pop_old, unlock_expired, expire_in_place,
  reserve_state, current_state, run_scheduled_cleanup, find_or_reserve, add_reference,
  state_retry_after,
}
use early_warning_system.WebSecurity.Limiter.Lockout.{Locked}
use early_warning_system.Auth.{
  SessionSettings, establish_admin_session, validate_admin_session, require_admin, login_limited,
  LoginInputs, LoginState, login, login_inside, check_password, login_succeeded,
}
use early_warning_system.Auth.Sessions.{
  IsLive, validate_admin_session_iff, IsAdmin, require_admin_iff,
}
use early_warning_system.Auth.Logins.{Verified, login-Verified, login-Locked}
use early_warning_system.Tests.World.{admin}

abbrev session : WebSession
session = record {
  csrf_token = none;
  admin_user_id = some (int 3);
  authenticated_at = some (int 100);
  last_activity_at = some (int 150);
  admin_session_version = some (int 2);
}

validate_admin_session_iff_example :
    ((validate_admin_session session admin 1000 100 200).0 ≡ true)
    ↔ IsLive admin 1000 100 200 session
validate_admin_session_iff_example = validate_admin_session_iff session admin 1000 100 200

abbrev settings : SessionSettings
settings = record { session_max_age_seconds = 1000; session_idle_timeout_seconds = 100 }

require_admin_iff_example :
    ((require_admin settings (admin ∷ []) session 200).0 ≡ ok admin)
    ↔ IsAdmin settings (admin ∷ []) session 200 admin
require_admin_iff_example = require_admin_iff settings (admin ∷ []) session 200 admin

abbrev digester : Digester
digester = record { casefold = λ t. t; sha256 = λ t. t }

abbrev verify : Text → Text → Bool
verify password password_hash = password == password_hash

abbrev limiter : Limiter
limiter = record {
  max_failures = 2;
  failure_window_seconds = 300;
  lockout_seconds = 900;
  max_states = 4;
  cleanup_interval = 60;
  cleanup_batch_size = 2;
  states = [];
  next_cleanup_at = 60;
  heap = λ i. fresh;
  next_id = 0;
}

abbrev login_state : LoginState
login_state = record { limiter = limiter; session = session }

abbrev inputs : LoginInputs
inputs = record { entered = 1; admitted = 2; failed = 3; epoch = 90; token = codes "fresh" }

right_password :
    (login digester verify
      (admin ∷ [])
      login_state
      (codes "ip")
      (codes "root")
      (codes "hash")
      inputs).0
    ≡ ok tt
unfolding login attempt_begin attempt_enter find_or_reserve run_scheduled_cleanup current_state
    lookup reserve_state add_reference write attempt_check attempt_acquire expire_in_place
    expire_state unlock_expired pop_old state_retry_after limiter_key login_inside check_password
    login_succeeded establish_admin_session
right_password = refl

login-Verified_example :
    Verified verify
      (admin ∷ [])
      (codes "root")
      (codes "hash")
      inputs
      (login digester verify
        (admin ∷ [])
        login_state
        (codes "ip")
        (codes "root")
        (codes "hash")
        inputs).1.session
login-Verified_example =
    login-Verified digester verify (admin ∷ []) login_state (codes "ip") (codes "root")
      (codes "hash") inputs right_password

-- the key of the client is locked for a minute
abbrev closed_state : LoginState
closed_state = record {
  limiter = record limiter {
    states = (limiter_key digester (codes "ip") (codes "root"), 0) ∷ [];
    heap = λ i. record fresh { locked_until = 60000000 };
    next_id = 1;
  };
  session = session;
}

closed_state-Locked :
    Locked closed_state.limiter (limiter_key digester (codes "ip") (codes "root")) 0 60000000
unfolding lookup limiter_key strip
closed_state-Locked = record { entry = refl; locked = refl }

login-Locked_example :
    ((login digester verify
        (admin ∷ [])
        closed_state
        (codes "ip")
        (codes "root")
        (codes "hash")
        inputs).0
      ≡ raise (login_limited (ceil_seconds (60000000 - 2))))
    × ((login digester verify
          (admin ∷ [])
          closed_state
          (codes "ip")
          (codes "root")
          (codes "hash")
          inputs).1.session
        ≡ session)
login-Locked_example =
    login-Locked digester verify (admin ∷ []) closed_state (codes "ip") (codes "root")
      (codes "hash") inputs 0 60000000 closed_state-Locked (omega arith) (omega arith)
