-- ===== src/Auth/Logins.antt =====
-- Logins: who gets a session, and what a lockout does.
use early_warning_system.Prelude.{
  ℕ, ◌-◌, ◌<◌, ◌≡◌, ◌≢◌, refl, Bool, true, false, Option, none, some, List, Text, arith, ◌==◌,
  nat_eq, option_eq, Bool-cases, inl, inr, ok, raise,
}
use early_warning_system.Models.{AdminUser}
use early_warning_system.WebSecurity.Session.{WebSession, cleared}
use early_warning_system.WebSecurity.Csrf.{rotate_csrf_token}
use early_warning_system.WebSecurity.Limiter.{
  Digester, LimiterKey, limiter_key, attempt_begin, ceil_seconds,
}
use early_warning_system.WebSecurity.Limiter.Lockout.{
  Locked, attempt_begin-Locked, ceil_seconds-pos,
}
use early_warning_system.Auth.{
  HttpError, login_limited, server_error, find_user, LoginInputs, LoginState,
  establish_admin_session, login_failed, login_succeeded, check_password, login_inside, login,
}

-- What a successful login has checked, and the session that it leaves.
abbrev pub Verified :
    (Text → Text → Bool) → List AdminUser → Text → Text → LoginInputs → WebSession → Type 0
Verified verify users username password inputs s =
    (user : AdminUser) × (find_user users username ≡ some user)
    × (verify password user.password_hash ≡ true)
    × (establish_admin_session (rotate_csrf_token inputs.token cleared).1 user inputs.epoch
        ≡ some s)

login_failed-raises :
    (st : LoginState) (key : LimiterKey) (now : ℕ) → (login_failed st key now).0 ≢ ok tt
unfolding login_failed
login_failed-raises st key now h = ground arith

login_succeeded-session :
    (st : LoginState) (key : LimiterKey) (user : AdminUser) (inputs : LoginInputs)
    → (login_succeeded st key user inputs).0 ≡ ok tt
    → establish_admin_session (rotate_csrf_token inputs.token cleared).1 user inputs.epoch
      ≡ some (login_succeeded st key user inputs).1.session
unfolding login_succeeded
login_succeeded-session st key user inputs h = ground arith

module _ (verify : Text → Text → Bool) (key : LimiterKey) (password : Text)
    (inputs : LoginInputs) where
  check_password-Verified :
      (found : Option AdminUser) (st : LoginState)
      → (check_password verify found st key password inputs).0 ≡ ok tt
      → (user : AdminUser) × (found ≡ some user)
        × (verify password user.password_hash ≡ true)
        × (establish_admin_session (rotate_csrf_token inputs.token cleared).1 user inputs.epoch
            ≡ some (check_password verify found st key password inputs).1.session)
  unfolding check_password
  check_password-Verified none st h = absurd (login_failed-raises st key inputs.failed h)
  check_password-Verified (some user) st h =
      elim (Bool-cases (verify password user.password_hash)) [
        | inl right ↦ (
          user,
          refl,
          right,
          rw (right, check_password)
              (login_succeeded-session st key user inputs (rw (right, check_password) at h)),
        )
        | inr wrong ↦
            absurd (login_failed-raises st key inputs.failed (rw (wrong, check_password) at h))
      ]

  check_password-session :
      (found : Option AdminUser) (st : LoginState) (e : HttpError)
      → (check_password verify found st key password inputs).0 ≡ raise e
      → e ≢ server_error
      → (check_password verify found st key password inputs).1.session ≡ st.session
  unfolding check_password login_failed login_succeeded
  check_password-session none st e h ne = ground arith
  check_password-session (some user) st e h ne = ground arith

module _ (d : Digester) (verify : Text → Text → Bool) (users : List AdminUser) (st : LoginState)
    (client_id username password : Text) (inputs : LoginInputs) where
  -- A login succeeds only with a password that the stored account of that name verifies, and leaves
  -- the session that is established, with a new CSRF token, in a cleared one.
  pub login-Verified :
      (login d verify users st client_id username password inputs).0 ≡ ok tt
      → Verified verify users username password inputs
          (login d verify users st client_id username password inputs).1.session
  unfolding login login_inside
  login-Verified h =
      let key = limiter_key d client_id username in
      let r = attempt_begin st.limiter key inputs.entered inputs.admitted in
      let st' = record st { limiter = r.2 } in
      elim (Bool-cases (r.0 == 0)) [
        | inl free ↦
            rw (free, login, login_inside)
              (check_password-Verified verify key password inputs (find_user users username) st'
                (rw (free, login, login_inside) at h))
        | inr limited ↦ cc (rw (limited, login, login_inside) at h)
      ]

  -- A login that is refused, other than by a server error, leaves the session as it was.
  pub session-login_refused :
      (e : HttpError)
      → (login d verify users st client_id username password inputs).0 ≡ raise e
      → e ≢ server_error
      → (login d verify users st client_id username password inputs).1.session ≡ st.session
  unfolding login login_inside
  session-login_refused e h ne =
      let key = limiter_key d client_id username in
      let r = attempt_begin st.limiter key inputs.entered inputs.admitted in
      let st' = record st { limiter = r.2 } in
      elim (Bool-cases (r.0 == 0)) [
        | inl free ↦
            rw (free, login, login_inside)
              (check_password-session verify key password inputs (find_user users username) st' e
                (rw (free, login, login_inside) at h) ne)
        | inr limited ↦ rw (limited, login, login_inside)
      ]

  -- While the key of the client and the name is locked, every login is refused with the seconds that
  -- are left, the one with the right password too, and the session stays as it was.
  pub login-Locked :
      (i until : ℕ)
      → Locked st.limiter (limiter_key d client_id username) i until
      → inputs.entered < until
      → inputs.admitted < until
      → ((login d verify users st client_id username password inputs).0
          ≡ raise (login_limited (ceil_seconds (until - inputs.admitted))))
        × ((login d verify users st client_id username password inputs).1.session ≡ st.session)
  unfolding login login_inside
  login-Locked i until k a b =
      let key = limiter_key d client_id username in
      let w = attempt_begin-Locked key i until st.limiter inputs.entered inputs.admitted a b k in
      let pos = ceil_seconds-pos (until - inputs.admitted) (omega arith) in
      let busy : ((attempt_begin st.limiter key inputs.entered inputs.admitted).0 == 0) ≡ false =
        ground (arith, w.0, pos) in
      (rw (busy, login, login_inside) (rw (w.0) refl), rw (busy, login, login_inside) refl)
