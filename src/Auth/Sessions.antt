-- ===== src/Auth/Sessions.antt =====
-- Admin sessions: when one is accepted, and what the answer leaves in it.
use early_warning_system.Prelude.{
  ℕ, ◌+◌, ◌≤◌, ◌<◌, ◌≡◌, ◌≢◌, ◌↔◌, refl, true, false, Option, none, some, List, arith, nat_eq,
  option_eq, if◌then◌else◌, Option-cases, Bool-cases, inl, inr, ok, raise,
}
use early_warning_system.Models.{AdminUser}
use early_warning_system.WebSecurity.Session.{SessionValue, int, WebSession, cleared}
use early_warning_system.Auth.{
  session_integer, establish_admin_session, is_acceptable, session_accepted, validate_admin_session,
  SessionSettings, get_user, require_valid, require_admin, unauthorized,
}

-- A session of this user, of his current version, neither too old nor idle for too long.
pub record IsLive (user : AdminUser) (max_age idle now : ℕ) (s : WebSession) : Type 0 where
  pub user_id : ℕ
  pub since : ℕ
  pub active : ℕ
  pub is_user : user.id ≡ some user_id
  pub has_user : s.admin_user_id ≡ some (int user_id)
  pub has_since : s.authenticated_at ≡ some (int since)
  pub has_active : s.last_activity_at ≡ some (int active)
  pub has_version : s.admin_session_version ≡ some (int user.session_version)
  pub ordered : since ≤ active
  pub past : active ≤ now
  pub young : now < since + max_age
  pub busy : now < active + idle

session_integer-int :
    (v : Option SessionValue) (n : ℕ) → session_integer v ≡ some n → v ≡ some (int n)
unfolding session_integer
session_integer-int none n h = cc
session_integer-int (some (int m)) n h = ground arith
session_integer-int (some (SessionValue.bool b)) n h = cc
session_integer-int (some (SessionValue.str t)) n h = cc
session_integer-int (some SessionValue.other) n h = cc

is_acceptable_iff :
    (user : AdminUser) (max_age idle now user_id since active version : ℕ)
    → (is_acceptable user max_age idle now user_id since active version ≡ true) ↔ (
        (user.id ≡ some user_id)
        × (version ≡ user.session_version)
        × (since ≤ active)
        × (active ≤ now)
        × (now < since + max_age)
        × (now < active + idle))
unfolding is_acceptable
is_acceptable_iff user max_age idle now user_id since active version = ground arith

module _ (s : WebSession) (user : AdminUser) (max_age idle now : ℕ) where
  accepted-IsLive : session_accepted user max_age idle now s ≡ true → IsLive user max_age idle now s
  unfolding session_accepted
  accepted-IsLive h = elim (Option-cases (session_integer s.admin_user_id)) [
    | inl e ↦ cc (rw (e, session_accepted) at h)
    | inr (a, ea) ↦ elim (Option-cases (session_integer s.authenticated_at)) [
      | inl e ↦ cc (rw (ea, e, session_accepted) at h)
      | inr (b, eb) ↦ elim (Option-cases (session_integer s.last_activity_at)) [
        | inl e ↦ cc (rw (ea, eb, e, session_accepted) at h)
        | inr (c, ec) ↦ elim (Option-cases (session_integer s.admin_session_version)) [
          | inl e ↦ cc (rw (ea, eb, ec, e, session_accepted) at h)
          | inr (d, ed) ↦
              let k =
                (is_acceptable_iff user max_age idle now a b c d).0
                  (rw (ea, eb, ec, ed, session_accepted) at h) in
              record {
                user_id = a;
                since = b;
                active = c;
                is_user = k.0;
                has_user = session_integer-int s.admin_user_id a ea;
                has_since = session_integer-int s.authenticated_at b eb;
                has_active = session_integer-int s.last_activity_at c ec;
                has_version = rw (← k.1) (session_integer-int s.admin_session_version d ed);
                ordered = k.2;
                past = k.3;
                young = k.4;
                busy = k.5;
              }
        ]
      ]
    ]
  ]

  IsLive-accepted : IsLive user max_age idle now s → session_accepted user max_age idle now s ≡ true
  unfolding session_accepted session_integer
  IsLive-accepted v =
      rw (v.has_user, v.has_since, v.has_active, v.has_version, session_accepted, session_integer)
        ((is_acceptable_iff user max_age idle now v.user_id v.since v.active user.session_version).1
          (v.is_user, refl, v.ordered, v.past, v.young, v.busy))

  -- A session is accepted exactly when it is a live session of the user: his id and his current
  -- session version, begun less than the maximal age ago and last used less than the idle timeout
  -- ago, with times in order and not in the future.
  pub validate_admin_session_iff :
      ((validate_admin_session s user max_age idle now).0 ≡ true) ↔ IsLive user max_age idle now s
  unfolding validate_admin_session
  validate_admin_session_iff =
      ((λ h. accepted-IsLive (ground arith)), λ v. rw (IsLive-accepted v, validate_admin_session))

  -- A refused session is cleared; an accepted one changes in its last activity alone, to now.
  pub validate_admin_session_after : (validate_admin_session s user max_age idle now).1 ≡ (
      if (validate_admin_session s user max_age idle now).0
      then record s { last_activity_at = some (int now) }
      else cleared)
  unfolding validate_admin_session
  validate_admin_session_after = ground arith

-- A new session is live for its user, from the moment on that it begins, while neither limit is 0.
pub establish-IsLive :
    (s : WebSession) (user : AdminUser) (now max_age idle : ℕ) {s' : WebSession}
    → establish_admin_session s user now ≡ some s'
    → 0 < max_age
    → 0 < idle
    → IsLive user max_age idle now s'
unfolding establish_admin_session
establish-IsLive s user now max_age idle {s'} h a b = elim (Option-cases user.id) [
  | inl e ↦ cc (rw (e, establish_admin_session) at h)
  | inr (i, e) ↦
      let k = rw (e, establish_admin_session) at h in
      record {
        user_id = i;
        since = now;
        active = now;
        is_user = e;
        has_user = ground (arith, k);
        has_since = ground (arith, k);
        has_active = ground (arith, k);
        has_version = ground (arith, k);
        ordered = omega arith;
        past = omega arith;
        young = omega arith;
        busy = omega arith;
      }
]

-- A session that carries another version than the user's current one is refused and cleared,
-- whatever its times.
pub validate-old_version :
    (s : WebSession) (user : AdminUser) (max_age idle now version : ℕ)
    → s.admin_session_version ≡ some (int version)
    → version ≢ user.session_version
    → validate_admin_session s user max_age idle now ≡ (false, cleared)
unfolding validate_admin_session
validate-old_version s user max_age idle now version e ne =
    elim (Bool-cases (session_accepted user max_age idle now s)) [
      | inl accepted ↦
          let v = accepted-IsLive s user max_age idle now accepted in
          absurd (ne (ground (arith, v.has_version)))
      | inr refused ↦ rw (refused, validate_admin_session)
    ]

module _ (settings : SessionSettings) (users : List AdminUser) (s : WebSession) (now : ℕ) where
  -- What `require_admin` asks of a session, for one user.
  abbrev pub IsAdmin : AdminUser → Type 0
  IsAdmin user =
      (id : ℕ) × (s.admin_user_id ≡ some (int id))
      × (get_user users id ≡ some user)
      × IsLive user settings.session_max_age_seconds settings.session_idle_timeout_seconds now s

  require_valid-IsLive :
      (u user : AdminUser)
      → (require_valid settings s u now).0 ≡ ok user
      → (u ≡ user)
        × IsLive u settings.session_max_age_seconds settings.session_idle_timeout_seconds now s
  unfolding require_valid
  require_valid-IsLive u user h =
      let max_age = settings.session_max_age_seconds in
      let idle = settings.session_idle_timeout_seconds in
      elim (Bool-cases (validate_admin_session s u max_age idle now).0) [
        | inl yes_ ↦ (ground arith, (validate_admin_session_iff s u max_age idle now).0 yes_)
        | inr no_ ↦ absurd (ground arith)
      ]

  require_admin_sound :
      (user : AdminUser) → (require_admin settings users s now).0 ≡ ok user → IsAdmin user
  unfolding require_admin
  require_admin_sound user h = elim (Option-cases (session_integer s.admin_user_id)) [
    | inl e ↦ cc (rw (e, require_admin) at h)
    | inr (id, e) ↦ elim (Option-cases (get_user users id)) [
      | inl missing ↦ cc (rw (e, missing, require_admin) at h)
      | inr (u, found) ↦
          let (same, live) = require_valid-IsLive u user (rw (e, found, require_admin) at h) in
          (id, session_integer-int s.admin_user_id id e, rw (← same) found, rw (← same) live)
    ]
  ]

  require_admin_complete :
      (user : AdminUser) → IsAdmin user → (require_admin settings users s now).0 ≡ ok user
  unfolding require_admin require_valid session_integer
  require_admin_complete user (id, e, found, live) = rw (
    e,
    found,
    require_admin,
    (validate_admin_session_iff s user settings.session_max_age_seconds
          settings.session_idle_timeout_seconds now).1
        live,
  )

  -- `require_admin` lets a request on as an admin exactly when its session names that admin's stored
  -- account and is live for it.
  pub require_admin_iff :
      (user : AdminUser) → ((require_admin settings users s now).0 ≡ ok user) ↔ IsAdmin user
  require_admin_iff user = (require_admin_sound user, require_admin_complete user)

  -- A request that is not let on has its session cleared.
  pub require_admin-refused :
      (require_admin settings users s now).0 ≡ raise unauthorized
      → (require_admin settings users s now).1 ≡ cleared
  unfolding require_admin require_valid validate_admin_session
  require_admin-refused h = ground arith
