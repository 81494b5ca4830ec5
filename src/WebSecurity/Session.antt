-- ===== src/WebSecurity/Session.antt =====
-- The signed session cookie as the program sees it: `request.session`, a dictionary of which
-- app/auth.py and app/web_security.py use five keys. A missing key is `none`.
use early_warning_system.Prelude.{ℕ, Bool, Option, none, Text}

-- a JSON value of the cookie; the integers that the program stores are not negative
pub data SessionValue : Type 0 where
  int : ℕ → SessionValue
  bool : Bool → SessionValue
  str : Text → SessionValue
  other : SessionValue

pub record WebSession : Type 0 where
  pub csrf_token : Option SessionValue
  pub admin_user_id : Option SessionValue
  pub authenticated_at : Option SessionValue
  pub last_activity_at : Option SessionValue
  pub admin_session_version : Option SessionValue

-- after `request.session.clear()`
abbrev pub cleared : WebSession
cleared = record {
  csrf_token = none;
  admin_user_id = none;
  authenticated_at = none;
  last_activity_at = none;
  admin_session_version = none;
}
