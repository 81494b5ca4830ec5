-- ===== src/Tests/Administering.antt =====
-- Runs of app/routes.py: a change of the password and of the SMTP configuration.
use early_warning_system.Prelude.{
  ℕ, ◌≡◌, ◌≤◌, refl, Bool, true, Option, none, some, [], ◌∷◌, Text, codes, arith, count, ◌==◌,
  option_eq, text_eq, ok,
}
use early_warning_system.Models.{SmtpConfig}
use early_warning_system.Database.{Db, empty_db}
use early_warning_system.WebSecurity.Session.{WebSession, int}
use early_warning_system.Auth.Sessions.{IsLive}
use early_warning_system.ExecutionService.Attempt.{get_enabled_smtp_config}
use early_warning_system.Settings.{
  Integer, natural, is_checked, parse_smtp_values, parse_both, parse_bounded_int, bounded,
  validate_bounded_int,
}
use early_warning_system.Settings.Password.{
  PasswordForm, password_error, changed, set_password, change_admin_password,
}
use early_warning_system.Settings.Password.Revocation.{IsRevoked, change_admin_password-IsRevoked}
use early_warning_system.Settings.Smtp.{SmtpForm, saved, checked_form, save, create_smtp_settings}
use early_warning_system.Settings.Smtp.Rows.{is_on}
use early_warning_system.Settings.Smtp.Single.{
  update, perform, perform-single, get_enabled_smtp_config-create_smtp_settings,
}
use early_warning_system.Tests.World.{admin, smtp_config, out}

abbrev verify : Text → Text → Bool
verify password password_hash = password == password_hash

abbrev hash : Text → Text
hash t = t

abbrev db : Db
db = record empty_db { admin_users = admin ∷ []; smtp_configs = smtp_config ∷ [] }

abbrev form : PasswordForm
form = record {
  current_password = codes "hash";
  new_password = codes "long enough now";
  confirm_password = codes "long enough now";
}

-- the session of the request, and another one
abbrev mine : WebSession
mine = record {
  csrf_token = none;
  admin_user_id = some (int 3);
  authenticated_at = some (int 100);
  last_activity_at = some (int 150);
  admin_session_version = some (int 2);
}

abbrev other : WebSession
other = record mine { last_activity_at = some (int 160) }

mine-IsLive : IsLive admin 1000 100 200 mine
mine-IsLive = record {
  user_id = 3;
  since = 100;
  active = 150;
  is_user = refl;
  has_user = refl;
  has_since = refl;
  has_active = refl;
  has_version = refl;
  ordered = omega arith;
  past = omega arith;
  young = omega arith;
  busy = omega arith;
}

form-accepted : (change_admin_password out verify hash 3 form db mine 0).0 ≡ ok changed
unfolding change_admin_password password_error set_password
form-accepted = refl

change_admin_password-IsRevoked_example :
    IsRevoked admin 3
      (codes "long enough now")
      1000
      100
      200
      other
      (change_admin_password out verify hash 3 form db mine 0).2
      (change_admin_password out verify hash 3 form db mine 0).1.admin_users
change_admin_password-IsRevoked_example =
    change_admin_password-IsRevoked out verify hash 3 form db mine 0 admin other 1000 100 200 refl
      mine-IsLive refl form-accepted

abbrev parse_int : Text → Option Integer
parse_int t = some (natural 25)

abbrev encrypt : Text → Text
encrypt t = t

abbrev smtp_form : SmtpForm
smtp_form = record {
  host = codes "relay";
  port = codes "25";
  username = [];
  password = codes "secret";
  sender = codes "robot@b.c";
  use_tls = some (codes "on");
  use_ssl = none;
  enabled = some (codes "on");
  timeout_seconds = codes "25";
}

smtp_form-enabled : is_checked smtp_form.enabled ≡ true
unfolding is_checked
smtp_form-enabled = refl

smtp_form-saved : (create_smtp_settings out parse_int encrypt smtp_form db 0).0 ≡ ok saved
unfolding create_smtp_settings checked_form parse_smtp_values parse_both parse_bounded_int bounded
    validate_bounded_int is_checked save
smtp_form-saved = refl

get_enabled_smtp_config-create_smtp_settings_example :
    (c : SmtpConfig) × (get_enabled_smtp_config
        (create_smtp_settings out parse_int encrypt smtp_form db 0).1
      ≡ ok c)
    × (c.host ≡ codes "relay")
    × (c.encrypted_password ≡ codes "secret")
get_enabled_smtp_config-create_smtp_settings_example =
    get_enabled_smtp_config-create_smtp_settings out parse_int encrypt smtp_form db 0
      smtp_form-enabled smtp_form-saved

db-keyed : (id : ℕ) → count (λ c. c.id == some id) db.smtp_configs ≤ 1
db-keyed id = ground arith

perform-single_example :
    count is_on (perform out parse_int encrypt (update 1 smtp_form) db 0).1.smtp_configs ≤ 1
perform-single_example =
    perform-single out parse_int encrypt (update 1 smtp_form) db 0 (omega arith) db-keyed
