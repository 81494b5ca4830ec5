-- ===== src/Settings/Smtp.antt =====
-- app/routes.py: creating, updating and deleting an SMTP configuration.
pub mod Rows
pub mod Single
use early_warning_system.Prelude.{
  ℕ, Bool, true, false, not, ◌&&◌, ◌||◌, Option, none, some, List, [], ◌∷◌, ◌++◌, Text, codes, map,
  filter, update_where, is_empty, ◌==◌, nat_eq, option_eq, if◌then◌else◌, Result, ok, raise,
}
use early_warning_system.Models.{DateTime, SmtpConfig}
use early_warning_system.Errors.{Error}
use early_warning_system.Database.{Db, get_smtp_config, above}
use early_warning_system.Outside.{Outside}
use early_warning_system.ExecutionLock.{database_error}
use early_warning_system.Settings.{
  Integer, is_checked, ParsedPair, both, neither, parse_smtp_values,
}

pub record SmtpForm : Type 0 where
  pub host : Text
  pub port : Text
  pub username : Text
  pub password : Text
  pub sender : Text
  pub use_tls : Option Text
  pub use_ssl : Option Text
  pub enabled : Option Text
  pub timeout_seconds : Text

-- the answers of the pages
pub data SmtpReply : Type 0 where
  not_found : SmtpReply
  refused : Text → SmtpReply
  saved : SmtpReply

-- `id != keep_id`, where there is a `keep_id`
abbrev pub is_kept : Option ℕ → SmtpConfig → Bool
is_kept none c = false
is_kept (some id) c = c.id == some id

-- `_disable_other_smtp_configs`
unfoldable pub disable_other_smtp_configs : Option ℕ → List SmtpConfig → List SmtpConfig
disable_other_smtp_configs keep_id =
    update_where (λ c. c.enabled && not (is_kept keep_id c)) (λ c. record c { enabled = false })

-- the values of a form that are stored, or its error
unfoldable pub checked_form : (Text → Option Integer) → SmtpForm → ParsedPair
checked_form parse_int form = elim (parse_smtp_values parse_int form.port form.timeout_seconds) [
  | neither error ↦ neither error
  | both port timeout ↦
      if is_checked form.use_tls && is_checked form.use_ssl
      then neither (codes "TLS 和 SSL 不能同时启用")
      else both port timeout
]

-- the disabling of the others, where the form enables this one
unfoldable pub make_room : SmtpForm → Option ℕ → List SmtpConfig → List SmtpConfig
make_room form keep_id configs =
    if is_checked form.enabled then disable_other_smtp_configs keep_id configs else configs

module _ {W : Type 0} (out : Outside W) (parse_int : Text → Option Integer)
    (encrypt : Text → Text) where
  -- the new row of `create_smtp_settings`
  unfoldable pub new_config : ℕ → SmtpForm → ℕ → ℕ → DateTime → SmtpConfig
  new_config id form port timeout now = record {
    id = some id;
    host = form.host;
    port = port;
    username = form.username;
    encrypted_password = encrypt form.password;
    sender = form.sender;
    use_tls = is_checked form.use_tls;
    use_ssl = is_checked form.use_ssl;
    timeout_seconds = timeout;
    enabled = is_checked form.enabled;
    updated_at = now;
  }

  -- a commit of the changed rows
  unfoldable pub save : List SmtpConfig → Db → W → Result Error SmtpReply × Db × W
  save configs db w =
      let (committed, w') = out.commit w in
      if committed
      then (ok saved, record db { smtp_configs = configs }, w')
      else (raise database_error, db, w')

  -- `create_smtp_settings`
  unfoldable pub create_smtp_settings : SmtpForm → Db → W → Result Error SmtpReply × Db × W
  create_smtp_settings form db w = elim (checked_form parse_int form) [
    | neither error ↦ (ok (refused error), db, w)
    | both port timeout ↦
        let (now, w') = out.now w in
        let config = new_config (above (map (λ c. c.id) db.smtp_configs)) form port timeout now in
        save (make_room form none db.smtp_configs ++ config ∷ []) db w'
  ]

  -- the row of `update_smtp_settings`; an empty password keeps the old one
  unfoldable pub updated_config : SmtpForm → ℕ → ℕ → DateTime → SmtpConfig → SmtpConfig
  updated_config form port timeout now config = record config {
    host = form.host;
    port = port;
    username = form.username;
    encrypted_password =
        if not (is_empty form.password) then encrypt form.password else config.encrypted_password;
    sender = form.sender;
    use_tls = is_checked form.use_tls;
    use_ssl = is_checked form.use_ssl;
    enabled = is_checked form.enabled;
    timeout_seconds = timeout;
    updated_at = now;
  }

  -- `update_smtp_settings`
  unfoldable pub update_smtp_settings : ℕ → SmtpForm → Db → W → Result Error SmtpReply × Db × W
  update_smtp_settings config_id form db w = elim (get_smtp_config db config_id) [
    | none ↦ (ok not_found, db, w)
    | some config ↦ elim (checked_form parse_int form) [
      | neither error ↦ (ok (refused error), db, w)
      | both port timeout ↦
          let (now, w') = out.now w in
          save
            (update_where (λ c. c.id == some config_id) (updated_config form port timeout now)
              (make_room form (some config_id) db.smtp_configs))
            db w'
    ]
  ]

  -- `delete_smtp_settings`
  unfoldable pub delete_smtp_settings : ℕ → Db → W → Result Error SmtpReply × Db × W
  delete_smtp_settings config_id db w = elim (get_smtp_config db config_id) [
    | none ↦ (ok not_found, db, w)
    | some config ↦ save (filter (λ c. not (c.id == some config_id)) db.smtp_configs) db w
  ]
