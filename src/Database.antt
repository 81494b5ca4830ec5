-- ===== src/Database.antt =====
-- The tables of app/models.py as lists of rows, in the order in which they were stored, with the
-- queries that the program makes of them. A statement of SQLAlchemy is read as its SQL.
use early_warning_system.Prelude.{
  ℕ, suc, Option, none, some, List, [], ◌∷◌, find, max, ◌==◌, nat_eq, option_eq, text_eq,
}
use early_warning_system.Models.{
  AdminUser, SqlDataSource, SmtpConfig, AlertRule, RuleExecutionLease, WorkerHeartbeat,
  AlertSuppression, AlertRuleVersion, ExecutionLog, MailLog,
}

pub record Db : Type 0 where
  pub admin_users : List AdminUser
  pub data_sources : List SqlDataSource
  pub smtp_configs : List SmtpConfig
  pub rules : List AlertRule
  pub leases : List RuleExecutionLease
  pub heartbeats : List WorkerHeartbeat
  pub suppressions : List AlertSuppression
  pub versions : List AlertRuleVersion
  pub execution_logs : List ExecutionLog
  pub mail_logs : List MailLog

-- `session.get(AlertRule, id)`
abbrev pub get_rule : Db → ℕ → Option AlertRule
get_rule db id = find (λ r. r.id == some id) db.rules

-- `session.get(SqlDataSource, id)`
abbrev pub get_data_source : Db → ℕ → Option SqlDataSource
get_data_source db id = find (λ s. s.id == some id) db.data_sources

-- `session.get(SmtpConfig, id)`
abbrev pub get_smtp_config : Db → ℕ → Option SmtpConfig
get_smtp_config db id = find (λ c. c.id == some id) db.smtp_configs

-- above every key given out so far
unfoldable pub above : List (Option ℕ) → ℕ
above [] = 1
above (none ∷ rest) = above rest
above (some n ∷ rest) = max (suc n) (above rest)

abbrev pub empty_db : Db
empty_db = record {
  admin_users = [];
  data_sources = [];
  smtp_configs = [];
  rules = [];
  leases = [];
  heartbeats = [];
  suppressions = [];
  versions = [];
  execution_logs = [];
  mail_logs = [];
}
