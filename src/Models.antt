-- ===== src/Models.antt =====
-- app/models.py: the tables. A `datetime` is naive UTC, in microseconds since `datetime.min`; an
-- `Optional[int]` primary key is `none` until the row is stored.
use early_warning_system.Prelude.{ℕ, Bool, true, false, Option, Text, Eq, ◌≡◌, ◌↔◌, arith}

abbrev pub DateTime : Type 0
DateTime = ℕ

pub data SendMode : Type 0 where
  summary per_row : SendMode

pub data ExecutionStatus : Type 0 where
  running success failed partial_failed : ExecutionStatus

pub data TriggerType : Type 0 where
  scheduled manual : TriggerType

pub data MailStatus : Type 0 where
  success failed partial_failed : MailStatus

pub record AdminUser : Type 0 where
  pub id : Option ℕ
  pub username : Text
  pub password_hash : Text
  pub session_version : ℕ
  pub created_at : DateTime

pub record SqlDataSource : Type 0 where
  pub id : Option ℕ
  pub name : Text
  pub host : Text
  pub port : ℕ
  pub database : Text
  pub username : Text
  pub encrypted_password : Text
  pub enabled : Bool
  pub connect_timeout_seconds : ℕ
  pub odbc_driver : Text
  pub server_override : Text
  pub encrypt : Text
  pub trust_server_certificate : Text
  pub extra_params : Text
  pub created_at : DateTime
  pub updated_at : DateTime

pub record SmtpConfig : Type 0 where
  pub id : Option ℕ
  pub host : Text
  pub port : ℕ
  pub username : Text
  pub encrypted_password : Text
  pub sender : Text
  pub use_tls : Bool
  pub use_ssl : Bool
  pub timeout_seconds : ℕ
  pub enabled : Bool
  pub updated_at : DateTime

pub record AlertRule : Type 0 where
  pub id : Option ℕ
  pub name : Text
  pub data_source_id : ℕ
  pub sql_text : Text
  pub cron_expression : Text
  pub recipients : Text
  pub cc_recipients : Text
  pub subject_template : Text
  pub body_template : Text
  pub send_mode : SendMode
  pub query_timeout_seconds : ℕ
  pub max_rows : ℕ
  pub enabled : Bool
  pub notes : Text
  pub dynamic_recipient_field : Text
  pub dynamic_cc_field : Text
  pub suppress_duplicates : Bool
  pub suppression_key_field : Text
  pub suppression_window_hours : ℕ
  pub created_at : DateTime
  pub archived_at : Option DateTime
  pub updated_at : DateTime

pub record RuleExecutionLease : Type 0 where
  pub rule_id : ℕ
  pub owner_token : Text
  pub acquired_at : DateTime
  pub expires_at : DateTime

pub record WorkerHeartbeat : Type 0 where
  pub id : ℕ
  pub worker_id : Text
  pub started_at : DateTime
  pub last_seen_at : DateTime
  pub last_sync_ok : Bool
  pub last_error : Text

pub record AlertSuppression : Type 0 where
  pub rule_id : Option ℕ
  pub suppression_key : Text
  pub first_seen_at : DateTime
  pub last_seen_at : DateTime
  pub hit_count : ℕ

pub record AlertRuleVersion : Type 0 where
  pub rule_id : Option ℕ
  pub version_number : ℕ
  pub changed_by : Text
  pub snapshot_json : Text
  pub changed_at : DateTime

pub record ExecutionLog : Type 0 where
  pub id : Option ℕ
  pub rule_id : Option ℕ
  pub trigger_type : TriggerType
  pub status : ExecutionStatus
  pub started_at : DateTime
  pub finished_at : Option DateTime
  pub row_count : ℕ
  pub email_count : ℕ
  pub duration_ms : ℕ
  pub error_type : Text
  pub error_message : Text

pub record MailLog : Type 0 where
  pub id : Option ℕ
  pub execution_log_id : Option ℕ
  pub recipients : Text
  pub cc_recipients : Text
  pub subject : Text
  pub status : MailStatus
  pub error_message : Text
  pub sent_at : DateTime

abbrev pub send_mode_beq : SendMode → SendMode → Bool
send_mode_beq SendMode.summary SendMode.summary = true
send_mode_beq SendMode.per_row SendMode.per_row = true
send_mode_beq _ _ = false

abbrev pub status_beq : ExecutionStatus → ExecutionStatus → Bool
status_beq ExecutionStatus.running ExecutionStatus.running = true
status_beq ExecutionStatus.success ExecutionStatus.success = true
status_beq ExecutionStatus.failed ExecutionStatus.failed = true
status_beq ExecutionStatus.partial_failed ExecutionStatus.partial_failed = true
status_beq _ _ = false

abbrev pub trigger_beq : TriggerType → TriggerType → Bool
trigger_beq TriggerType.scheduled TriggerType.scheduled = true
trigger_beq TriggerType.manual TriggerType.manual = true
trigger_beq _ _ = false

abbrev pub mail_status_beq : MailStatus → MailStatus → Bool
mail_status_beq MailStatus.success MailStatus.success = true
mail_status_beq MailStatus.failed MailStatus.failed = true
mail_status_beq MailStatus.partial_failed MailStatus.partial_failed = true
mail_status_beq _ _ = false

pub send_mode_beq_iff : (a b : SendMode) → (send_mode_beq a b ≡ true) ↔ (a ≡ b)
send_mode_beq_iff a b = ground arith

pub status_beq_iff : (a b : ExecutionStatus) → (status_beq a b ≡ true) ↔ (a ≡ b)
status_beq_iff a b = ground arith

pub trigger_beq_iff : (a b : TriggerType) → (trigger_beq a b ≡ true) ↔ (a ≡ b)
trigger_beq_iff a b = ground arith

pub mail_status_beq_iff : (a b : MailStatus) → (mail_status_beq a b ≡ true) ↔ (a ≡ b)
mail_status_beq_iff a b = ground arith

instance abbrev pub send_mode_eq : Eq SendMode
send_mode_eq = record { agrees = send_mode_beq; agrees_iff = send_mode_beq_iff }

instance abbrev pub status_eq : Eq ExecutionStatus
status_eq = record { agrees = status_beq; agrees_iff = status_beq_iff }

instance abbrev pub trigger_eq : Eq TriggerType
trigger_eq = record { agrees = trigger_beq; agrees_iff = trigger_beq_iff }

instance abbrev pub mail_status_eq : Eq MailStatus
mail_status_eq = record { agrees = mail_status_beq; agrees_iff = mail_status_beq_iff }
