-- ===== src/Rules.antt =====
-- app/routes.py: the rules, from the form of an admin or from an imported file. `RuleTools` is what
-- the pages call: the cron parser and Python's conversions.
pub mod Values
pub mod Validation
pub mod Pages
pub mod Import
pub mod Transfer
pub mod Sound
pub mod Versions
pub mod Exportable
pub mod RoundTrip
pub mod Addressed
pub mod Editing
pub mod Queries
use early_warning_system.Prelude.{
  ℕ, Bool, true, false, not, ◌&&◌, ◌||◌, Option, none, some, List, [], ◌∷◌, ◌++◌, Text, codes, any,
  map, is_empty, strip, split, replace, find, update_where, decimal, is_some, ◌==◌, nat_eq, text_eq,
  option_eq, ltb, max, suc, if◌then◌else◌, Result, ok, raise, ◌>>=◌, ◌>>◌,
}
use early_warning_system.Models.{
  DateTime, SendMode, send_mode_eq, AdminUser, AlertRule, AlertRuleVersion,
}
use early_warning_system.Errors.{Error, text_of}
use early_warning_system.Database.{Db, get_rule, get_data_source, above}
use early_warning_system.Outside.{Outside}
use early_warning_system.ExecutionLock.{database_error}
use early_warning_system.SqlValidator.{SqlGlot, validate_select_sql}
use early_warning_system.Settings.{
  Integer, negative, natural, is_checked, ParsedPair, both, neither, parse_rule_limits,
}
use early_warning_system.Rules.Values.{
  Python, Json, JsonDict, end, field, null, boolean, integer, text,
}

pub record RuleTools : Type 0 where
  pub python : Python
  -- whether `CronTrigger.from_crontab` takes the text
  pub is_cron : Text → Bool
  -- the text of the `ValueError` that `SendMode` raises
  pub invalid_send_mode : Text → Text

-- the parameters of `create_rule` and `update_rule`
pub record RuleForm : Type 0 where
  pub name : Text
  pub data_source_id : Text
  pub sql_text : Text
  pub cron_expression : Text
  pub recipients : Text
  pub cc_recipients : Text
  pub subject_template : Text
  pub body_template : Text
  pub send_mode : Text
  pub query_timeout_seconds : Text
  pub max_rows : Text
  pub enabled : Option Text
  pub dynamic_recipient_field : Text
  pub dynamic_cc_field : Text
  pub suppress_duplicates : Option Text
  pub suppression_key_field : Text
  pub suppression_window_hours : Integer

-- the columns of a rule that a form or an imported file gives
pub record RuleValues : Type 0 where
  pub name : Text
  pub data_source_id : ℕ
  pub sql_text : Text
  pub cron_expression : Text
  pub recipients : Text
  pub cc_recipients : Text
  pub subject_template : Text
  pub body_template : Text
  pub send_mode : SendMode
  pub query_timeout_seconds : ℕ
  pub max_rows : ℕ
  pub enabled : Bool
  pub notes : Text
  pub dynamic_recipient_field : Text
  pub dynamic_cc_field : Text
  pub suppress_duplicates : Bool
  pub suppression_key_field : Text
  pub suppression_window_hours : ℕ

-- `SendMode(value)`
unfoldable pub send_mode_of_text : Text → Option SendMode
send_mode_of_text t =
    if t == codes "summary"
    then some SendMode.summary
    else if t == codes "per_row"
    then some SendMode.per_row
    else none

-- `send_mode.value`
unfoldable pub send_mode_text : SendMode → Text
send_mode_text SendMode.summary = codes "summary"
send_mode_text SendMode.per_row = codes "per_row"

-- `_has_recipient_text`
unfoldable pub has_recipient_text : Text → Bool
has_recipient_text value =
    any (λ r. not (is_empty (strip r))) (split (λ c. c == b',') (replace b';' b',' value))

-- a new row
unfoldable pub new_rule : ℕ → RuleValues → DateTime → DateTime → AlertRule
new_rule id v created_at updated_at = record {
  id = some id;
  name = v.name;
  data_source_id = v.data_source_id;
  sql_text = v.sql_text;
  cron_expression = v.cron_expression;
  recipients = v.recipients;
  cc_recipients = v.cc_recipients;
  subject_template = v.subject_template;
  body_template = v.body_template;
  send_mode = v.send_mode;
  query_timeout_seconds = v.query_timeout_seconds;
  max_rows = v.max_rows;
  enabled = v.enabled;
  notes = v.notes;
  dynamic_recipient_field = v.dynamic_recipient_field;
  dynamic_cc_field = v.dynamic_cc_field;
  suppress_duplicates = v.suppress_duplicates;
  suppression_key_field = v.suppression_key_field;
  suppression_window_hours = v.suppression_window_hours;
  created_at = created_at;
  archived_at = none;
  updated_at = updated_at;
}

-- the columns of a row
unfoldable pub values_of : AlertRule → RuleValues
values_of r = record {
  name = r.name;
  data_source_id = r.data_source_id;
  sql_text = r.sql_text;
  cron_expression = r.cron_expression;
  recipients = r.recipients;
  cc_recipients = r.cc_recipients;
  subject_template = r.subject_template;
  body_template = r.body_template;
  send_mode = r.send_mode;
  query_timeout_seconds = r.query_timeout_seconds;
  max_rows = r.max_rows;
  enabled = r.enabled;
  notes = r.notes;
  dynamic_recipient_field = r.dynamic_recipient_field;
  dynamic_cc_field = r.dynamic_cc_field;
  suppress_duplicates = r.suppress_duplicates;
  suppression_key_field = r.suppression_key_field;
  suppression_window_hours = r.suppression_window_hours;
}

-- the assignments of `update_rule`
unfoldable pub updated_rule : RuleValues → DateTime → AlertRule → AlertRule
updated_rule v now r = record r {
  name = v.name;
  data_source_id = v.data_source_id;
  sql_text = v.sql_text;
  cron_expression = v.cron_expression;
  recipients = v.recipients;
  cc_recipients = v.cc_recipients;
  subject_template = v.subject_template;
  body_template = v.body_template;
  send_mode = v.send_mode;
  query_timeout_seconds = v.query_timeout_seconds;
  max_rows = v.max_rows;
  enabled = v.enabled;
  dynamic_recipient_field = v.dynamic_recipient_field;
  dynamic_cc_field = v.dynamic_cc_field;
  suppress_duplicates = v.suppress_duplicates;
  suppression_key_field = v.suppression_key_field;
  suppression_window_hours = v.suppression_window_hours;
  updated_at = now;
}

-- the assignments of `archive_rule`
unfoldable pub archived_rule : DateTime → AlertRule → AlertRule
archived_rule now r = record r { enabled = false; archived_at = some now; updated_at = now }

-- `_get_active_rule_or_404`
unfoldable pub get_active_rule : Db → ℕ → Option AlertRule
get_active_rule db rule_id = elim (get_rule db rule_id) [
  | none ↦ none
  | some rule ↦ if is_some rule.archived_at then none else some rule
]
