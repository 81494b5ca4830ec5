-- ===== src/Rules/Validation.antt =====
-- app/routes.py: `_validate_rule_form`, and the values of a form that passes.
use early_warning_system.Prelude.{
  ℕ, Bool, true, false, not, ◌&&◌, Option, none, some, [], ◌∷◌, Text, codes, is_empty, strip,
  is_some, ◌==◌, nat_eq, text_eq, option_eq, if◌then◌else◌, Result, ok, raise, ◌>>=◌, ◌>>◌,
}
use early_warning_system.Models.{SendMode, send_mode_eq}
use early_warning_system.Errors.{Error, text_of}
use early_warning_system.Database.{Db, get_data_source}
use early_warning_system.SqlValidator.{SqlGlot, validate_select_sql}
use early_warning_system.Settings.{
  Integer, negative, natural, is_checked, ParsedPair, both, neither, parse_rule_limits,
}
use early_warning_system.Rules.{
  RuleTools, RuleForm, RuleValues, send_mode_of_text, has_recipient_text,
}

-- A test that refuses with an error.
abbrev pub refuse_if : Bool → Text → Result Text (Unit {0})
refuse_if true error = raise error
refuse_if false error = ok tt

abbrev pub or_refuse : {A : Type 0} → Option A → Text → Result Text A
or_refuse none error = raise error
or_refuse (some a) error = ok a

abbrev pub limits_or_error : ParsedPair → Result Text (ℕ × ℕ)
limits_or_error (neither error) = raise error
limits_or_error (both timeout rows) = ok (timeout, rows)

-- `str(exc) or "表单数据无效"`
unfoldable pub message_or_default : Text → Text
message_or_default [] = codes "表单数据无效"
message_or_default (c ∷ s) = c ∷ s

abbrev pub sql_or_error : Result Error (Unit {0}) → Result Text (Unit {0})
sql_or_error (ok _) = ok tt
sql_or_error (raise e) = raise (message_or_default (text_of e))

-- the source of a natural number; the keys of sources are not negative
unfoldable pub existing_source : Db → Integer → Option ℕ
existing_source db negative = none
existing_source db (natural id) = if is_some (get_data_source db id) then some id else none

-- a number that is not positive is read as 0; the code refuses it with suppression on, and stores it
-- as it is with suppression off
unfoldable pub hours : Integer → ℕ
hours negative = 0
hours (natural n) = n

-- what `_validate_rule_form` gives: the source, the mode, and the limits that it writes to the form
pub record CheckedForm : Type 0 where
  pub source_id : ℕ
  pub send_mode : SendMode
  pub query_timeout_seconds : ℕ
  pub max_rows : ℕ

module _ (glot : SqlGlot) (tools : RuleTools) where
  -- `_validate_rule_form` of a form that `_submitted_rule_form` stripped; `str` and `int` of the hours
  -- undo each other
  unfoldable pub validate_rule_form : Db → RuleForm → Result Text CheckedForm
  validate_rule_form db form = do
    limits ←
        limits_or_error
          (parse_rule_limits tools.python.parse_int form.query_timeout_seconds form.max_rows)
    sql_or_error (validate_select_sql glot form.sql_text)
    send_mode ←
        or_refuse (send_mode_of_text form.send_mode)
          (message_or_default (tools.invalid_send_mode form.send_mode))
    refuse_if
        (not (is_empty (strip form.dynamic_recipient_field)) && not (send_mode == SendMode.per_row))
        (codes "动态收件人字段仅支持每行一封模式")
    refuse_if
        (not (has_recipient_text form.recipients) && is_empty (strip form.dynamic_recipient_field))
        (codes "请填写收件人或动态收件人字段")
    refuse_if (not (tools.is_cron form.cron_expression)) (codes "Cron 表达式无效")
    id ← or_refuse (tools.python.parse_int form.data_source_id) (codes "请选择有效的数据源")
    source_id ← or_refuse (existing_source db id) (codes "请选择有效的数据源")
    refuse_if (is_checked form.suppress_duplicates && is_empty (strip form.suppression_key_field))
        (codes "启用重复抑制时必须填写去重字段")
    refuse_if (is_checked form.suppress_duplicates && (hours form.suppression_window_hours == 0))
        (codes "重复抑制窗口必须是正整数")
    ok (record {
      source_id = source_id;
      send_mode = send_mode;
      query_timeout_seconds = limits.0;
      max_rows = limits.1;
    })

-- `_submitted_rule_form`: three fields are stripped
unfoldable pub submitted_rule_form : RuleForm → RuleForm
submitted_rule_form form = record form {
  dynamic_recipient_field = strip form.dynamic_recipient_field;
  dynamic_cc_field = strip form.dynamic_cc_field;
  suppression_key_field = strip form.suppression_key_field;
}

-- the columns that a form sets; `notes` is not among them
unfoldable pub form_values : RuleForm → CheckedForm → Text → RuleValues
form_values form checked notes = record {
  name = form.name;
  data_source_id = checked.source_id;
  sql_text = form.sql_text;
  cron_expression = form.cron_expression;
  recipients = form.recipients;
  cc_recipients = form.cc_recipients;
  subject_template = form.subject_template;
  body_template = form.body_template;
  send_mode = checked.send_mode;
  query_timeout_seconds = checked.query_timeout_seconds;
  max_rows = checked.max_rows;
  enabled = is_checked form.enabled;
  notes = notes;
  dynamic_recipient_field = strip form.dynamic_recipient_field;
  dynamic_cc_field = strip form.dynamic_cc_field;
  suppress_duplicates = is_checked form.suppress_duplicates;
  suppression_key_field = strip form.suppression_key_field;
  suppression_window_hours = hours form.suppression_window_hours;
}
