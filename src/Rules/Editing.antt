-- ===== src/Rules/Editing.antt =====
-- app/routes.py: the forms that the pages for editing and copying a rule are filled with.
pub mod Unchanged
use early_warning_system.Prelude.{Bool, Option, some, [], Text, codes, ◌++◌, decimal, if◌then◌else◌}
use early_warning_system.Models.{AlertRule}
use early_warning_system.Settings.{natural}
use early_warning_system.Rules.{RuleForm, send_mode_text}

unfoldable pub on_or_empty : Bool → Option Text
on_or_empty b = some (if b then codes "on" else [])

-- `_rule_to_form`, as the form that is sent back; the hours are read as a number then
unfoldable pub rule_to_form : AlertRule → RuleForm
rule_to_form rule = record {
  name = rule.name;
  data_source_id = decimal rule.data_source_id;
  sql_text = rule.sql_text;
  cron_expression = rule.cron_expression;
  recipients = rule.recipients;
  cc_recipients = rule.cc_recipients;
  subject_template = rule.subject_template;
  body_template = rule.body_template;
  send_mode = send_mode_text rule.send_mode;
  query_timeout_seconds = decimal rule.query_timeout_seconds;
  max_rows = decimal rule.max_rows;
  enabled = on_or_empty rule.enabled;
  dynamic_recipient_field = rule.dynamic_recipient_field;
  dynamic_cc_field = rule.dynamic_cc_field;
  suppress_duplicates = on_or_empty rule.suppress_duplicates;
  suppression_key_field = rule.suppression_key_field;
  suppression_window_hours = natural rule.suppression_window_hours;
}

-- `_rule_to_copy_form`
unfoldable pub rule_to_copy_form : AlertRule → RuleForm
unfolding rule_to_form
rule_to_copy_form rule = record (rule_to_form rule) {
  name = rule.name ++ codes " 副本";
  enabled = some (codes "on");
}
