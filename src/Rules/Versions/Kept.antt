-- ===== src/Rules/Versions/Kept.antt =====
-- app/routes.py: the versions that updates add, after any later actions of an admin.
use early_warning_system.Prelude.{◌≡◌, some, List, Text, codes, nat_eq, text_eq}
use early_warning_system.Models.{DateTime, AlertRule}
use early_warning_system.Outside.{Outside}
use early_warning_system.Settings.{natural}
use early_warning_system.Rules.Values.{JsonDict, text, integer, boolean, get_field}
use early_warning_system.Rules.{send_mode_text}

-- A dictionary in which every column of a rule is found under the column's own name.
pub record IsSnapshot (isoformat : DateTime → Text) (rule : AlertRule) (d : JsonDict) : Type 0 where
  pub name : get_field (codes "name") d ≡ some (text rule.name)
  pub data_source_id :
      get_field (codes "data_source_id") d ≡ some (integer (natural rule.data_source_id))
  pub sql_text : get_field (codes "sql_text") d ≡ some (text rule.sql_text)
  pub cron_expression : get_field (codes "cron_expression") d ≡ some (text rule.cron_expression)
  pub recipients : get_field (codes "recipients") d ≡ some (text rule.recipients)
  pub cc_recipients : get_field (codes "cc_recipients") d ≡ some (text rule.cc_recipients)
  pub subject_template : get_field (codes "subject_template") d ≡ some (text rule.subject_template)
  pub body_template : get_field (codes "body_template") d ≡ some (text rule.body_template)
  pub send_mode : get_field (codes "send_mode") d ≡ some (text (send_mode_text rule.send_mode))
  pub query_timeout_seconds :
      get_field (codes "query_timeout_seconds") d
      ≡ some (integer (natural rule.query_timeout_seconds))
  pub max_rows : get_field (codes "max_rows") d ≡ some (integer (natural rule.max_rows))
  pub enabled : get_field (codes "enabled") d ≡ some (boolean rule.enabled)
  pub notes : get_field (codes "notes") d ≡ some (text rule.notes)
  pub dynamic_recipient_field :
      get_field (codes "dynamic_recipient_field") d ≡ some (text rule.dynamic_recipient_field)
  pub dynamic_cc_field : get_field (codes "dynamic_cc_field") d ≡ some (text rule.dynamic_cc_field)
  pub suppress_duplicates :
      get_field (codes "suppress_duplicates") d ≡ some (boolean rule.suppress_duplicates)
  pub suppression_key_field :
      get_field (codes "suppression_key_field") d ≡ some (text rule.suppression_key_field)
  pub suppression_window_hours :
      get_field (codes "suppression_window_hours") d
      ≡ some (integer (natural rule.suppression_window_hours))
  pub created_at : get_field (codes "created_at") d ≡ some (text (isoformat rule.created_at))
  pub updated_at : get_field (codes "updated_at") d ≡ some (text (isoformat rule.updated_at))
