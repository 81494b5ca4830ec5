-- ===== src/Rules/Exportable/Fields.antt =====
-- What the import reads of each field of an exported rule.
use early_warning_system.Prelude.{
  ℕ, ◌≡◌, ◌≤◌, ◌<◌, refl, true, false, some, [], Text, codes, arith, nat_eq, text_eq, ok,
}
use early_warning_system.Models.{SendMode, send_mode_eq, AlertRule}
use early_warning_system.Database.{Db, get_data_source}
use early_warning_system.SqlValidator.{SqlGlot}
use early_warning_system.Settings.{natural, validate_bounded_int}
use early_warning_system.Rules.Values.{
  Python, JsonDict, boolean, text, int, get_field, get_field_or, int_of, truth, text_or_str,
}
use early_warning_system.Rules.{RuleTools, send_mode_of_text, send_mode_text, values_of}
use early_warning_system.Rules.Import.{
  or_text, required_import_text, optional_import_text, positive_int, positive_import_int,
  bounded_natural, bounded_int, bounded_import_int,
}
use early_warning_system.Rules.Transfer.{source_name, exported_rule}
use early_warning_system.Rules.Exportable.{IsTrim, IsExportable}

required_import_text_lem :
    (py : Python) (d : JsonDict) (key : Text) (index : ℕ) (label t : Text)
    → get_field_or key (text []) d ≡ text t
    → IsTrim t
    → required_import_text py d key index label ≡ ok t
unfolding required_import_text text_or_str
required_import_text_lem py d key index label t e h =
    rw (e, required_import_text, text_or_str, h.stripped, h.filled) refl

bounded_int_lem :
    (index : ℕ) (label : Text) (high n : ℕ)
    → 1 ≤ n
    → n ≤ high
    → bounded_int index label high (int (natural n)) ≡ ok n
unfolding bounded_int bounded_natural validate_bounded_int
bounded_int_lem index label high n low up = ground arith

positive_int_lem :
    (index : ℕ) (label : Text) (n : ℕ) → 0 < n → positive_int index label (int (natural n)) ≡ ok n
unfolding positive_int
positive_int_lem index label n pos = ground arith

pub mode_back :
    (m : SendMode) → send_mode_of_text (or_text (send_mode_text m) (codes "summary")) ≡ some m
unfolding send_mode_of_text send_mode_text
mode_back SendMode.summary = refl
mode_back SendMode.per_row = refl

module _ (glot : SqlGlot) (tools : RuleTools) (db : Db) (index : ℕ) (r : AlertRule)
    (h : IsExportable glot tools db r) where
  pub read-name :
      required_import_text tools.python (exported_rule db r) (codes "name") index (codes "规则名称")
      ≡ ok r.name
  unfolding exported_rule get_field get_field_or
  read-name = required_import_text_lem tools.python _ _ index _ r.name refl h.name

  pub read-source :
      required_import_text tools.python
        (exported_rule db r)
        (codes "data_source_name")
        index
        (codes "数据源名称")
      ≡ ok (source_name (get_data_source db r.data_source_id))
  unfolding exported_rule get_field get_field_or
  read-source = required_import_text_lem tools.python _ _ index _ _ refl h.source

  pub read-sql_text :
      required_import_text tools.python
        (exported_rule db r)
        (codes "sql_text")
        index
        (codes "SQL 查询")
      ≡ ok r.sql_text
  unfolding exported_rule get_field get_field_or
  read-sql_text = required_import_text_lem tools.python _ _ index _ r.sql_text refl h.sql_text

  pub read-cron_expression :
      required_import_text tools.python
        (exported_rule db r)
        (codes "cron_expression")
        index
        (codes "Cron 表达式")
      ≡ ok r.cron_expression
  unfolding exported_rule get_field get_field_or
  read-cron_expression =
      required_import_text_lem tools.python _ _ index _ r.cron_expression refl h.cron_expression

  pub read-timeout :
      bounded_import_int tools.python
        (exported_rule db r)
        (codes "query_timeout_seconds")
        index
        (codes "查询超时时间")
        30
        600
      ≡ ok r.query_timeout_seconds
  unfolding bounded_import_int exported_rule get_field get_field_or int_of values_of
  read-timeout =
      bounded_int_lem index _ 600 r.query_timeout_seconds h.runnable.timeout_low
        h.runnable.timeout_high

  pub read-max_rows :
      bounded_import_int tools.python
        (exported_rule db r)
        (codes "max_rows")
        index
        (codes "最大返回行数")
        500
        5000
      ≡ ok r.max_rows
  unfolding bounded_import_int exported_rule get_field get_field_or int_of values_of
  read-max_rows = bounded_int_lem index _ 5000 r.max_rows h.runnable.rows_low h.runnable.rows_high

  pub read-hours :
      positive_import_int tools.python
        (exported_rule db r)
        (codes "suppression_window_hours")
        index
        (codes "重复抑制窗口")
        24
      ≡ ok r.suppression_window_hours
  unfolding positive_import_int exported_rule get_field get_field_or int_of
  read-hours = positive_int_lem index _ r.suppression_window_hours h.hours

  optional :
      (key t : Text)
      → get_field_or key (text []) (exported_rule db r) ≡ text t
      → optional_import_text tools.python (exported_rule db r) key ≡ t
  unfolding optional_import_text text_or_str
  optional key t e = rw (e, text_or_str) refl

  pub read-texts :
      (optional_import_text tools.python (exported_rule db r) (codes "send_mode")
        ≡ send_mode_text r.send_mode)
      × (optional_import_text tools.python (exported_rule db r) (codes "recipients") ≡ r.recipients)
      × (optional_import_text tools.python (exported_rule db r) (codes "cc_recipients")
          ≡ r.cc_recipients)
      × (optional_import_text tools.python (exported_rule db r) (codes "subject_template")
          ≡ r.subject_template)
      × (optional_import_text tools.python (exported_rule db r) (codes "body_template")
          ≡ r.body_template)
      × (optional_import_text tools.python (exported_rule db r) (codes "notes") ≡ r.notes)
      × (optional_import_text tools.python (exported_rule db r) (codes "dynamic_recipient_field")
          ≡ r.dynamic_recipient_field)
      × (optional_import_text tools.python (exported_rule db r) (codes "dynamic_cc_field")
          ≡ r.dynamic_cc_field)
      × (optional_import_text tools.python (exported_rule db r) (codes "suppression_key_field")
          ≡ r.suppression_key_field)
  unfolding exported_rule get_field get_field_or
  read-texts = (
    optional _ _ refl,
    optional _ _ refl,
    optional _ _ refl,
    optional _ _ refl,
    optional _ _ refl,
    optional _ _ refl,
    optional _ _ refl,
    optional _ _ refl,
    optional _ _ refl,
  )

  pub read-flags :
      (truth tools.python (get_field_or (codes "enabled") (boolean true) (exported_rule db r))
        ≡ r.enabled)
      × (truth tools.python
            (get_field_or (codes "suppress_duplicates") (boolean false) (exported_rule db r))
          ≡ r.suppress_duplicates)
  unfolding exported_rule get_field get_field_or truth
  read-flags = (refl, refl)
