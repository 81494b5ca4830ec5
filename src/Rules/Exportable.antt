-- ===== src/Rules/Exportable.antt =====
-- app/routes.py: what an exported rule needs, to be read back by the import.
mod Fields
pub mod Entry
use early_warning_system.Prelude.{
  ℕ, ◌≡◌, ◌≤◌, ◌<◌, refl, true, false, not, ◌&&◌, some, [], Text, codes, get, is_empty, strip,
  arith, ◌==◌, nat_eq, text_eq, ok,
}
use early_warning_system.Models.{SendMode, send_mode_eq, send_mode_beq_iff, AlertRule}
use early_warning_system.Database.{Db, get_data_source}
use early_warning_system.SqlValidator.{SqlGlot}
use early_warning_system.Settings.{natural, validate_bounded_int}
use early_warning_system.Rules.Values.{
  Python, JsonDict, boolean, text, int, get_field, get_field_or, int_of, truth, text_or_str,
}
use early_warning_system.Rules.{
  RuleTools, send_mode_of_text, send_mode_text, has_recipient_text, values_of,
}
use early_warning_system.Rules.Import.{
  or_text, required_import_text, optional_import_text, positive_int, positive_import_int,
  bounded_natural, bounded_int, bounded_import_int, index_sources, id_of_source,
  build_imported_rule,
}
use early_warning_system.Rules.Transfer.{source_name, exported_rule}
use early_warning_system.Rules.Sound.{IsRunnable}

-- A text that the import leaves as it is.
pub record IsTrim (t : Text) : Type 0 where
  pub stripped : strip t ≡ t
  pub filled : is_empty t ≡ false

-- A rule whose texts have no outer blanks and whose data source can be found by its name.
pub record IsExportable (glot : SqlGlot) (tools : RuleTools) (db : Db) (r : AlertRule)
    : Type 0 where
  pub runnable : IsRunnable glot tools db.data_sources (values_of r)
  pub name : IsTrim r.name
  pub sql_text : IsTrim r.sql_text
  pub cron_expression : IsTrim r.cron_expression
  pub recipients : strip r.recipients ≡ r.recipients
  pub dynamic_recipient_field : strip r.dynamic_recipient_field ≡ r.dynamic_recipient_field
  pub dynamic_cc_field : strip r.dynamic_cc_field ≡ r.dynamic_cc_field
  pub suppression_key_field : strip r.suppression_key_field ≡ r.suppression_key_field
  pub hours : 0 < r.suppression_window_hours
  pub source : IsTrim (source_name (get_data_source db r.data_source_id))
  pub source_id :
      id_of_source
        (get (source_name (get_data_source db r.data_source_id)) (index_sources db.data_sources []))
      ≡ some r.data_source_id
