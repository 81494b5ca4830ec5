-- ===== src/Rules/Exportable/Entry.antt =====
-- One exported rule, read back by the import.
use early_warning_system.Prelude.{
  ℕ, ◌≡◌, refl, false, not, ◌&&◌, [], is_empty, arith, ◌==◌, nat_eq, text_eq, ok,
}
use early_warning_system.Models.{SendMode, send_mode_eq, send_mode_beq_iff, AlertRule}
use early_warning_system.Database.{Db}
use early_warning_system.SqlValidator.{SqlGlot}
use early_warning_system.Rules.{RuleTools, has_recipient_text, values_of}
use early_warning_system.Rules.Import.{index_sources, build_imported_rule}
use early_warning_system.Rules.Transfer.{exported_rule}
use early_warning_system.Rules.Exportable.{IsExportable}
use early_warning_system.Rules.Exportable.Fields.{
  mode_back, read-name, read-source, read-sql_text, read-cron_expression, read-timeout,
  read-max_rows, read-hours, read-texts, read-flags,
}

module _ (glot : SqlGlot) (tools : RuleTools) (db : Db) (index : ℕ) (r : AlertRule)
    (h : IsExportable glot tools db r) where
  allowed :
      ((not (is_empty r.dynamic_recipient_field) && not (r.send_mode == SendMode.per_row)) ≡ false)
      × ((not (has_recipient_text r.recipients) && is_empty r.dynamic_recipient_field) ≡ false)
      × ((r.suppress_duplicates && is_empty r.suppression_key_field) ≡ false)
  unfolding values_of
  allowed = ground (arith, h.runnable, send_mode_beq_iff r.send_mode SendMode.per_row)

  pub build-exported_rule :
      build_imported_rule glot tools (index_sources db.data_sources []) index (exported_rule db r)
      ≡ ok (values_of r)
  unfolding build_imported_rule values_of
  build-exported_rule =
      let (mode, to, cc_to, subject, body, notes, dynamic_to, dynamic_cc, key) =
        read-texts glot tools db index r h in
      let (on, unique) = read-flags glot tools db index r h in
      let (a, b, c) = allowed in
      rw
        (
          read-name glot tools db index r h,
          read-source glot tools db index r h,
          h.source_id,
          read-sql_text glot tools db index r h,
          h.runnable.query,
          read-cron_expression glot tools db index r h,
          h.runnable.cron,
          mode,
          mode_back r.send_mode,
          dynamic_to,
          h.dynamic_recipient_field,
          a,
          to,
          h.recipients,
          b,
          read-timeout glot tools db index r h,
          read-max_rows glot tools db index r h,
          read-hours glot tools db index r h,
          unique,
          key,
          h.suppression_key_field,
          c,
          on,
          cc_to,
          subject,
          body,
          notes,
          dynamic_cc,
          h.dynamic_cc_field,
        )
        refl
