-- ===== src/Rules/Transfer.antt =====
-- app/routes.py: the import of a file of rules as a whole, and the export that makes such a file.
-- The bytes of a file are decoded and parsed by `load`, where `none` is a `UnicodeDecodeError` or a
-- `JSONDecodeError`; an integer with more digits than `json.loads` converts is left out.
use early_warning_system.Prelude.{
  ℕ, suc, not, Option, none, some, List, [], ◌∷◌, ◌++◌, Text, codes, map, filter, take, length,
  is_some, ltb, if◌then◌else◌, Result, ok, raise,
}
use early_warning_system.Models.{AlertRule, SqlDataSource}
use early_warning_system.Errors.{Error, value_error}
use early_warning_system.Database.{Db, get_data_source, above}
use early_warning_system.Outside.{Outside}
use early_warning_system.ExecutionLock.{database_error}
use early_warning_system.Settings.{natural}
use early_warning_system.Rules.Values.{
  Json, JsonDict, object, array, end, field, boolean, integer, text, array_of,
}
use early_warning_system.Rules.{RuleTools, RuleValues, send_mode_text, new_rule}
use early_warning_system.Rules.Import.{max_rule_import_bytes, build_imported_rules}

-- `file.read(MAX_RULE_IMPORT_BYTES + 1)`
unfoldable pub read_bounded : List ℕ → List ℕ
read_bounded file = take (suc max_rule_import_bytes) file

-- the answers of the import: the page with an error, or the redirect with the number of rules
pub data ImportReply : Type 0 where
  refused : Text → ImportReply
  imported : ℕ → ImportReply

module _ {W : Type 0} (out : Outside W) (tools : RuleTools) where
  -- the rows are added one by one; the clock is read for each of their two times
  unfoldable pub add_rules : List RuleValues → List AlertRule → W → List AlertRule × W
  add_rules [] rules w = (rules, w)
  add_rules (v ∷ rest) rules w =
      let (created_at, w₁) = out.now w in
      let (updated_at, w₂) = out.now w₁ in
      add_rules rest
        (rules ++ new_rule (above (map (λ r. r.id) rules)) v created_at updated_at ∷ []) w₂

  -- what follows `_build_imported_rules`: a `ValueError` is shown, another error comes out
  unfoldable pub store_imported :
      Result Error (List RuleValues) → Db → W → Result Error ImportReply × Db × W
  store_imported (raise (value_error message)) db w = (ok (refused message), db, w)
  store_imported (raise e) db w = (raise e, db, w)
  store_imported (ok values) db w =
      let (rules, w') = add_rules values db.rules w in
      let (committed, w'') = out.commit w' in
      if committed
      then (ok (imported (length values)), record db { rules = rules }, w'')
      else (raise database_error, db, w'')

  unfoldable pub import_payload : Option Json → Db → W → Result Error ImportReply × Db × W
  import_payload none db w = (ok (refused (codes "导入文件必须是有效的 JSON")), db, w)
  import_payload (some payload) db w =
      store_imported (build_imported_rules out.glot tools db payload) db w

  -- `import_rules_json`
  unfoldable pub import_rules_json :
      (List ℕ → Option Json) → List ℕ → Db → W → Result Error ImportReply × Db × W
  import_rules_json load file db w =
      let content = read_bounded file in
      if ltb max_rule_import_bytes (length content)
      then (ok (refused (codes "导入文件不能超过 1 MiB")), db, w)
      else import_payload (load content) db w

-- `data_sources.get(rule.data_source_id, "")`
unfoldable pub source_name : Option SqlDataSource → Text
source_name none = []
source_name (some s) = s.name

-- a rule of `_rule_export_payload`
unfoldable pub exported_rule : Db → AlertRule → JsonDict
exported_rule db rule = field (codes "name") (text rule.name) (
    field (codes "data_source_name") (text (source_name (get_data_source db rule.data_source_id))) (
      field (codes "sql_text") (text rule.sql_text) (
        field (codes "cron_expression") (text rule.cron_expression) (
          field (codes "recipients") (text rule.recipients) (
            field (codes "cc_recipients") (text rule.cc_recipients) (
              field (codes "subject_template") (text rule.subject_template) (
                field (codes "body_template") (text rule.body_template) (
                  field (codes "send_mode") (text (send_mode_text rule.send_mode)) (
                    field (codes "query_timeout_seconds")
                      (integer (natural rule.query_timeout_seconds))
                      (field (codes "max_rows") (integer (natural rule.max_rows)) (
                        field (codes "enabled") (boolean rule.enabled) (
                          field (codes "notes") (text rule.notes) (
                            field (codes "dynamic_recipient_field")
                              (text rule.dynamic_recipient_field)
                              (field (codes "dynamic_cc_field") (text rule.dynamic_cc_field) (
                                field (codes "suppress_duplicates")
                                  (boolean rule.suppress_duplicates)
                                  (field (codes "suppression_key_field")
                                    (text rule.suppression_key_field)
                                    (field (codes "suppression_window_hours")
                                      (integer (natural rule.suppression_window_hours))
                                      end)))))))))))))))))

-- the rules that are exported, the newest first; how the database orders them is an argument
unfoldable pub active_rules : (List AlertRule → List AlertRule) → Db → List AlertRule
active_rules newest_first db = newest_first (filter (λ r. not (is_some r.archived_at)) db.rules)

-- `_rule_export_payload`
unfoldable pub rule_export_payload : (List AlertRule → List AlertRule) → Text → Db → Json
rule_export_payload newest_first exported_at db = object (
    field (codes "version") (integer (natural 1)) (
      field (codes "exported_at") (text exported_at) (
        field (codes "rules")
          (array (array_of (map (λ r. object (exported_rule db r)) (active_rules newest_first db))))
          end)))
