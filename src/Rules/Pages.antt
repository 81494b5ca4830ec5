-- ===== src/Rules/Pages.antt =====
-- app/routes.py: creating, updating and archiving a rule, and the versions that an update keeps.
use early_warning_system.Prelude.{
  ℕ, Option, none, some, List, [], ◌∷◌, ◌++◌, Text, codes, map, update_where, ◌==◌, nat_eq, text_eq,
  option_eq, max, suc, if◌then◌else◌, Result, ok, raise,
}
use early_warning_system.Models.{DateTime, send_mode_eq, AdminUser, AlertRule, AlertRuleVersion}
use early_warning_system.Errors.{Error}
use early_warning_system.Database.{Db, above}
use early_warning_system.Outside.{Outside}
use early_warning_system.ExecutionLock.{database_error}
use early_warning_system.Settings.{natural}
use early_warning_system.Rules.Values.{
  Python, Json, JsonDict, object, end, field, null, boolean, integer, text,
}
use early_warning_system.Rules.{
  RuleTools, RuleForm, send_mode_text, new_rule, updated_rule, archived_rule, get_active_rule,
}
use early_warning_system.Rules.Validation.{validate_rule_form, submitted_rule_form, form_values}

-- the answers of the pages
pub data RuleReply : Type 0 where
  not_found : RuleReply
  refused : Text → RuleReply
  saved : RuleReply

-- `_next_rule_version_number`: above the largest number of the rule's versions
unfoldable pub next_rule_version_number : Option ℕ → List AlertRuleVersion → ℕ
next_rule_version_number rule_id [] = 1
next_rule_version_number rule_id (v ∷ rest) =
    let later = next_rule_version_number rule_id rest in
    if v.rule_id == rule_id then max (suc v.version_number) later else later

-- `_rule_snapshot`
unfoldable pub rule_snapshot : (DateTime → Text) → AlertRule → JsonDict
unfolding send_mode_text
rule_snapshot isoformat rule =
    field (codes "id") (elim rule.id [ none ↦ null | some id ↦ integer (natural id) ])
      (field (codes "name") (text rule.name) (
        field (codes "data_source_id") (integer (natural rule.data_source_id)) (
          field (codes "sql_text") (text rule.sql_text) (
            field (codes "cron_expression") (text rule.cron_expression) (
              field (codes "recipients") (text rule.recipients) (
                field (codes "cc_recipients") (text rule.cc_recipients) (
                  field (codes "subject_template") (text rule.subject_template) (
                    field (codes "body_template") (text rule.body_template) (
                      field (codes "send_mode") (text (send_mode_text rule.send_mode)) (
                        field (codes "query_timeout_seconds")
                          (integer (natural rule.query_timeout_seconds))
                          (field (codes "max_rows") (integer (natural rule.max_rows)) (
                            field (codes "enabled") (boolean rule.enabled) (
                              field (codes "notes") (text rule.notes) (
                                field (codes "dynamic_recipient_field")
                                  (text rule.dynamic_recipient_field)
                                  (field (codes "dynamic_cc_field") (text rule.dynamic_cc_field) (
                                    field (codes "suppress_duplicates")
                                      (boolean rule.suppress_duplicates)
                                      (field (codes "suppression_key_field")
                                        (text rule.suppression_key_field)
                                        (field (codes "suppression_window_hours")
                                          (integer (natural rule.suppression_window_hours))
                                          (field (codes "created_at")
                                            (text (isoformat rule.created_at))
                                            (field (codes "updated_at")
                                              (text (isoformat rule.updated_at))
                                              end))))))))))))))))))))

-- `_version_snapshot`
unfoldable pub unreadable : JsonDict
unreadable = field (codes "name") (text (codes "快照无法解析")) (field (codes "sql_text") (text []) end)

unfoldable pub dict_or_unreadable : Option Json → JsonDict
unfolding unreadable
dict_or_unreadable (some (object d)) = d
dict_or_unreadable _ = unreadable

unfoldable pub version_snapshot : Python → AlertRuleVersion → JsonDict
unfolding dict_or_unreadable
version_snapshot py version = dict_or_unreadable (py.loads version.snapshot_json)

module _ {W : Type 0} (out : Outside W) (tools : RuleTools) where
  -- `_create_rule_version`; `changed_at` is set as the row is made
  unfoldable pub create_rule_version : Db → AlertRule → AdminUser → DateTime → AlertRuleVersion
  create_rule_version db rule admin changed_at = record {
    rule_id = rule.id;
    version_number = next_rule_version_number rule.id db.versions;
    changed_by = admin.username;
    snapshot_json = tools.python.dumps (rule_snapshot tools.python.isoformat rule);
    changed_at = changed_at;
  }

  -- a commit of the changed database
  unfoldable pub save : Db → Db → W → Result Error RuleReply × Db × W
  save changed db w =
      let (committed, w') = out.commit w in
      if committed then (ok saved, changed, w') else (raise database_error, db, w')

  -- `create_rule`
  unfoldable pub create_rule : RuleForm → Db → W → Result Error RuleReply × Db × W
  create_rule form db w = elim (validate_rule_form out.glot tools db (submitted_rule_form form)) [
    | raise error ↦ (ok (refused error), db, w)
    | ok checked ↦
        let (created_at, w₁) = out.now w in
        let (updated_at, w₂) = out.now w₁ in
        let rule =
          new_rule (above (map (λ r. r.id) db.rules)) (form_values form checked []) created_at
            updated_at in
        save (record db { rules = db.rules ++ rule ∷ [] }) db w₂
  ]

  -- `update_rule`
  unfoldable pub update_rule : ℕ → RuleForm → AdminUser → Db → W → Result Error RuleReply × Db × W
  update_rule rule_id form admin db w = elim (get_active_rule db rule_id) [
    | none ↦ (ok not_found, db, w)
    | some rule ↦ elim (validate_rule_form out.glot tools db (submitted_rule_form form)) [
      | raise error ↦ (ok (refused error), db, w)
      | ok checked ↦
          let (changed_at, w₁) = out.now w in
          let (now, w₂) = out.now w₁ in
          save
            (record db {
              versions = db.versions ++ create_rule_version db rule admin changed_at ∷ [];
              rules =
                  update_where (λ r. r.id == some rule_id)
                    (updated_rule (form_values form checked rule.notes) now) db.rules;
            })
            db w₂
    ]
  ]

  -- `archive_rule`
  unfoldable pub archive_rule : ℕ → Db → W → Result Error RuleReply × Db × W
  archive_rule rule_id db w = elim (get_active_rule db rule_id) [
    | none ↦ (ok not_found, db, w)
    | some rule ↦
        let (now, w') = out.now w in
        save
          (record db {
            rules = update_where (λ r. r.id == some rule_id) (archived_rule now) db.rules;
          })
          db w'
  ]
