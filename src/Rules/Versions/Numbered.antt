-- ===== src/Rules/Versions/Numbered.antt =====
-- app/routes.py: the versions of rules, under the actions of an admin.
use early_warning_system.Prelude.{
  ℕ, ◌≡◌, refl, Option, List, [], ◌∷◌, ◌++◌, Text, subst, sym, arith, Result-cases, Bool-cases,
  Option-cases, inl, inr, ◌⊎◌,
}
use early_warning_system.Models.{DateTime, AdminUser, AlertRule}
use early_warning_system.Database.{Db}
use early_warning_system.Outside.{Outside}
use early_warning_system.Settings.{Integer}
use early_warning_system.Settings.Sources.{
  SourceForm, create_sql_server_settings, update_sql_server_settings, delete_sql_server_settings,
}
use early_warning_system.Settings.Sources
use early_warning_system.Rules.Values.{Json}
use early_warning_system.Rules.{RuleTools, RuleForm, get_active_rule}
use early_warning_system.Rules.Validation.{validate_rule_form, submitted_rule_form}
use early_warning_system.Rules.Pages.{
  save, create_rule, update_rule, archive_rule, create_rule_version,
}
use early_warning_system.Rules.Transfer.{store_imported, import_payload, import_rules_json}
use early_warning_system.Rules.Sound.Actions.{
  AdminAction, create_rule_by, update_rule_by, archive_rule_of, import_file, create_source_by,
  update_source_by, delete_source_of, PageTools, perform, perform_all,
}
use early_warning_system.Rules.Versions.{IsHistory, next_version-IsHistory}

module _ {W : Type 0} (out : Outside W) (tools : RuleTools) where
  pub versions-create_rule :
      (form : RuleForm) (db : Db) (w : W)
      → (create_rule out tools form db w).1.versions ≡ db.versions
  unfolding create_rule save
  versions-create_rule form db w = ground arith

  pub versions-archive_rule :
      (id : ℕ) (db : Db) (w : W) → (archive_rule out tools id db w).1.versions ≡ db.versions
  unfolding archive_rule save
  versions-archive_rule id db w = ground arith

  pub versions-import_rules_json :
      (load : List ℕ → Option Json) (file : List ℕ) (db : Db) (w : W)
      → (import_rules_json out tools load file db w).1.versions ≡ db.versions
  unfolding import_rules_json import_payload store_imported
  versions-import_rules_json load file db w = ground arith

  -- An update stores one version at most: that of the active rule.
  pub versions-update_rule :
      (id : ℕ) (form : RuleForm) (admin : AdminUser) (db : Db) (w : W)
      → ((update_rule out tools id form admin db w).1.versions ≡ db.versions)
        ⊎ ((rule : AlertRule) × (t : DateTime) × ((update_rule out tools id form admin db
                w).1.versions
              ≡ db.versions ++ create_rule_version out tools db rule admin t ∷ []))
  unfolding update_rule save
  versions-update_rule id form admin db w = elim (Option-cases (get_active_rule db id)) [
    | inl absent ↦ inl (rw (absent, update_rule) refl)
    | inr (rule, found) ↦
        elim (Result-cases (validate_rule_form out.glot tools db (submitted_rule_form form))) [
          | inr (e, wrong) ↦ inl (rw (found, update_rule, wrong) refl)
          | inl (c, right) ↦ elim (Bool-cases (out.commit (out.now (out.now w).1).1).0) [
            | inl committed ↦
                inr (rule, (out.now w).0, rw (found, update_rule, right, committed, save) refl)
            | inr failed ↦ inl (rw (found, update_rule, right, failed, save) refl)
          ]
        ]
  ]

  update_rule-IsHistory :
      (id : ℕ) (form : RuleForm) (admin : AdminUser) (db : Db) (w : W)
      → IsHistory db.versions
      → IsHistory (update_rule out tools id form admin db w).1.versions
  unfolding create_rule_version
  update_rule-IsHistory id form admin db w h = elim (versions-update_rule id form admin db w) [
    | inl same ↦ subst IsHistory (sym same) h
    | inr (rule, t, more) ↦
        subst IsHistory (sym more) (
          next_version-IsHistory db.versions (create_rule_version out tools db rule admin t) refl h)
  ]

module _ {W : Type 0} (out : Outside W) (parse_int : Text → Option Integer)
    (encrypt : Text → Text) where
  pub versions-create_source :
      (form : SourceForm) (db : Db) (w : W)
      → (create_sql_server_settings out parse_int encrypt form db w).1.versions ≡ db.versions
  unfolding create_sql_server_settings Sources.save
  versions-create_source form db w = ground arith

  pub versions-update_source :
      (id : ℕ) (form : SourceForm) (db : Db) (w : W)
      → (update_sql_server_settings out parse_int encrypt id form db w).1.versions ≡ db.versions
  unfolding update_sql_server_settings Sources.save
  versions-update_source id form db w = ground arith

  pub versions-delete_source :
      (by_name : List AlertRule → List AlertRule) (id : ℕ) (db : Db) (w : W)
      → (delete_sql_server_settings out parse_int encrypt by_name id db w).1.versions ≡ db.versions
  unfolding delete_sql_server_settings Sources.save
  versions-delete_source by_name id db w = ground arith

perform-IsHistory :
    {W : Type 0} (out : Outside W) (t : PageTools) (action : AdminAction) (db : Db) (w : W)
    → IsHistory db.versions
    → IsHistory (perform out t action db w).0.versions
unfolding perform
perform-IsHistory out t (create_rule_by form) db w h =
    subst IsHistory (sym (versions-create_rule out t.rule_tools form db w)) h
perform-IsHistory out t (update_rule_by id form admin) db w h =
    update_rule-IsHistory out t.rule_tools id form admin db w h
perform-IsHistory out t (archive_rule_of id) db w h =
    subst IsHistory (sym (versions-archive_rule out t.rule_tools id db w)) h
perform-IsHistory out t (import_file file) db w h =
    subst IsHistory (sym (versions-import_rules_json out t.rule_tools t.load file db w)) h
perform-IsHistory out t (create_source_by form) db w h =
    subst IsHistory
      (sym (versions-create_source out t.rule_tools.python.parse_int t.encrypt form db w)) h
perform-IsHistory out t (update_source_by id form) db w h =
    subst IsHistory
      (sym (versions-update_source out t.rule_tools.python.parse_int t.encrypt id form db w)) h
perform-IsHistory out t (delete_source_of id) db w h =
    subst IsHistory
      (sym (versions-delete_source out t.rule_tools.python.parse_int t.encrypt t.by_name id db w)) h

-- If the versions of every rule are numbered from 1 on, in the order in which they were stored, then
-- they are after any actions of an admin on rules and data sources.
pub perform_all-IsHistory :
    {W : Type 0} (out : Outside W) (t : PageTools) (actions : List AdminAction) (db : Db) (w : W)
    → IsHistory db.versions
    → IsHistory (perform_all out t actions db w).0.versions
unfolding perform_all
perform_all-IsHistory out t [] db w h = h
perform_all-IsHistory out t (a ∷ rest) db w h =
    let (db', w') = perform out t a db w in
    perform_all-IsHistory out t rest db' w' (perform-IsHistory out t a db w h)
