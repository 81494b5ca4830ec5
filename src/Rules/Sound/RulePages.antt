-- ===== src/Rules/Sound/RulePages.antt =====
-- Whether rules can be run, under the pages and the import of rules.
use early_warning_system.Prelude.{
  ℕ, ◌≡◌, refl, Option, none, some, List, [], ◌∷◌, ◌++◌, length, update_where, All, All-append_one,
  All-update_where, ◌==◌, nat_eq, option_eq, Result, ok, raise, Result-cases, Bool-cases,
  Option-cases, inl, inr, ltb,
}
use early_warning_system.Models.{AdminUser, AlertRule, SqlDataSource}
use early_warning_system.Errors.{
  Error, value_error, configuration_error, runtime_error, sql_validation_error,
  template_render_error, overflow_error, rule_not_found, rule_in_progress, foreign,
}
use early_warning_system.Database.{Db}
use early_warning_system.Outside.{Outside}
use early_warning_system.Rules.Values.{Json}
use early_warning_system.Rules.{
  RuleTools, RuleForm, RuleValues, updated_rule, archived_rule, get_active_rule,
}
use early_warning_system.Rules.Validation.{validate_rule_form, submitted_rule_form, form_values}
use early_warning_system.Rules.Pages.{
  save, create_rule, update_rule, archive_rule, create_rule_version,
}
use early_warning_system.Rules.Import.{build_imported_rules, max_rule_import_bytes}
use early_warning_system.Rules.Transfer.{
  read_bounded, add_rules, store_imported, import_payload, import_rules_json,
}
use early_warning_system.Rules.Sound.{IsRunnable, validate_rule_form-IsRunnable}
use early_warning_system.Rules.Sound.Imported.{build_imported_rules-IsRunnable}
use early_warning_system.Rules.Sound.Actions.{
  AllRunnable, archived-IsRunnable, new-IsRunnable, updated-IsRunnable,
}

module _ {W : Type 0} (out : Outside W) (tools : RuleTools) where
  abbrev pub Kept : Db → Type 0
  Kept db = AllRunnable out.glot tools db.data_sources db.rules

  save-Kept :
      (changed db : Db) (w : W) → Kept changed → Kept db → Kept (save out tools changed db w).1
  unfolding save
  save-Kept changed db w new old = elim (Bool-cases (out.commit w).0) [
    | inl committed ↦ rw (committed, save) new
    | inr failed ↦ rw (failed, save) old
  ]

  pub create_rule-Kept :
      (form : RuleForm) (db : Db) (w : W) → Kept db → Kept (create_rule out tools form db w).1
  unfolding create_rule
  create_rule-Kept form db w h =
      elim (Result-cases (validate_rule_form out.glot tools db (submitted_rule_form form))) [
        | inr (e, wrong) ↦ rw (wrong, create_rule) h
        | inl (c, right) ↦
            rw (right, create_rule)
              (save-Kept _ db _
                (All-append_one _ db.rules _ h (
                  new-IsRunnable out.glot tools db.data_sources _ (form_values form c []) _ _
                    (validate_rule_form-IsRunnable out.glot tools db form c [] right)))
                h)
      ]

  pub update_rule-Kept :
      (id : ℕ) (form : RuleForm) (admin : AdminUser) (db : Db) (w : W)
      → Kept db
      → Kept (update_rule out tools id form admin db w).1
  unfolding update_rule
  update_rule-Kept id form admin db w h = elim (Option-cases (get_active_rule db id)) [
    | inl absent ↦ rw (absent, update_rule) h
    | inr (rule, found) ↦
        elim (Result-cases (validate_rule_form out.glot tools db (submitted_rule_form form))) [
          | inr (e, wrong) ↦ rw (found, update_rule, wrong) h
          | inl (c, right) ↦
              let w₁ = (out.now w).1 in
              let now = (out.now w₁).0 in
              let f = updated_rule (form_values form c rule.notes) now in
              let changed = record db {
                versions =
                    db.versions ++ create_rule_version out tools db rule admin (out.now w).0 ∷ [];
                rules = update_where (λ r. r.id == some id) f db.rules;
              } in
              rw (found, update_rule, right)
                (save-Kept changed db (out.now w₁).1
                  (All-update_where _ (λ r. r.id == some id) f db.rules
                    (λ r old. updated-IsRunnable out.glot tools db form c rule.notes now r right) h)
                  h)
        ]
  ]

  pub archive_rule-Kept :
      (id : ℕ) (db : Db) (w : W) → Kept db → Kept (archive_rule out tools id db w).1
  unfolding archive_rule
  archive_rule-Kept id db w h = elim (Option-cases (get_active_rule db id)) [
    | inl absent ↦ rw (absent, archive_rule) h
    | inr (rule, found) ↦
        let now = (out.now w).0 in
        let changed = record db {
          rules = update_where (λ r. r.id == some id) (archived_rule now) db.rules;
        } in
        rw (found, archive_rule)
          (save-Kept changed db (out.now w).1
            (All-update_where _ (λ r. r.id == some id) (archived_rule now) db.rules
              (archived-IsRunnable out.glot tools db.data_sources now) h)
            h)
  ]

  add_rules-Kept :
      (sources : List SqlDataSource) (vs : List RuleValues) (rules : List AlertRule) (w : W)
      → All (IsRunnable out.glot tools sources) vs
      → AllRunnable out.glot tools sources rules
      → AllRunnable out.glot tools sources (add_rules out tools vs rules w).0
  unfolding add_rules
  add_rules-Kept sources [] rules w good h = h
  add_rules-Kept sources (v ∷ vs) rules w good h =
      add_rules-Kept sources vs _ _ good.1
        (All-append_one _ rules _ h (new-IsRunnable out.glot tools sources _ v _ _ good.0))

  store_imported-Kept :
      (r : Result Error (List RuleValues)) (db : Db) (w : W)
      → ((vs : List RuleValues) → r ≡ ok vs → All (IsRunnable out.glot tools db.data_sources) vs)
      → Kept db
      → Kept (store_imported out tools r db w).1
  unfolding store_imported
  store_imported-Kept (raise (value_error m)) db w good h = h
  store_imported-Kept (raise (configuration_error m)) db w good h = h
  store_imported-Kept (raise (runtime_error m)) db w good h = h
  store_imported-Kept (raise (sql_validation_error m)) db w good h = h
  store_imported-Kept (raise (template_render_error m)) db w good h = h
  store_imported-Kept (raise overflow_error) db w good h = h
  store_imported-Kept (raise (rule_not_found n)) db w good h = h
  store_imported-Kept (raise (rule_in_progress n)) db w good h = h
  store_imported-Kept (raise (foreign n m s)) db w good h = h
  store_imported-Kept (ok vs) db w good h =
      elim (Bool-cases (out.commit (add_rules out tools vs db.rules w).1).0) [
        | inl committed ↦
            rw (committed, store_imported)
              (add_rules-Kept db.data_sources vs db.rules w (good vs refl) h)
        | inr failed ↦ rw (failed, store_imported) h
      ]

  import_payload-Kept :
      (j : Option Json) (db : Db) (w : W) → Kept db → Kept (import_payload out tools j db w).1
  unfolding import_payload
  import_payload-Kept none db w h = h
  import_payload-Kept (some payload) db w h =
      store_imported-Kept (build_imported_rules out.glot tools db payload) db w
        (build_imported_rules-IsRunnable out.glot tools db payload) h

  pub import_rules_json-Kept :
      (load : List ℕ → Option Json) (file : List ℕ) (db : Db) (w : W)
      → Kept db
      → Kept (import_rules_json out tools load file db w).1
  unfolding import_rules_json
  import_rules_json-Kept load file db w h =
      elim (Bool-cases (ltb max_rule_import_bytes (length (read_bounded file)))) [
        | inl long ↦ rw (long, import_rules_json) h
        | inr fits ↦
            rw (fits, import_rules_json) (import_payload-Kept (load (read_bounded file)) db w h)
      ]
