-- ===== src/Settings/Sources/Unique.antt =====
-- The names and the keys of the data sources, under the actions of an admin.
use early_warning_system.Prelude.{
  ℕ, ◌≡◌, refl, not, Option, some, List, [], ◌∷◌, ◌++◌, Text, map, is_empty, subst, sym, arith,
  ◌==◌, option_eq, option_beq_iff, nat_eq, Bool-cases, Option-cases, inl, inr, find, text_eq,
}
use early_warning_system.Models.{SqlDataSource, AlertRule, AdminUser}
use early_warning_system.Database.{Db, get_data_source, above}
use early_warning_system.Outside.{Outside}
use early_warning_system.Settings.{Integer, parse_sql_connection_values}
use early_warning_system.Settings.Smtp.Single.{ParsedPair-cases}
use early_warning_system.Settings.Sources.{
  SourceForm, source_named, referring, new_source, create_sql_server_settings, is_taken,
  update_sql_server_settings, delete_sql_server_settings,
}
use early_warning_system.Settings.Sources.Names.{
  IsDistinct, has_key, count_filtered, changed-IsDistinct, save-IsDistinct, append-IsDistinct,
}
use early_warning_system.Rules.Values.{Json}
use early_warning_system.Rules.{RuleTools, RuleForm}
use early_warning_system.Rules.Pages
use early_warning_system.Rules.Pages.{create_rule, update_rule, archive_rule}
use early_warning_system.Rules.Transfer.{store_imported, import_payload, import_rules_json}
use early_warning_system.Rules.Sound.Actions.{
  AdminAction, create_rule_by, update_rule_by, archive_rule_of, import_file, create_source_by,
  update_source_by, delete_source_of, PageTools, perform, perform_all,
}

find_key :
    (id : ℕ) (sources : List SqlDataSource) (s : SqlDataSource)
    → find (has_key id) sources ≡ some s
    → s.id ≡ some id
find_key id [] s h = cc
find_key id (t ∷ sources) s h = ground (arith, find_key id sources s, option_beq_iff t.id (some id))

module _ {W : Type 0} (out : Outside W) (parse_int : Text → Option Integer) (encrypt : Text → Text)
    (db : Db) (w : W) (d : IsDistinct db.data_sources) where
  create-IsDistinct :
      (form : SourceForm)
      → IsDistinct (create_sql_server_settings out parse_int encrypt form db w).1.data_sources
  unfolding create_sql_server_settings
  create-IsDistinct form =
      elim (ParsedPair-cases
        (parse_sql_connection_values parse_int form.port form.connect_timeout_seconds)) [
          | inr (e, wrong) ↦ rw (wrong, create_sql_server_settings) d
          | inl (port, timeout, right) ↦
              elim (Option-cases (source_named db.data_sources form.name)) [
                | inr (s, taken) ↦ rw (right, create_sql_server_settings, taken) d
                | inl free ↦
                    let w₁ = (out.now w).1 in
                    let s =
                      new_source out parse_int encrypt (above (map (λ s. s.id) db.data_sources))
                        form port timeout (out.now w).0 (out.now w₁).0 in
                    let more : IsDistinct (db.data_sources ++ s ∷ []) =
                      unfold new_source in
                      append-IsDistinct out parse_int encrypt db s refl free d in
                    rw (right, create_sql_server_settings, free)
                      (save-IsDistinct out parse_int encrypt db (db.data_sources ++ s ∷ [])
                        (out.now w₁).1 more d)
              ]
        ]

  update-IsDistinct :
      (id : ℕ) (form : SourceForm)
      → IsDistinct (update_sql_server_settings out parse_int encrypt id form db w).1.data_sources
  unfolding update_sql_server_settings
  update-IsDistinct id form = elim (Option-cases (get_data_source db id)) [
    | inl absent ↦ rw (absent, update_sql_server_settings) d
    | inr (source, found) ↦
        elim (ParsedPair-cases
          (parse_sql_connection_values parse_int form.port form.connect_timeout_seconds)) [
            | inr (e, wrong) ↦ rw (found, update_sql_server_settings, wrong) d
            | inl (port, timeout, right) ↦
                elim (Bool-cases (
                  is_taken out parse_int encrypt (source_named db.data_sources form.name)
                    source.id)) [
                      | inl taken ↦ rw (found, update_sql_server_settings, right, taken) d
                      | inr free ↦
                          let own = find_key id db.data_sources source found in
                          rw (found, update_sql_server_settings, right, free)
                            (save-IsDistinct out parse_int encrypt db _ _
                              (changed-IsDistinct out parse_int encrypt form port timeout
                                (out.now w).0 id db.data_sources (rw own at free) d)
                              d)
                    ]
          ]
  ]

  delete-IsDistinct :
      (by_name : List AlertRule → List AlertRule) (id : ℕ)
      → IsDistinct (delete_sql_server_settings out parse_int encrypt by_name id db w).1.data_sources
  unfolding delete_sql_server_settings
  delete-IsDistinct by_name id = elim (Option-cases (get_data_source db id)) [
    | inl absent ↦ rw (absent, delete_sql_server_settings) d
    | inr (source, found) ↦ elim (Bool-cases (is_empty (referring id db.rules))) [
      | inr used ↦ rw (found, delete_sql_server_settings, used) d
      | inl unused ↦
          rw (found, delete_sql_server_settings, unused)
            (save-IsDistinct out parse_int encrypt db _ _
              (record {
                names = λ name. omega (
                  arith,
                  d.names name,
                  count_filtered (λ s. s.name == name) (λ s. not (s.id == some id)) db.data_sources,
                );
                keys = λ k. omega (
                  arith,
                  d.keys k,
                  count_filtered (has_key k) (λ s. not (s.id == some id)) db.data_sources,
                );
              })
              d)
    ]
  ]

module _ {W : Type 0} (out : Outside W) (tools : RuleTools) (db : Db) (w : W) where
  sources-create_rule :
      (form : RuleForm) → (create_rule out tools form db w).1.data_sources ≡ db.data_sources
  unfolding create_rule Pages.save
  sources-create_rule form = ground arith

  sources-update_rule :
      (id : ℕ) (form : RuleForm) (admin : AdminUser)
      → (update_rule out tools id form admin db w).1.data_sources ≡ db.data_sources
  unfolding update_rule Pages.save
  sources-update_rule id form admin = ground arith

  sources-archive_rule :
      (id : ℕ) → (archive_rule out tools id db w).1.data_sources ≡ db.data_sources
  unfolding archive_rule Pages.save
  sources-archive_rule id = ground arith

  sources-import_rules_json :
      (load : List ℕ → Option Json) (file : List ℕ)
      → (import_rules_json out tools load file db w).1.data_sources ≡ db.data_sources
  unfolding import_rules_json import_payload store_imported
  sources-import_rules_json load file = ground arith

perform-IsDistinct :
    {W : Type 0} (out : Outside W) (t : PageTools) (action : AdminAction) (db : Db) (w : W)
    → IsDistinct db.data_sources
    → IsDistinct (perform out t action db w).0.data_sources
unfolding perform
perform-IsDistinct out t (create_rule_by form) db w d =
    subst IsDistinct (sym (sources-create_rule out t.rule_tools db w form)) d
perform-IsDistinct out t (update_rule_by id form admin) db w d =
    subst IsDistinct (sym (sources-update_rule out t.rule_tools db w id form admin)) d
perform-IsDistinct out t (archive_rule_of id) db w d =
    subst IsDistinct (sym (sources-archive_rule out t.rule_tools db w id)) d
perform-IsDistinct out t (import_file file) db w d =
    subst IsDistinct (sym (sources-import_rules_json out t.rule_tools db w t.load file)) d
perform-IsDistinct out t (create_source_by form) db w d =
    create-IsDistinct out t.rule_tools.python.parse_int t.encrypt db w d form
perform-IsDistinct out t (update_source_by id form) db w d =
    update-IsDistinct out t.rule_tools.python.parse_int t.encrypt db w d id form
perform-IsDistinct out t (delete_source_of id) db w d =
    delete-IsDistinct out t.rule_tools.python.parse_int t.encrypt db w d t.by_name id

-- If no two data sources have one name or one key, then none have after any actions of an admin on
-- rules and data sources, whatever the forms, the imported files and the commits are.
pub perform_all-IsDistinct :
    {W : Type 0} (out : Outside W) (t : PageTools) (actions : List AdminAction) (db : Db) (w : W)
    → IsDistinct db.data_sources
    → IsDistinct (perform_all out t actions db w).0.data_sources
unfolding perform_all
perform_all-IsDistinct out t [] db w d = d
perform_all-IsDistinct out t (a ∷ rest) db w d =
    let (db', w') = perform out t a db w in
    perform_all-IsDistinct out t rest db' w' (perform-IsDistinct out t a db w d)
