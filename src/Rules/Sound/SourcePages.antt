-- ===== src/Rules/Sound/SourcePages.antt =====
-- Whether rules can be run, under the pages of data sources.
use early_warning_system.Prelude.{
  ℕ, ◌≡◌, refl, true, not, some, List, [], ◌∷◌, Text, filter, is_empty, All-map, ◌==◌, nat_eq,
  option_eq, eq_iff, Bool-cases, Option-cases, inl, inr,
}
use early_warning_system.Models.{AlertRule, SqlDataSource}
use early_warning_system.Database.{Db, get_data_source}
use early_warning_system.Outside.{Outside}
use early_warning_system.Settings.{parse_sql_connection_values}
use early_warning_system.Settings.Sources.{
  SourceForm, source_named, referring, new_source, updated_source, create_sql_server_settings,
  update_sql_server_settings, delete_sql_server_settings, is_taken,
}
use early_warning_system.Settings.Sources
use early_warning_system.Settings.Smtp.Single.{ParsedPair-cases}
use early_warning_system.Rules.{RuleTools, values_of}
use early_warning_system.Rules.Sound.Actions.{
  AllRunnable, moved-IsRunnable, has_source-append, has_source-update, has_source-delete,
}
use early_warning_system.Rules.Sound.RulePages.{Kept}

module _ {W : Type 0} (out : Outside W) (tools : RuleTools) (encrypt : Text → Text) (db : Db)
    (h : Kept out tools db) where
  save_sources-Kept :
      (sources : List SqlDataSource) (w : W)
      → AllRunnable out.glot tools sources db.rules
      → Kept out tools (Sources.save out tools.python.parse_int encrypt sources db w).1
  unfolding Sources.save
  save_sources-Kept sources w new = elim (Bool-cases (out.commit w).0) [
    | inl committed ↦ rw (committed, Sources.save) new
    | inr failed ↦ rw (failed, Sources.save) h
  ]

  pub create_sql_server_settings-Kept :
      (form : SourceForm) (w : W)
      → Kept out tools (create_sql_server_settings out tools.python.parse_int encrypt form db w).1
  unfolding create_sql_server_settings
  create_sql_server_settings-Kept form w =
      elim (ParsedPair-cases (
        parse_sql_connection_values tools.python.parse_int form.port
          form.connect_timeout_seconds)) [
            | inr (e, wrong) ↦ rw (wrong, create_sql_server_settings) h
            | inl (port, timeout, right) ↦
                elim (Option-cases (source_named db.data_sources form.name)) [
                  | inr (s, taken) ↦ rw (right, create_sql_server_settings, taken) h
                  | inl free ↦
                      rw (right, create_sql_server_settings, free)
                        (save_sources-Kept _ _ (
                          All-map _ _ db.rules
                            (λ r old.
                              moved-IsRunnable out.glot tools db.data_sources _ (values_of r)
                                (has_source-append db.data_sources _ _ old.source) old)
                            h))
                ]
          ]

  pub update_sql_server_settings-Kept :
      (id : ℕ) (form : SourceForm) (w : W)
      → Kept out tools
          (update_sql_server_settings out tools.python.parse_int encrypt id form db w).1
  unfolding update_sql_server_settings updated_source
  update_sql_server_settings-Kept id form w = elim (Option-cases (get_data_source db id)) [
    | inl absent ↦ rw (absent, update_sql_server_settings) h
    | inr (source, found) ↦
        elim (ParsedPair-cases (
          parse_sql_connection_values tools.python.parse_int form.port
            form.connect_timeout_seconds)) [
              | inr (e, wrong) ↦ rw (found, update_sql_server_settings, wrong) h
              | inl (port, timeout, right) ↦
                  elim (Bool-cases (
                    is_taken out tools.python.parse_int encrypt
                      (source_named db.data_sources form.name) source.id)) [
                        | inl taken ↦ rw (found, update_sql_server_settings, right, taken) h
                        | inr free ↦
                            rw (found, update_sql_server_settings, right, free)
                              (save_sources-Kept _ _ (
                                All-map _ _ db.rules
                                  (λ r old.
                                    moved-IsRunnable out.glot tools db.data_sources _ (values_of r)
                                      (has_source-update _ _ db.data_sources _ (λ s. refl)
                                        old.source)
                                      old)
                                  h))
                      ]
            ]
  ]

  -- rules that do not name a source stay runnable without it
  unreferred-Kept :
      (id : ℕ) (rules : List AlertRule)
      → is_empty (referring id rules) ≡ true
      → AllRunnable out.glot tools db.data_sources rules
      → AllRunnable out.glot tools (filter (λ s. not (s.id == some id)) db.data_sources) rules
  unfolding referring values_of
  unreferred-Kept id [] none_left all = tt
  unreferred-Kept id (r ∷ rules) none_left all = elim (Bool-cases (r.data_source_id == id)) [
    | inl named ↦ cc (rw named at none_left)
    | inr other ↦ (
      moved-IsRunnable out.glot tools db.data_sources _ (values_of r)
          (has_source-delete id db.data_sources r.data_source_id
            (λ e. cc (other, (eq_iff r.data_source_id id).1 e)) all.0.source)
          all.0,
      unreferred-Kept id rules (rw other at none_left) all.1,
    )
  ]

  pub delete_sql_server_settings-Kept :
      (by_name : List AlertRule → List AlertRule) (id : ℕ) (w : W)
      → Kept out tools
          (delete_sql_server_settings out tools.python.parse_int encrypt by_name id db w).1
  unfolding delete_sql_server_settings
  delete_sql_server_settings-Kept by_name id w = elim (Option-cases (get_data_source db id)) [
    | inl absent ↦ rw (absent, delete_sql_server_settings) h
    | inr (source, found) ↦ elim (Bool-cases (is_empty (referring id db.rules))) [
      | inr used ↦ rw (found, delete_sql_server_settings, used) h
      | inl unused ↦
          rw (found, delete_sql_server_settings, unused)
            (save_sources-Kept _ _ (unreferred-Kept id db.rules unused h))
    ]
  ]
