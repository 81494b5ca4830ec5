-- ===== src/Rules/Sound/Preserved.antt =====
-- Whether rules can be run, under the actions of an admin.
use early_warning_system.Prelude.{List, [], ◌∷◌, nat_eq, option_eq}
use early_warning_system.Database.{Db}
use early_warning_system.Outside.{Outside}
use early_warning_system.Rules.Sound.Actions.{
  AllRunnable, AdminAction, create_rule_by, update_rule_by, archive_rule_of, import_file,
  create_source_by, update_source_by, delete_source_of, PageTools, perform, perform_all,
}
use early_warning_system.Rules.Sound.RulePages.{
  Kept, create_rule-Kept, update_rule-Kept, archive_rule-Kept, import_rules_json-Kept,
}
use early_warning_system.Rules.Sound.SourcePages.{
  create_sql_server_settings-Kept, update_sql_server_settings-Kept, delete_sql_server_settings-Kept,
}

-- every action keeps every rule runnable
perform-Kept :
    {W : Type 0} (out : Outside W) (t : PageTools) (action : AdminAction) (db : Db) (w : W)
    → Kept out t.rule_tools db
    → Kept out t.rule_tools (perform out t action db w).0
unfolding perform
perform-Kept out t (create_rule_by form) db w h = create_rule-Kept out t.rule_tools form db w h
perform-Kept out t (update_rule_by id form admin) db w h =
    update_rule-Kept out t.rule_tools id form admin db w h
perform-Kept out t (archive_rule_of id) db w h = archive_rule-Kept out t.rule_tools id db w h
perform-Kept out t (import_file file) db w h =
    import_rules_json-Kept out t.rule_tools t.load file db w h
perform-Kept out t (create_source_by form) db w h =
    create_sql_server_settings-Kept out t.rule_tools t.encrypt db h form w
perform-Kept out t (update_source_by id form) db w h =
    update_sql_server_settings-Kept out t.rule_tools t.encrypt db h id form w
perform-Kept out t (delete_source_of id) db w h =
    delete_sql_server_settings-Kept out t.rule_tools t.encrypt db h t.by_name id w

-- From a database whose rules can all be run, whatever an admin does to rules and data sources, and
-- whatever the forms, the imported files and the commits are: every stored rule has a query that
-- passes the validator, a cron expression that is one, a stored data source, a timeout and a number
-- of rows within their bounds, and somebody to write to; a dynamic recipient goes with one message
-- for each row, and the suppression of duplicates with a key field and a positive window.
pub perform_all-AllRunnable :
    {W : Type 0} (out : Outside W) (t : PageTools) (actions : List AdminAction) (db : Db) (w : W)
    → AllRunnable out.glot t.rule_tools db.data_sources db.rules
    → AllRunnable out.glot t.rule_tools
        (perform_all out t actions db w).0.data_sources
        (perform_all out t actions db w).0.rules
unfolding perform_all
perform_all-AllRunnable out t [] db w h = h
perform_all-AllRunnable out t (a ∷ rest) db w h =
    let (db', w') = perform out t a db w in
    perform_all-AllRunnable out t rest db' w' (perform-Kept out t a db w h)
