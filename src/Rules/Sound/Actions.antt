-- ===== src/Rules/Sound/Actions.antt =====
-- What an admin does to rules and data sources, as one step on the database.
use early_warning_system.Prelude.{
  ℕ, ◌≡◌, ◌≢◌, Bool, true, not, Option, some, List, [], ◌∷◌, ◌++◌, Text, filter, update_where, All,
  arith, ◌==◌, nat_eq, option_eq, option_beq_iff, ok,
}
use early_warning_system.Models.{AdminUser, AlertRule, SqlDataSource, DateTime}
use early_warning_system.Database.{Db}
use early_warning_system.Outside.{Outside}
use early_warning_system.SqlValidator.{SqlGlot}
use early_warning_system.Settings.Sources.{
  SourceForm, create_sql_server_settings, update_sql_server_settings, delete_sql_server_settings,
}
use early_warning_system.Rules.Values.{Json}
use early_warning_system.Rules.{
  RuleTools, RuleForm, RuleValues, new_rule, values_of, updated_rule, archived_rule,
}
use early_warning_system.Rules.Validation.{
  CheckedForm, validate_rule_form, submitted_rule_form, form_values,
}
use early_warning_system.Rules.Pages.{create_rule, update_rule, archive_rule}
use early_warning_system.Rules.Transfer.{import_rules_json}
use early_warning_system.Rules.Sound.{has_source, IsRunnable, validate_rule_form-IsRunnable}

abbrev pub AllRunnable : SqlGlot → RuleTools → List SqlDataSource → List AlertRule → Type 0
AllRunnable glot tools sources rules = All (λ r. IsRunnable glot tools sources (values_of r)) rules

pub data AdminAction : Type 0 where
  create_rule_by : RuleForm → AdminAction
  update_rule_by : ℕ → RuleForm → AdminUser → AdminAction
  archive_rule_of : ℕ → AdminAction
  import_file : List ℕ → AdminAction
  create_source_by : SourceForm → AdminAction
  update_source_by : ℕ → SourceForm → AdminAction
  delete_source_of : ℕ → AdminAction

-- the parameters of the pages
pub record PageTools : Type 0 where
  pub rule_tools : RuleTools
  pub load : List ℕ → Option Json
  pub encrypt : Text → Text
  pub by_name : List AlertRule → List AlertRule

-- the database that an action leaves, and the outside world
unfoldable pub perform : {W : Type 0} → Outside W → PageTools → AdminAction → Db → W → Db × W
perform out t (create_rule_by form) db w =
    let (_reply, db', w') = create_rule out t.rule_tools form db w in (db', w')
perform out t (update_rule_by id form admin) db w =
    let (_reply, db', w') = update_rule out t.rule_tools id form admin db w in (db', w')
perform out t (archive_rule_of id) db w =
    let (_reply, db', w') = archive_rule out t.rule_tools id db w in (db', w')
perform out t (import_file file) db w =
    let (_reply, db', w') = import_rules_json out t.rule_tools t.load file db w in (db', w')
perform out t (create_source_by form) db w =
    let (_reply, db', w') =
      create_sql_server_settings out t.rule_tools.python.parse_int t.encrypt form db w in
    (db', w')
perform out t (update_source_by id form) db w =
    let (_reply, db', w') =
      update_sql_server_settings out t.rule_tools.python.parse_int t.encrypt id form db w in
    (db', w')
perform out t (delete_source_of id) db w =
    let (_reply, db', w') =
      delete_sql_server_settings out t.rule_tools.python.parse_int t.encrypt t.by_name id db w in
    (db', w')

unfoldable pub perform_all :
    {W : Type 0} → Outside W → PageTools → List AdminAction → Db → W → Db × W
unfolding perform
perform_all out t [] db w = (db, w)
perform_all out t (a ∷ rest) db w =
    let (db', w') = perform out t a db w in perform_all out t rest db' w'

module _ (glot : SqlGlot) (tools : RuleTools) where
  -- a rule stays runnable with other sources that have its own
  pub moved-IsRunnable :
      (sources sources' : List SqlDataSource) (v : RuleValues)
      → has_source sources' v.data_source_id ≡ true
      → IsRunnable glot tools sources v
      → IsRunnable glot tools sources' v
  moved-IsRunnable sources sources' v there h = record {
    query = h.query;
    cron = h.cron;
    source = there;
    timeout_low = h.timeout_low;
    timeout_high = h.timeout_high;
    rows_low = h.rows_low;
    rows_high = h.rows_high;
    addressed = h.addressed;
    per_row = h.per_row;
    keyed = h.keyed;
    window = h.window;
  }

  pub archived-IsRunnable :
      (sources : List SqlDataSource) (now : DateTime) (r : AlertRule)
      → IsRunnable glot tools sources (values_of r)
      → IsRunnable glot tools sources (values_of (archived_rule now r))
  unfolding values_of archived_rule
  archived-IsRunnable sources now r h = record {
    query = h.query;
    cron = h.cron;
    source = h.source;
    timeout_low = h.timeout_low;
    timeout_high = h.timeout_high;
    rows_low = h.rows_low;
    rows_high = h.rows_high;
    addressed = h.addressed;
    per_row = h.per_row;
    keyed = h.keyed;
    window = h.window;
  }

  pub new-IsRunnable :
      (sources : List SqlDataSource) (id : ℕ) (v : RuleValues) (created updated : DateTime)
      → IsRunnable glot tools sources v
      → IsRunnable glot tools sources (values_of (new_rule id v created updated))
  unfolding values_of new_rule
  new-IsRunnable sources id v created updated h = h

  pub updated-IsRunnable :
      (db : Db) (form : RuleForm) (c : CheckedForm) (notes : Text) (now : DateTime) (r : AlertRule)
      → validate_rule_form glot tools db (submitted_rule_form form) ≡ ok c
      → IsRunnable glot tools db.data_sources
          (values_of (updated_rule (form_values form c notes) now r))
  unfolding values_of updated_rule form_values
  updated-IsRunnable db form c notes now r h =
      validate_rule_form-IsRunnable glot tools db form c r.notes h

pub has_source-append :
    (sources more : List SqlDataSource) (id : ℕ)
    → has_source sources id ≡ true
    → has_source (sources ++ more) id ≡ true
unfolding has_source
has_source-append [] more id h = cc
has_source-append (s ∷ sources) more id h = ground (arith, has_source-append sources more id)

pub has_source-update :
    (p : SqlDataSource → Bool) (f : SqlDataSource → SqlDataSource) (sources : List SqlDataSource)
    (id : ℕ)
    → ((s : SqlDataSource) → (f s).id ≡ s.id)
    → has_source sources id ≡ true
    → has_source (update_where p f sources) id ≡ true
unfolding has_source
has_source-update p f [] id same h = cc
has_source-update p f (s ∷ sources) id same h =
    ground (arith, same s, has_source-update p f sources id same)

pub has_source-delete :
    (gone : ℕ) (sources : List SqlDataSource) (id : ℕ)
    → id ≢ gone
    → has_source sources id ≡ true
    → has_source (filter (λ s. not (s.id == some gone)) sources) id ≡ true
unfolding has_source
has_source-delete gone [] id other h = cc
has_source-delete gone (s ∷ sources) id other h = ground (
  arith,
  option_beq_iff s.id (some gone),
  option_beq_iff s.id (some id),
  has_source-delete gone sources id other,
)
