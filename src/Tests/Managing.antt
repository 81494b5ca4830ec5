-- ===== src/Tests/Managing.antt =====
-- Runs of the rules, their files and the data sources of app/routes.py.
use early_warning_system.Prelude.{
  ℕ, ap, decimal, of_digits, of_digits-decimal, ◌≡◌, ◌≤◌, refl, true, not, none, some, List, [],
  ◌∷◌, codes, is_empty, strip, split, replace, length, arith, option_eq, nat_eq, ok, All,
}
use early_warning_system.Database.{Db, empty_db}
use early_warning_system.Settings.{natural}
use early_warning_system.Settings.Sources.{SourceForm}
use early_warning_system.Settings.Sources.Names.{IsDistinct}
use early_warning_system.Settings.Sources.Unique.{perform_all-IsDistinct}
use early_warning_system.SqlValidator.{
  validate_select_sql, check_tokens, misplaced_terminator, terminators, check_statements,
  check_nodes, check_node,
}
use early_warning_system.Executor.{parse_recipients}
use early_warning_system.Rules.Values.{Python, no_int}
use early_warning_system.Rules.{RuleTools, RuleForm, values_of, has_recipient_text}
use early_warning_system.Rules.Import.{id_of_source, index_sources}
use early_warning_system.Rules.Transfer.{source_name, active_rules, rule_export_payload}
use early_warning_system.Rules.Sound.{has_source, IsRunnable}
use early_warning_system.Rules.Sound.Actions.{
  AllRunnable, AdminAction, create_rule_by, update_rule_by, archive_rule_of, import_file,
  create_source_by, update_source_by, delete_source_of, PageTools, perform_all,
}
use early_warning_system.Rules.Sound.Preserved.{perform_all-AllRunnable}
use early_warning_system.Rules.Versions.{IsHistory}
use early_warning_system.Rules.Versions.Numbered.{perform_all-IsHistory}
use early_warning_system.Rules.Validation.{
  CheckedForm, validate_rule_form, submitted_rule_form, form_values,
}
use early_warning_system.Rules.Editing.{rule_to_form, rule_to_copy_form}
use early_warning_system.Rules.Editing.Unchanged.{rule_to_form-values_of}
use early_warning_system.Rules.Exportable.{IsExportable}
use early_warning_system.Rules.Addressed.{has_recipient_text-parse_recipients}
use early_warning_system.Tests.World.{rule, source, admin, glot, out, select_one}

-- every text is the number 1
abbrev pub python : Python
python = record {
  parse_int = λ t. some (natural 1);
  truncate = λ t. no_int;
  is_one = λ t. true;
  is_zero = λ t. is_empty t;
  str = λ v. codes "{}";
  isoformat = λ t. codes "2026-01-01T00:00:00";
  dumps = λ d. codes "{}";
  loads = λ t. none;
}

abbrev pub tools : RuleTools
tools = record {
  python = python;
  is_cron = λ t. not (is_empty t);
  invalid_send_mode = λ t. codes "not a valid SendMode";
}

abbrev pub db : Db
db = record empty_db { data_sources = source ∷ []; rules = rule ∷ [] }

abbrev pub form : RuleForm
form = record {
  name = codes "orders";
  data_source_id = codes "1";
  sql_text = select_one;
  cron_expression = codes "0 8 * * *";
  recipients = codes "x@b.c";
  cc_recipients = [];
  subject_template = codes "subject";
  body_template = codes "body";
  send_mode = codes "per_row";
  query_timeout_seconds = codes "1";
  max_rows = codes "1";
  enabled = some (codes "on");
  dynamic_recipient_field = codes " mail ";
  dynamic_cc_field = [];
  suppress_duplicates = some (codes "on");
  suppression_key_field = codes " id ";
  suppression_window_hours = natural 24;
}

abbrev source_form : SourceForm
source_form = record {
  name = codes "orders";
  host = codes "db2";
  port = codes "1433";
  database = codes "orders";
  username = codes "reader";
  password = codes "p";
  enabled = some (codes "on");
  connect_timeout_seconds = codes "10";
  odbc_driver = codes "ODBC Driver 18 for SQL Server";
  server_override = [];
  encrypt = codes "yes";
  trust_server_certificate = none;
  extra_params = [];
}

-- every file is the export of the rules
abbrev pub pages : PageTools
pages = record {
  rule_tools = tools;
  load = λ file. some (rule_export_payload (λ rules. rules) (codes "now") db);
  encrypt = λ t. t;
  by_name = λ rules. rules;
}

-- the second source is created, renamed and deleted; the first one cannot be deleted
abbrev pub actions : List AdminAction
actions =
    create_rule_by form
    ∷ update_rule_by 1 form admin
    ∷ update_rule_by 1 form admin
    ∷ import_file (123 ∷ 125 ∷ [])
    ∷ create_source_by source_form
    ∷ create_source_by source_form
    ∷ update_source_by 2 source_form
    ∷ delete_source_of 2
    ∷ delete_source_of 1
    ∷ archive_rule_of 2
    ∷ []

rule-IsRunnable : IsRunnable glot tools (source ∷ []) (values_of rule)
unfolding values_of has_recipient_text has_source strip split replace validate_select_sql
    check_tokens misplaced_terminator terminators check_statements check_nodes check_node
rule-IsRunnable = record {
  query = refl;
  cron = refl;
  source = refl;
  timeout_low = omega arith;
  timeout_high = omega arith;
  rows_low = omega arith;
  rows_high = omega arith;
  addressed = refl;
  per_row = λ e. cc;
  keyed = λ e. refl;
  window = λ e. omega arith;
}

perform_all-AllRunnable_example :
    AllRunnable glot tools
      (perform_all out pages actions db 0).0.data_sources
      (perform_all out pages actions db 0).0.rules
perform_all-AllRunnable_example =
    perform_all-AllRunnable out pages actions db 0 (rule-IsRunnable, tt)

db-IsHistory : IsHistory db.versions
db-IsHistory rule_id = tt

perform_all-IsHistory_example : IsHistory (perform_all out pages actions db 0).0.versions
perform_all-IsHistory_example = perform_all-IsHistory out pages actions db 0 db-IsHistory

db-IsDistinct : IsDistinct db.data_sources
db-IsDistinct = record { names = λ name. ground arith; keys = λ id. ground arith }

perform_all-IsDistinct_example : IsDistinct (perform_all out pages actions db 0).0.data_sources
perform_all-IsDistinct_example = perform_all-IsDistinct out pages actions db 0 db-IsDistinct

rule-IsExportable : IsExportable glot tools db rule
unfolding strip source_name id_of_source index_sources
rule-IsExportable = record {
  runnable = rule-IsRunnable;
  name = record { stripped = refl; filled = refl };
  sql_text = record { stripped = refl; filled = refl };
  cron_expression = record { stripped = refl; filled = refl };
  recipients = refl;
  dynamic_recipient_field = refl;
  dynamic_cc_field = refl;
  suppression_key_field = refl;
  hours = omega arith;
  source = record { stripped = refl; filled = refl };
  source_id = refl;
}

pub rules-few : length (active_rules (λ rules. rules) db) ≤ 500
unfolding active_rules
rules-few = omega arith

pub rules-IsExportable : All (IsExportable glot tools db) (active_rules (λ rules. rules) db)
unfolding active_rules
rules-IsExportable = (rule-IsExportable, tt)

has_recipient_text-parse_recipients_example :
    has_recipient_text (codes " ; x@b.c") ≡ not (is_empty (parse_recipients (codes " ; x@b.c")))
has_recipient_text-parse_recipients_example = has_recipient_text-parse_recipients (codes " ; x@b.c")

-- reading numbers as they are written
abbrev reading : RuleTools
reading = record tools {
  python = record python { parse_int = λ t. some (natural (of_digits 0 t)) };
}

reading-decimal : (n : ℕ) → reading.python.parse_int (decimal n) ≡ some (natural n)
reading-decimal n = ap (λ m. some (natural m)) (of_digits-decimal n)

read_rule-IsRunnable : IsRunnable glot reading (source ∷ []) (values_of rule)
read_rule-IsRunnable = record {
  query = rule-IsRunnable.query;
  cron = rule-IsRunnable.cron;
  source = rule-IsRunnable.source;
  timeout_low = rule-IsRunnable.timeout_low;
  timeout_high = rule-IsRunnable.timeout_high;
  rows_low = rule-IsRunnable.rows_low;
  rows_high = rule-IsRunnable.rows_high;
  addressed = rule-IsRunnable.addressed;
  per_row = rule-IsRunnable.per_row;
  keyed = rule-IsRunnable.keyed;
  window = rule-IsRunnable.window;
}

rule_to_form-values_of_example :
    (c : CheckedForm) × (validate_rule_form glot reading db
        (submitted_rule_form (rule_to_form rule))
      ≡ ok c)
    × (form_values (rule_to_form rule) c [] ≡ values_of rule)
    × (validate_rule_form glot reading db (submitted_rule_form (rule_to_copy_form rule)) ≡ ok c)
    × (form_values (rule_to_copy_form rule) c []
        ≡ record (values_of rule) { name = codes "stock 副本"; enabled = true; notes = [] })
rule_to_form-values_of_example =
    rule_to_form-values_of glot reading reading-decimal db rule read_rule-IsRunnable
      rule-IsExportable.dynamic_recipient_field rule-IsExportable.dynamic_cc_field
      rule-IsExportable.suppression_key_field
