-- ===== src/ExecutionService/Attempt.antt =====
-- app/execution_service.py: one attempt, and the filter that suppresses duplicates.
use early_warning_system.Prelude.{
  ℕ, ◌-◌, ◌*◌, Bool, true, false, not, ◌&&◌, ◌||◌, Option, none, some, List, [], ◌∷◌, ◌++◌, Text,
  codes, any, filter, find, get, is_empty, strip, ◌==◌, option_eq, text_eq, ltb, leb, if◌then◌else◌,
  Result, ok, raise, ◌>>=◌,
}
use early_warning_system.Models.{
  DateTime, AlertRule, AlertSuppression, SqlDataSource, SmtpConfig, ExecutionStatus,
}
use early_warning_system.Errors.{
  Error, configuration_error, overflow_error, type_name, public_error_summary,
}
use early_warning_system.Database.{Db, get_data_source}
use early_warning_system.Outside.{Outside}
use early_warning_system.Mailer
use early_warning_system.SqlClient.{Connection, query}
use early_warning_system.TemplateRenderer.{Row, Cell, null, value}
use early_warning_system.Executor.{ExecutionResult, RowFilter, plain_result, execute}

abbrev pub rule_execution_failure : Text
rule_execution_failure = codes "规则执行失败，请检查数据源和 SMTP 配置"

-- what is stored of a run's suppressed and new keys
pub record SuppressionState : Type 0 where
  pub new_keys : List Text
  pub suppressed_keys : List Text
  pub now : DateTime

pub record ExecutionAttempt : Type 0 where
  pub result : ExecutionResult
  pub suppression_state : Option SuppressionState

-- the variables that `filter_rows` changes
pub record FilterState : Type 0 where
  pub seen_in_run : List Text
  pub new_keys : List Text
  pub suppressed_keys : List Text

abbrev pub no_keys : FilterState
no_keys = record { seen_in_run = []; new_keys = []; suppressed_keys = [] }

-- `_row_suppression_key`, on the cell of the field
unfoldable pub cell_key : Option Cell → Text
cell_key none = []
cell_key (some null) = []
cell_key (some (value t)) = strip t

unfoldable pub row_suppression_key : Row → Text → Text
row_suppression_key row field_name = cell_key (get field_name row)

-- `_get_suppression_record`
unfoldable pub get_suppression_record :
    List AlertSuppression → Option ℕ → Text → Option AlertSuppression
get_suppression_record rows rule_id key =
    find (λ s. (s.rule_id == rule_id) && (s.suppression_key == key)) rows

-- `suppression is not None and suppression.last_seen_at >= cutoff`
unfoldable pub seen_since : DateTime → Option AlertSuppression → Bool
seen_since cutoff none = false
seen_since cutoff (some s) = leb cutoff s.last_seen_at

module _ (suppressions : List AlertSuppression) (rule : AlertRule) (cutoff : DateTime) where
  unfoldable pub is_recent : Text → Bool
  is_recent key = seen_since cutoff (get_suppression_record suppressions rule.id key)

  -- one round of `filter_rows`: whether the row is kept, and the state
  unfoldable pub filter_row : FilterState → Row → Bool × FilterState
  filter_row s row =
      let key = row_suppression_key row rule.suppression_key_field in
      if is_empty key
      then (true, s)
      else if any (λ k. k == key) s.seen_in_run || is_recent key
      then (false, record s { suppressed_keys = s.suppressed_keys ++ key ∷ [] })
      else (true, record s { seen_in_run = key ∷ s.seen_in_run; new_keys = s.new_keys ++ key ∷ [] })

  -- `filter_rows`
  unfoldable pub filter_rows : FilterState → List Row → List Row × FilterState
  filter_rows s [] = ([], s)
  filter_rows s (row ∷ rest) =
      let (keep, s') = filter_row s row in
      let (rows, s'') = filter_rows s' rest in (if keep then row ∷ rows else rows, s'')

-- `_get_enabled_data_source`
unfoldable pub get_enabled_data_source : Db → AlertRule → Result Error SqlDataSource
get_enabled_data_source db rule = elim (get_data_source db rule.data_source_id) [
  | none ↦ raise (configuration_error (codes "规则关联的数据源不存在"))
  | some source ↦
      if not source.enabled then raise (configuration_error (codes "规则关联的数据源已禁用")) else ok source
]

unfoldable pub single_config : List SmtpConfig → Result Error SmtpConfig
single_config [] = raise (configuration_error (codes "未配置可用的 SMTP 服务"))
single_config (c ∷ []) = ok c
single_config (c ∷ d ∷ rest) = raise (configuration_error (codes "启用的 SMTP 配置冲突"))

-- `_get_enabled_smtp_config`
unfoldable pub get_enabled_smtp_config : Db → Result Error SmtpConfig
unfolding single_config
get_enabled_smtp_config db = single_config (filter (λ c. c.enabled) db.smtp_configs)

-- `build_sql_client`: the arguments of the client
unfoldable pub build_connection : SqlDataSource → Text → Connection
build_connection source password = record {
  host = source.host;
  port = source.port;
  database = source.database;
  username = source.username;
  password = password;
  connect_timeout_seconds = source.connect_timeout_seconds;
  odbc_driver = source.odbc_driver;
  server_override = source.server_override;
  encrypt = source.encrypt;
  trust_server_certificate = source.trust_server_certificate;
  extra_params = source.extra_params;
}

-- the handlers of `_execute_rule_once`
unfoldable pub setup_failure : Error → ExecutionResult
setup_failure (configuration_error m) = record (plain_result ExecutionStatus.failed) {
  error_type = codes "ConfigurationError";
  error_message = some m;
}
setup_failure e = record (plain_result ExecutionStatus.failed) {
  error_type = type_name e;
  error_message = some (public_error_summary e rule_execution_failure);
}

abbrev pub uses_suppression : AlertRule → Bool
uses_suppression rule = rule.suppress_duplicates && not (is_empty rule.suppression_key_field)

-- `timedelta(hours=...)`
abbrev pub hours : ℕ → ℕ
hours n = n * 3600000000

-- the cutoff of `_build_suppression_filter`; a date before `datetime.min` is an `OverflowError`
unfoldable pub suppression_cutoff : AlertRule → DateTime → Result Error DateTime
suppression_cutoff rule now =
    let window = hours rule.suppression_window_hours in
    if ltb now window then raise overflow_error else ok (now - window)

-- what a run needs: the filter with the time of the run, the data source and the mail server, with
-- their passwords
pub record Setup : Type 0 where
  pub filter_from : Option (DateTime × DateTime)
  pub source : SqlDataSource
  pub source_password : Text
  pub config : SmtpConfig
  pub config_password : Text

module _ {W : Type 0} (out : Outside W) (db : Db) (rule : AlertRule) where
  -- `_build_suppression_filter`: the cutoff and the time, or `none`
  unfoldable pub suppression_times : W → Result Error (Option (DateTime × DateTime)) × W
  suppression_times w =
      if not (uses_suppression rule)
      then (ok none, w)
      else let (now, w') = out.now w in
        (suppression_cutoff rule now >>= λ cutoff. ok (some (cutoff, now)), w')

  unfoldable pub passwords :
      SqlDataSource → SmtpConfig → Option (DateTime × DateTime) → Result Error Setup
  passwords source config times = do
    source_password ← out.decrypt source.encrypted_password
    config_password ← out.decrypt config.encrypted_password
    ok (record {
      filter_from = times;
      source = source;
      source_password = source_password;
      config = config;
      config_password = config_password;
    })

  -- the statements of `_execute_rule_once` before the executor runs
  unfoldable pub prepare : W → Result Error Setup × W
  prepare w = elim (get_enabled_data_source db rule) [
    | raise e ↦ (raise e, w)
    | ok source ↦ elim (get_enabled_smtp_config db) [
      | raise e ↦ (raise e, w)
      | ok config ↦ let (times, w') = suppression_times w in (times >>= passwords source config, w')
    ]
  ]

  unfoldable pub row_filter_of : Option (DateTime × DateTime) → RowFilter FilterState
  row_filter_of none = none
  row_filter_of (some (cutoff, now)) = some (filter_rows db.suppressions rule cutoff)

  unfoldable pub suppression_state_of :
      Option (DateTime × DateTime) → FilterState → Option SuppressionState
  suppression_state_of none s = none
  suppression_state_of (some (cutoff, now)) s =
      some (record { new_keys = s.new_keys; suppressed_keys = s.suppressed_keys; now = now })

  -- the executor's run
  unfoldable pub execute_prepared : Setup → W → ExecutionAttempt × W
  execute_prepared setup w =
      let connection = build_connection setup.source setup.source_password in
      let client = out.smtp setup.config setup.config_password in
      let (r, s, w') =
        execute out.glot out.jinja (query out.glot out.run connection)
          (Mailer.send client setup.config.sender) rule (row_filter_of setup.filter_from) no_keys
          w in
      (record { result = r; suppression_state = suppression_state_of setup.filter_from s }, w')

  -- `_execute_rule_once`
  unfoldable pub execute_rule_once : W → ExecutionAttempt × W
  execute_rule_once w =
      let (prepared, w') = prepare w in
      elim prepared [
        | raise e ↦ (record { result = setup_failure e; suppression_state = none }, w')
        | ok setup ↦ execute_prepared setup w'
      ]
