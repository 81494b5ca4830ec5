-- ===== src/Rules/Queries.antt =====
-- app/routes.py: the pages that ask a server or run a rule at once: the check and the preview of a
-- query, the test of a data source, and `run_rule`. What they log is left out.
pub mod Shown
pub mod Busy
use early_warning_system.Prelude.{
  ℕ, Option, none, some, List, [], ◌∷◌, ◌++◌, Text, codes, decimal, is_empty, length, map, Result,
  ok, raise, ◌>>=◌, ◌>>◌,
}
use early_warning_system.Models.{SqlDataSource, TriggerType, ExecutionLog}
use early_warning_system.Errors.{Error, rule_in_progress, text_of, public_error_summary}
use early_warning_system.Database.{Db, get_data_source}
use early_warning_system.Outside.{Outside}
use early_warning_system.TemplateRenderer.{Row}
use early_warning_system.SqlValidator.{SqlGlot, validate_select_sql}
use early_warning_system.SqlClient.{Connection, query, validate_syntax}
use early_warning_system.ExecutionService.{execute_rule_by_id}
use early_warning_system.ExecutionService.Attempt.{build_connection}
use early_warning_system.Settings.{
  Integer, negative, natural, validate_bounded_int, Parsed, accepted, rejected, parse_bounded_int,
}
use early_warning_system.Rules.{get_active_rule}
use early_warning_system.Rules.Validation.{refuse_if, or_refuse}

abbrev pub sql_syntax_failure : Text
sql_syntax_failure = codes "SQL Server 语法检测失败，请检查服务器连接和查询语句"

abbrev pub sql_preview_failure : Text
sql_preview_failure = codes "SQL 查询预览失败，请检查数据源连接和查询语句"

abbrev pub sql_connection_failure : Text
sql_connection_failure = codes "SQL Server 连接失败，请检查服务器、端口、证书和账号配置"

-- `a or b` of two errors
abbrev pub or_else : Option Text → Option Text → Option Text
or_else none second = second
or_else (some error) second = some error

-- `_validate_sql_connection_values`
unfoldable pub validate_sql_connection_values : ℕ → ℕ → Option Text
validate_sql_connection_values port connect_timeout_seconds =
    or_else (validate_bounded_int (natural port) (codes "端口") 1 65535)
      (validate_bounded_int (natural connect_timeout_seconds) (codes "连接超时") 1 600)

abbrev pub refuse_with : Option Text → Result Text (Unit {0})
refuse_with none = ok tt
refuse_with (some error) = raise error

-- `str(exc)` of a `SqlValidationError`
abbrev pub or_text_of : Result Error (Unit {0}) → Result Text (Unit {0})
or_text_of (ok _) = ok tt
or_text_of (raise e) = raise (text_of e)

abbrev pub accepted_or_error : Parsed → Result Text ℕ
accepted_or_error (accepted n) = ok n
accepted_or_error (rejected error) = raise error

-- the source of an integer; the keys of sources are not negative
abbrev pub stored_source : Db → Integer → Option SqlDataSource
stored_source db negative = none
stored_source db (natural id) = get_data_source db id

-- an answer as JSON: success, with what is shown, or a message
pub data QueryReply : Type 0 where
  refused : Text → QueryReply
  passed : Text → QueryReply
  shown : Text → List Text → List Row → QueryReply

-- `list(rows[0].keys()) if rows else []`
unfoldable pub column_names : List Row → List Text
column_names [] = []
column_names (row ∷ rest) = map (λ cell. cell.0) row

unfoldable pub shown_rows : List Row → QueryReply
shown_rows [] = shown (codes "查询成功，暂无结果") [] []
shown_rows (row ∷ rest) =
    shown (codes "查询成功，返回 " ++ (decimal (length (row ∷ rest)) ++ codes " 行预览结果"))
      (column_names (row ∷ rest)) (row ∷ rest)

-- the answers of `test_sql_server_settings`
pub data TestReply : Type 0 where
  not_found : TestReply
  failed : Text → TestReply
  connected : Text → TestReply

-- the answers of `run_rule`
pub data RunReply : Type 0 where
  missing started busy : RunReply

module _ {W : Type 0} (out : Outside W) (parse_int : Text → Option Integer) where
  -- what `validate_rule_sql` and `preview_rule_sql` check before they ask the server
  unfoldable pub source_for_sql : Db → Text → Text → Result Text SqlDataSource
  source_for_sql db data_source_id sql_text = do
    refuse_if (is_empty data_source_id) (codes "请先选择数据源")
    or_text_of (validate_select_sql out.glot sql_text)
    id ← or_refuse (parse_int data_source_id) (codes "请选择有效的数据源")
    source ← or_refuse (stored_source db id) (codes "请选择有效的数据源")
    refuse_with (validate_sql_connection_values source.port source.connect_timeout_seconds)
    ok source

  -- a call of the client that `build_sql_client` makes
  unfoldable pub with_client :
      {A : Type 0} → (Connection → W → Result Error A × W) → SqlDataSource → W → Result Error A × W
  with_client call source w = elim (out.decrypt source.encrypted_password) [
    | raise e ↦ (raise e, w)
    | ok password ↦ call (build_connection source password) w
  ]

  -- `validate_rule_sql`
  unfoldable pub validate_rule_sql : Text → Text → Db → W → QueryReply × W
  validate_rule_sql data_source_id sql_text db w =
      elim (source_for_sql db data_source_id sql_text) [
        | raise error ↦ (refused error, w)
        | ok source ↦
            let (answer, w') =
              with_client
                (λ c. validate_syntax out.glot out.run c sql_text source.connect_timeout_seconds)
                source w in
            elim answer [
              | raise e ↦ (refused (public_error_summary e sql_syntax_failure), w')
              | ok _ ↦ (passed (codes "SQL Server 语法检测通过"), w')
            ]
      ]

  -- what `preview_rule_sql` checks
  unfoldable pub preview_arguments : Db → Text → Text → Text → Result Text (ℕ × SqlDataSource)
  preview_arguments db data_source_id sql_text query_timeout_seconds = do
    timeout ←
        accepted_or_error (parse_bounded_int parse_int query_timeout_seconds (codes "查询超时") 1 600)
    source ← source_for_sql db data_source_id sql_text
    ok (timeout, source)

  -- `preview_rule_sql`
  unfoldable pub preview_rule_sql : Text → Text → Text → Db → W → QueryReply × W
  preview_rule_sql data_source_id sql_text query_timeout_seconds db w =
      elim (preview_arguments db data_source_id sql_text query_timeout_seconds) [
        | raise error ↦ (refused error, w)
        | ok (timeout, source) ↦
            let (answer, w') =
              with_client (λ c. query out.glot out.run c sql_text timeout 5) source w in
            elim answer [
              | raise e ↦ (refused (public_error_summary e sql_preview_failure), w')
              | ok rows ↦ (shown_rows rows, w')
            ]
      ]

  -- the part of `test_sql_server_settings` that asks the server
  unfoldable pub test_connection : SqlDataSource → W → TestReply × W
  test_connection source w =
      let (answer, w') =
        with_client
          (λ c. query out.glot out.run c (codes "select 1 as ok") source.connect_timeout_seconds 1)
          source w in
      elim answer [
        | raise e ↦ (failed sql_connection_failure, w')
        | ok rows ↦ (connected (codes "数据源 " ++ (source.name ++ codes " 连接成功")), w')
      ]

  -- `test_sql_server_settings`
  unfoldable pub test_sql_server_settings : ℕ → Db → W → TestReply × W
  test_sql_server_settings source_id db w = elim (get_data_source db source_id) [
    | none ↦ (not_found, w)
    | some source ↦
        elim (validate_sql_connection_values source.port source.connect_timeout_seconds) [
          | some error ↦ (failed error, w)
          | none ↦ test_connection source w
        ]
  ]

  -- what `run_rule` makes of the execution
  unfoldable pub run_reply : Result Error ExecutionLog × Db × W → Result Error RunReply × Db × W
  run_reply (ok log, db, w) = (ok started, db, w)
  run_reply (raise (rule_in_progress id), db, w) = (ok busy, db, w)
  run_reply (raise e, db, w) = (raise e, db, w)

  -- `run_rule`
  unfoldable pub run_rule : ℕ → ℕ → ℕ → ℕ → Db → W → Result Error RunReply × Db × W
  run_rule lease_seconds max_attempts delay rule_id db w = elim (get_active_rule db rule_id) [
    | none ↦ (ok missing, db, w)
    | some rule ↦
        run_reply
          (execute_rule_by_id out lease_seconds rule_id TriggerType.manual max_attempts delay db w)
  ]
