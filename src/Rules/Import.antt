-- ===== src/Rules/Import.antt =====
-- app/routes.py: `_build_imported_rules` and the readers of its fields.
use early_warning_system.Prelude.{
  ℕ, suc, Bool, true, false, not, ◌&&◌, Option, none, some, List, [], ◌∷◌, ◌++◌, Text, codes,
  length, get, put, is_empty, strip, decimal, ◌==◌, nat_eq, text_eq, option_eq, ltb, if◌then◌else◌,
  Result, ok, raise, ◌>>=◌, ◌>>◌,
}
use early_warning_system.Models.{SendMode, send_mode_eq, SqlDataSource}
use early_warning_system.Errors.{Error, value_error, foreign, text_of}
use early_warning_system.Database.{Db}
use early_warning_system.SqlValidator.{SqlGlot, validate_select_sql}
use early_warning_system.Settings.{Integer, negative, natural, validate_bounded_int}
use early_warning_system.Rules.Values.{
  Python, Json, JsonDict, object, array, boolean, integer, text, IntResult, int, no_int, too_large,
  get_field, get_field_or, items, int_of, equals_one, truth, text_or_str,
}
use early_warning_system.Rules.{RuleTools, RuleValues, send_mode_of_text, has_recipient_text}

abbrev pub max_rule_import_bytes : ℕ
max_rule_import_bytes = 1048576

abbrev pub max_imported_rules : ℕ
max_imported_rules = 500

abbrev pub overflow : Error
overflow = foreign (codes "OverflowError") (codes "cannot convert float infinity to integer") none

-- `第 {index} 条规则` in front of a message
unfoldable pub in_rule : ℕ → Text → Error
in_rule index message = value_error (codes "第 " ++ (decimal index ++ (codes " 条规则" ++ message)))

-- a test that raises
abbrev pub raise_if : Bool → Error → Result Error (Unit {0})
raise_if true e = raise e
raise_if false e = ok tt

abbrev pub or_raise : {A : Type 0} → Option A → Error → Result Error A
or_raise none e = raise e
or_raise (some a) e = ok a

-- `_required_import_text`
unfoldable pub required_import_text : Python → JsonDict → Text → ℕ → Text → Result Error Text
required_import_text py rule_data name index label =
    let value = strip (text_or_str py (get_field_or name (text []) rule_data)) in
    if is_empty value then raise (in_rule index (codes "缺少" ++ label)) else ok value

-- `_optional_import_text`
unfoldable pub optional_import_text : Python → JsonDict → Text → Text
optional_import_text py rule_data name = text_or_str py (get_field_or name (text []) rule_data)

-- `_positive_import_int`
unfoldable pub positive_int : ℕ → Text → IntResult → Result Error ℕ
positive_int index label no_int = raise (in_rule index (label ++ codes "必须是正整数"))
positive_int index label too_large = raise overflow
positive_int index label (int negative) = raise (in_rule index (label ++ codes "必须是正整数"))
positive_int index label (int (natural n)) =
    if n == 0 then raise (in_rule index (label ++ codes "必须是正整数")) else ok n

unfoldable pub positive_import_int : Python → JsonDict → Text → ℕ → Text → ℕ → Result Error ℕ
positive_import_int py rule_data name index label default =
    positive_int index label (int_of py (get_field_or name (integer (natural default)) rule_data))

-- `_bounded_import_int`; a number that passes the bounds is not negative
unfoldable pub bounded_natural : ℕ → Option Text → Integer → Result Error ℕ
bounded_natural index (some error) i = raise (in_rule index error)
bounded_natural index none negative = raise (in_rule index [])
bounded_natural index none (natural n) = ok n

unfoldable pub bounded_int : ℕ → Text → ℕ → IntResult → Result Error ℕ
bounded_int index label maximum no_int = raise (in_rule index (label ++ codes "必须是整数"))
bounded_int index label maximum too_large = raise overflow
bounded_int index label maximum (int i) =
    bounded_natural index (validate_bounded_int i label 1 maximum) i

unfoldable pub bounded_import_int : Python → JsonDict → Text → ℕ → Text → ℕ → ℕ → Result Error ℕ
bounded_import_int py rule_data name index label default maximum =
    bounded_int index label maximum
      (int_of py (get_field_or name (integer (natural default)) rule_data))

-- `{source.name: source for source in ...}`
unfoldable pub index_sources :
    List SqlDataSource → List (Text × SqlDataSource) → List (Text × SqlDataSource)
index_sources [] d = d
index_sources (s ∷ rest) d = index_sources rest (put s.name s d)

-- the id of a source in that dictionary; a stored row has one
unfoldable pub id_of_source : Option SqlDataSource → Option ℕ
id_of_source none = none
id_of_source (some s) = s.id

abbrev pub sql_or_raise : ℕ → Result Error (Unit {0}) → Result Error (Unit {0})
sql_or_raise index (ok _) = ok tt
sql_or_raise index (raise e) = raise (in_rule index (codes " SQL 无效：" ++ text_of e))

-- `a or b` on texts
abbrev pub or_text : Text → Text → Text
or_text [] b = b
or_text (c ∷ s) b = c ∷ s

module _ (glot : SqlGlot) (tools : RuleTools) where
  -- one round of the loop of `_build_imported_rules`, on a dictionary
  unfoldable pub build_imported_rule :
      List (Text × SqlDataSource) → ℕ → JsonDict → Result Error RuleValues
  build_imported_rule sources_by_name index d = do
    name ← required_import_text tools.python d (codes "name") index (codes "规则名称")
    data_source_name ←
        required_import_text tools.python d (codes "data_source_name") index (codes "数据源名称")
    data_source_id ←
        or_raise (id_of_source (get data_source_name sources_by_name))
          (in_rule index (codes "的数据源不存在"))
    sql_text ← required_import_text tools.python d (codes "sql_text") index (codes "SQL 查询")
    sql_or_raise index (validate_select_sql glot sql_text)
    cron_expression ←
        required_import_text tools.python d (codes "cron_expression") index (codes "Cron 表达式")
    raise_if (not (tools.is_cron cron_expression)) (in_rule index (codes " Cron 表达式无效"))
    send_mode ←
        or_raise
          (send_mode_of_text
            (or_text (optional_import_text tools.python d (codes "send_mode")) (codes "summary")))
          (in_rule index (codes "发送方式无效"))
    let dynamic_recipient_field =
        strip (optional_import_text tools.python d (codes "dynamic_recipient_field"))
    raise_if (not (is_empty dynamic_recipient_field) && not (send_mode == SendMode.per_row))
        (in_rule index (codes "动态收件人字段仅支持每行一封模式"))
    let recipients = strip (optional_import_text tools.python d (codes "recipients"))
    raise_if (not (has_recipient_text recipients) && is_empty dynamic_recipient_field)
        (in_rule index (codes "缺少收件人或动态收件人字段"))
    query_timeout_seconds ←
        bounded_import_int tools.python d (codes "query_timeout_seconds") index (codes "查询超时时间") 30
          600
    max_rows ← bounded_import_int tools.python d (codes "max_rows") index (codes "最大返回行数") 500 5000
    let suppression_key_field =
        strip (optional_import_text tools.python d (codes "suppression_key_field"))
    suppression_window_hours ←
        positive_import_int tools.python d (codes "suppression_window_hours") index (codes "重复抑制窗口")
          24
    let suppress_duplicates =
        truth tools.python (get_field_or (codes "suppress_duplicates") (boolean false) d)
    raise_if (suppress_duplicates && is_empty suppression_key_field)
        (in_rule index (codes "启用重复抑制时必须填写去重字段"))
    ok (record {
      name = name;
      data_source_id = data_source_id;
      sql_text = sql_text;
      cron_expression = cron_expression;
      recipients = recipients;
      cc_recipients = optional_import_text tools.python d (codes "cc_recipients");
      subject_template = optional_import_text tools.python d (codes "subject_template");
      body_template = optional_import_text tools.python d (codes "body_template");
      send_mode = send_mode;
      query_timeout_seconds = query_timeout_seconds;
      max_rows = max_rows;
      enabled = truth tools.python (get_field_or (codes "enabled") (boolean true) d);
      notes = optional_import_text tools.python d (codes "notes");
      dynamic_recipient_field = dynamic_recipient_field;
      dynamic_cc_field = strip (optional_import_text tools.python d (codes "dynamic_cc_field"));
      suppress_duplicates = suppress_duplicates;
      suppression_key_field = suppression_key_field;
      suppression_window_hours = suppression_window_hours;
    })

  -- a round on a value that may be no dictionary
  unfoldable pub build_imported_value :
      List (Text × SqlDataSource) → ℕ → Json → Result Error RuleValues
  build_imported_value sources index (object d) = build_imported_rule sources index d
  build_imported_value sources index _ = raise (in_rule index (codes "格式无效"))

  -- the loop, from an index on
  unfoldable pub build_from :
      List (Text × SqlDataSource) → ℕ → List Json → Result Error (List RuleValues)
  build_from sources index [] = ok []
  build_from sources index (v ∷ rest) =
      let later = build_from sources (suc index) rest in
      build_imported_value sources index v >>= λ rule. later >>= λ rules. ok (rule ∷ rules)

  unfoldable pub build_list : Db → Option Json → Result Error (List RuleValues)
  build_list db (some (array a)) =
      if ltb max_imported_rules (length (items a))
      then raise (value_error (codes "导入规则数量不能超过 " ++ (decimal max_imported_rules ++ codes " 条")))
      else build_from (index_sources db.data_sources []) 1 (items a)
  build_list db _ = raise (value_error (codes "导入文件格式无效：rules 必须是列表"))

  unfoldable pub is_version_one : Option Json → Bool
  is_version_one none = false
  is_version_one (some v) = equals_one tools.python v

  -- `_build_imported_rules`
  unfoldable pub build_imported_rules : Db → Json → Result Error (List RuleValues)
  build_imported_rules db (object d) =
      if not (is_version_one (get_field (codes "version") d))
      then raise (value_error (codes "导入文件格式无效：仅支持 version 1"))
      else build_list db (get_field (codes "rules") d)
  build_imported_rules db _ = raise (value_error (codes "导入文件格式无效：仅支持 version 1"))
