-- ===== src/Tests/Previewing.antt =====
-- Runs of the preview of a query of app/routes.py.
use early_warning_system.Prelude.{
  ◌≡◌, ◌≤◌, refl, List, [], ◌∷◌, codes, length, strip, decimal, decimal_rounds,
}
use early_warning_system.TemplateRenderer.{Row, Cell}
use early_warning_system.SqlValidator.{
  validate_select_sql, check_tokens, misplaced_terminator, terminators, check_statements,
  check_nodes, check_node,
}
use early_warning_system.SqlValidator.ReadOnly.{Passed}
use early_warning_system.SqlClient.{query, rows_from_cursor_limited, rows_of, zip_strict}
use early_warning_system.Settings.{parse_bounded_int, bounded, validate_bounded_int}
use early_warning_system.Rules.Queries.{
  shown, shown_rows, column_names, source_for_sql, with_client, preview_arguments, preview_rule_sql,
  validate_sql_connection_values,
}
use early_warning_system.Rules.Queries.Shown.{preview_rule_sql-Passed}
use early_warning_system.Tests.World.{glot, out, select_one}
use early_warning_system.Tests.Managing.{python, db}

abbrev rows : List Row
rows =
    ((codes "id", Cell.value (codes "7")) ∷ (codes "mail", Cell.value (codes "a@b.c")) ∷ [])
    ∷ ((codes "id", Cell.value (codes "8")) ∷ (codes "mail", Cell.null) ∷ [])
    ∷ []

previewed :
    (preview_rule_sql out python.parse_int (codes "1") select_one (codes "30") db 0).0
    ≡ shown (codes "查询成功，返回 2 行预览结果") (codes "id" ∷ codes "mail" ∷ []) rows
unfolding preview_rule_sql preview_arguments source_for_sql with_client parse_bounded_int bounded
    validate_bounded_int validate_sql_connection_values query validate_select_sql strip check_tokens
    terminators misplaced_terminator check_statements check_nodes check_node
    rows_from_cursor_limited rows_of zip_strict shown_rows column_names decimal decimal_rounds
previewed = refl

preview_rule_sql-Passed_example : Passed glot select_one × (length rows ≤ 5)
preview_rule_sql-Passed_example =
    preview_rule_sql-Passed out python.parse_int (codes "1") select_one (codes "30") db 0
      (codes "查询成功，返回 2 行预览结果") (codes "id" ∷ codes "mail" ∷ []) rows previewed
