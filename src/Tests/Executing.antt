-- ===== src/Tests/Executing.antt =====
-- Runs of app/executor.py, app/mailer.py, app/sql_client.py and app/sql_validator.py.
use early_warning_system.Prelude.{
  ℕ, Text, Result, ◌≡◌, refl, none, some, List, [], ◌∷◌, ◌++◌, codes, All, strip, length, split,
  if◌then◌else◌, ◌==◌, ok,
}
use early_warning_system.Models.{SendMode, send_mode_eq}
use early_warning_system.Mailer.{send, EmailMessage, MailSendResult}
use early_warning_system.TemplateRenderer.{Row, render_per_row, render_parts, render}
use early_warning_system.SqlValidator.{
  validate_select_sql, check_tokens, terminators, misplaced_terminator, check_statements,
  check_nodes, check_node,
}
use early_warning_system.SqlValidator.ReadOnly.{Passed, validate_select_sql-Passed}
use early_warning_system.SqlClient.{query, odbc_brace_escape}
use early_warning_system.SqlClient.Escaping.{read_braced, read_braced-odbc_brace_escape}
use early_warning_system.Executor.{
  RowFilter, execute, build_messages, row_messages, row_message, parse_recipients, row_recipients,
  cell_recipients,
}
use early_warning_system.Errors.{Error}
use early_warning_system.Executor.Outcome.{IsCoherent}
use early_warning_system.Executor.Delivered.{IsAccounted, execute-IsAccounted}
use early_warning_system.Executor.Recipients.{IsAddressed, build_messages-IsAddressed}
use early_warning_system.Tests.World.{select_one, glot, jinja, run, client, connection, rule, rows}

abbrev asked : Text → ℕ → ℕ → ℕ → Result Error (List Row) × ℕ
asked = query glot run connection

abbrev mailed : EmailMessage → ℕ → Result Error MailSendResult × ℕ
mailed = send client (codes "robot@b.c")

abbrev no_filter : RowFilter Unit
no_filter = none

execute-IsAccounted_example :
    IsCoherent (execute glot jinja asked mailed rule no_filter tt 0).0
    × IsAccounted glot jinja asked mailed rule no_filter tt 0
        (execute glot jinja asked mailed rule no_filter tt 0).0
        (execute glot jinja asked mailed rule no_filter tt 0).2
execute-IsAccounted_example = execute-IsAccounted glot jinja asked mailed rule no_filter tt 0

abbrev message : EmailMessage
message = record {
  recipients = codes "x@b.c" ∷ codes "no@b.c" ∷ [];
  cc_recipients = [];
  subject = codes "low";
  html_body = codes "body";
}

abbrev messages : List EmailMessage
messages = message ∷ message ∷ message ∷ message ∷ []

built : build_messages jinja rule rows ≡ ok messages
unfolding build_messages row_messages row_message render_per_row render_parts render
    parse_recipients strip split row_recipients cell_recipients
built = refl

build_messages-IsAddressed_example :
    All IsAddressed messages
    × (length messages ≡ (if rule.send_mode == SendMode.summary then 1 else length rows))
build_messages-IsAddressed_example = build_messages-IsAddressed jinja rule rows messages built

select_one-valid : validate_select_sql glot select_one ≡ ok tt
unfolding validate_select_sql strip check_tokens terminators misplaced_terminator check_statements
    check_nodes check_node
select_one-valid = refl

validate_select_sql-Passed_example : Passed glot select_one
validate_select_sql-Passed_example = validate_select_sql-Passed glot select_one select_one-valid

read_braced-odbc_brace_escape_example :
    read_braced (odbc_brace_escape (codes "p};SERVER=x") ++ (b';' ∷ codes "Encrypt=yes"))
    ≡ some (codes "p};SERVER=x", b';' ∷ codes "Encrypt=yes")
read_braced-odbc_brace_escape_example =
    read_braced-odbc_brace_escape (codes "p};SERVER=x") (codes "Encrypt=yes")
