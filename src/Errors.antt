-- ===== src/Errors.antt =====
-- The exceptions that cross the program's components. One of a library is its class name, its text
-- and, for `pyodbc.Error`, its first argument where that is a string.
use early_warning_system.Prelude.{
  ℕ, Bool, ◌&&◌, ◌||◌, Option, some, [], Text, codes, all, length, leb, ◌==◌, nat_eq, if◌then◌else◌,
  is_empty,
}

pub data Error : Type 0 where
  configuration_error : Text → Error
  value_error : Text → Error
  runtime_error : Text → Error
  sql_validation_error : Text → Error
  template_render_error : Text → Error
  overflow_error : Error
  rule_not_found : ℕ → Error
  rule_in_progress : ℕ → Error
  foreign : Text → Text → Option Text → Error

-- `type(exc).__name__`
unfoldable pub type_name : Error → Text
type_name (configuration_error _) = codes "ConfigurationError"
type_name (value_error _) = codes "ValueError"
type_name (runtime_error _) = codes "RuntimeError"
type_name (sql_validation_error _) = codes "SqlValidationError"
type_name (template_render_error _) = codes "TemplateRenderError"
type_name overflow_error = codes "OverflowError"
type_name (rule_not_found _) = codes "RuleNotFoundError"
type_name (rule_in_progress _) = codes "RuleExecutionInProgressError"
type_name (foreign name _ _) = name

-- `str(exc)`; of the last two own classes no caller reads it
unfoldable pub text_of : Error → Text
text_of (configuration_error m) = m
text_of (value_error m) = m
text_of (runtime_error m) = m
text_of (sql_validation_error m) = m
text_of (template_render_error m) = m
text_of overflow_error = codes "date value out of range"
text_of (rule_not_found _) = []
text_of (rule_in_progress _) = []
text_of (foreign _ m _) = m

-- app/executor.py: `_exception_message`
unfoldable pub exception_message : Error → Text
unfolding type_name text_of
exception_message e = let m = text_of e in if is_empty m then type_name e else m

-- app/sql_client.py: `odbc_sqlstate`
unfoldable pub is_sqlstate : Text → Bool
is_sqlstate s =
    (length s == 5) && all (λ c. (leb b'A' c && leb c b'Z') || (leb b'0' c && leb c b'9')) s

unfoldable pub odbc_sqlstate : Error → Text
unfolding is_sqlstate
odbc_sqlstate (foreign _ _ (some state)) = if is_sqlstate state then state else []
odbc_sqlstate _ = []

-- app/error_reporting.py: `public_error_summary`
unfoldable pub public_error_summary : Error → Text → Text
public_error_summary e fallback = fallback
