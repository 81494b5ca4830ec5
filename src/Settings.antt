-- ===== src/Settings.antt =====
-- app/routes.py and app/admin_cli.py: the settings that an admin changes. The session of a request
-- that reaches these pages was let on by `require_admin`; encryption, password hashing and Python's
-- `int` are parameters.
pub mod Password
pub mod Smtp
pub mod Sources
use early_warning_system.Prelude.{
  ℕ, Bool, true, false, not, ◌&&◌, ◌||◌, Option, none, some, List, [], ◌∷◌, ◌++◌, Text, codes, any,
  decimal, ◌==◌, text_eq, ltb, leb, if◌then◌else◌,
}

-- what `int` makes of a text
pub data Integer : Type 0 where
  negative : Integer
  natural : ℕ → Integer

-- `_is_checked`
unfoldable pub is_checked : Option Text → Bool
is_checked none = false
is_checked (some t) = any (λ u. u == t) (codes "on" ∷ codes "true" ∷ codes "1" ∷ [])

unfoldable pub out_of_bounds : Text → ℕ → ℕ → Text
out_of_bounds label minimum maximum =
    label
    ++ (codes "必须在 " ++ (decimal minimum ++ (codes " 至 " ++ (decimal maximum ++ codes " 之间"))))

-- `_validate_bounded_int` of an integer; the bounds are not negative
unfoldable pub validate_bounded_int : Integer → Text → ℕ → ℕ → Option Text
validate_bounded_int negative label minimum maximum = some (out_of_bounds label minimum maximum)
validate_bounded_int (natural n) label minimum maximum =
    if leb minimum n && leb n maximum then none else some (out_of_bounds label minimum maximum)

-- `_parse_bounded_int`: the number, or the error
pub data Parsed : Type 0 where
  accepted : ℕ → Parsed
  rejected : Text → Parsed

unfoldable pub bounded : Integer → Option Text → Parsed
bounded (natural n) none = accepted n
bounded negative none = rejected []
bounded _ (some error) = rejected error

unfoldable pub parse_bounded_int : (Text → Option Integer) → Text → Text → ℕ → ℕ → Parsed
parse_bounded_int parse_int value label minimum maximum = elim (parse_int value) [
  | none ↦ rejected (label ++ codes "必须是整数")
  | some i ↦ bounded i (validate_bounded_int i label minimum maximum)
]

-- two values one after the other; the first error counts
pub data ParsedPair : Type 0 where
  both : ℕ → ℕ → ParsedPair
  neither : Text → ParsedPair

unfoldable pub parse_both : Parsed → Parsed → ParsedPair
parse_both (rejected error) second = neither error
parse_both (accepted n) (rejected error) = neither error
parse_both (accepted n) (accepted m) = both n m

-- `_parse_smtp_values`
unfoldable pub parse_smtp_values : (Text → Option Integer) → Text → Text → ParsedPair
unfolding parse_both
parse_smtp_values parse_int port timeout_seconds =
    parse_both (parse_bounded_int parse_int port (codes "端口") 1 65535)
      (parse_bounded_int parse_int timeout_seconds (codes "SMTP 超时") 1 600)

-- `_parse_sql_connection_values`
unfoldable pub parse_sql_connection_values : (Text → Option Integer) → Text → Text → ParsedPair
unfolding parse_both
parse_sql_connection_values parse_int port connect_timeout_seconds =
    parse_both (parse_bounded_int parse_int port (codes "端口") 1 65535)
      (parse_bounded_int parse_int connect_timeout_seconds (codes "连接超时") 1 600)

-- `_parse_rule_limits`
unfoldable pub parse_rule_limits : (Text → Option Integer) → Text → Text → ParsedPair
unfolding parse_both
parse_rule_limits parse_int query_timeout_seconds max_rows =
    parse_both (parse_bounded_int parse_int query_timeout_seconds (codes "查询超时") 1 600)
      (parse_bounded_int parse_int max_rows (codes "最大行数") 1 5000)
