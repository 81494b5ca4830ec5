-- ===== src/SqlClient.antt =====
-- app/sql_client.py. The ODBC driver is a parameter: what connecting, executing and describing the
-- cursor give.
pub mod Escaping
pub mod Limits
use early_warning_system.Prelude.{
  ℕ, zero, suc, Bool, true, false, not, Option, none, some, List, [], ◌∷◌, ◌++◌, Text, codes, take,
  map, filter, is_empty, concat, split, strip, rstrip, put, ◌==◌, nat_eq, text_eq, ltb,
  if◌then◌else◌, Result, ok, raise, ◌>>=◌, String, decimal,
}
use early_warning_system.Errors.{Error, value_error}
use early_warning_system.SqlValidator.{SqlGlot, validate_select_sql}
use early_warning_system.TemplateRenderer.{Cell, Row}

-- `cursor.description` and the rows that `fetchmany` goes through
pub record Cursor : Type 0 where
  pub columns : List Text
  pub fetched : List (List Cell)

-- `dict(zip(columns, row, strict=True))`
unfoldable pub zip_strict : List Text → List Cell → Row → Result Error Row
zip_strict [] [] row = ok row
zip_strict (c ∷ cs) (v ∷ vs) row = zip_strict cs vs (put c v row)
zip_strict _ _ row = raise (value_error (codes "zip() arguments have different lengths"))

unfoldable pub rows_of : List Text → List (List Cell) → Result Error (List Row)
rows_of columns [] = ok []
rows_of columns (r ∷ rest) = do
  row ← zip_strict columns r []
  rows ← rows_of columns rest
  ok (row ∷ rows)

-- `rows_from_cursor_limited`
unfoldable pub rows_from_cursor_limited : Cursor → ℕ → Result Error (List Row)
unfolding rows_of
rows_from_cursor_limited cursor max_rows = rows_of cursor.columns (take max_rows cursor.fetched)

-- `str.replace("}", "}}")`
unfoldable pub double_braces : Text → Text
double_braces [] = []
double_braces (c ∷ s) = if c == b'}' then c ∷ c ∷ double_braces s else c ∷ double_braces s

-- `odbc_brace_escape`
unfoldable pub odbc_brace_escape : Text → Text
unfolding double_braces
odbc_brace_escape value = b'{' ∷ (double_braces value ++ b'}' ∷ [])

-- `s[:-1]`
unfoldable pub drop_last : Text → Text
drop_last [] = []
drop_last (c ∷ []) = []
drop_last (c ∷ d ∷ s) = c ∷ drop_last (d ∷ s)

unfoldable pub ends_with : ℕ → Text → Bool
ends_with x [] = false
ends_with x (c ∷ []) = c == x
ends_with x (c ∷ d ∷ s) = ends_with x (d ∷ s)

-- `strip_single_trailing_semicolon`
unfoldable pub strip_single_trailing_semicolon : Text → Text
unfolding drop_last ends_with
strip_single_trailing_semicolon sql =
    let stripped = rstrip sql in
    if ends_with b';' stripped then rstrip (drop_last stripped) else stripped

-- `normalize_extra_params`
unfoldable pub normalize_extra_params : Text → Text
normalize_extra_params extra_params =
    let parts = filter (λ p. not (is_empty p)) (map strip (split (λ c. c == b';') extra_params)) in
    concat (map (λ p. p ++ b';' ∷ []) parts)

-- the arguments of `PyodbcSqlServerClient`
pub record Connection : Type 0 where
  pub host : Text
  pub port : ℕ
  pub database : Text
  pub username : Text
  pub password : Text
  pub connect_timeout_seconds : ℕ
  pub odbc_driver : Text
  pub server_override : Text
  pub encrypt : Text
  pub trust_server_certificate : Text
  pub extra_params : Text

unfoldable pub assignment : String → Text → Text
assignment name value = codes name ++ (b'=' ∷ (value ++ b';' ∷ []))

unfoldable pub server_fragment : Connection → Text
unfolding assignment
server_fragment c =
    let override = strip c.server_override in
    if not (is_empty override)
    then assignment "SERVER" (odbc_brace_escape override)
    else assignment "SERVER" (odbc_brace_escape (c.host ++ (b',' ∷ decimal c.port)))

-- the connection string of `PyodbcSqlServerClient.__init__`
unfoldable pub connection_string : Connection → Text
unfolding assignment server_fragment
connection_string c = concat (
    assignment "DRIVER" (odbc_brace_escape c.odbc_driver)
    ∷ server_fragment c
    ∷ assignment "DATABASE" (odbc_brace_escape c.database)
    ∷ assignment "UID" (odbc_brace_escape c.username)
    ∷ assignment "PWD" (odbc_brace_escape c.password)
    ∷ assignment "Encrypt" c.encrypt
    ∷ assignment "TrustServerCertificate" c.trust_server_certificate
    ∷ assignment "Connection Timeout" (decimal c.connect_timeout_seconds)
    ∷ normalize_extra_params c.extra_params
    ∷ [])

-- what the driver does with a connection string, a statement and a timeout, on the outside world
abbrev pub Driver : Type 0 → Type 0
Driver W = Text → Text → ℕ → W → Result Error Cursor × W

module _ {W : Type 0} (glot : SqlGlot) (run : Driver W) where
  -- `PyodbcSqlServerClient.query`
  unfoldable pub query : Connection → Text → ℕ → ℕ → W → Result Error (List Row) × W
  query c sql timeout_seconds max_rows w =
      if ltb max_rows 1
      then (raise (value_error (codes "max_rows must be a positive integer")), w)
      else elim (validate_select_sql glot sql) [
        | raise e ↦ (raise e, w)
        | ok _ ↦
            let (answer, w') =
              run (connection_string c) (strip_single_trailing_semicolon sql) timeout_seconds w in
            (answer >>= λ cursor. rows_from_cursor_limited cursor max_rows, w')
      ]

  -- `PyodbcSqlServerClient.validate_syntax`
  unfoldable pub validate_syntax : Connection → Text → ℕ → W → Result Error (Unit {0}) × W
  validate_syntax c sql timeout_seconds w = elim (validate_select_sql glot sql) [
    | raise e ↦ (raise e, w)
    | ok _ ↦
        let batch =
          codes "SET PARSEONLY ON;\n"
          ++ (strip_single_trailing_semicolon sql ++ codes ";\nSET PARSEONLY OFF;") in
        let (answer, w') = run (connection_string c) batch timeout_seconds w in
        (answer >>= λ _. ok tt, w')
  ]
