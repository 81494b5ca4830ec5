-- ===== src/SqlClient/Limits.antt =====
-- What `PyodbcSqlServerClient.query` sends and returns.
use early_warning_system.Prelude.{
  ℕ, ◌≤◌, ◌≡◌, List, [], ◌∷◌, Text, arith, length, take, length-take, ltb, ok, raise, Bool-cases,
  inl, inr, Result-cases, >>=-eq-ok,
}
use early_warning_system.Errors.{Error}
use early_warning_system.SqlValidator.{SqlGlot, validate_select_sql}
use early_warning_system.SqlValidator.ReadOnly.{Passed, validate_select_sql-Passed}
use early_warning_system.TemplateRenderer.{Cell, Row}
use early_warning_system.SqlClient.{
  Cursor, zip_strict, rows_of, rows_from_cursor_limited, Connection, Driver, query,
  connection_string, strip_single_trailing_semicolon,
}

length-rows_of :
    (columns : List Text) (fetched : List (List Cell)) (rows : List Row)
    → rows_of columns fetched ≡ ok rows
    → length rows ≡ length fetched
unfolding rows_of
length-rows_of columns [] rows h = ground arith
length-rows_of columns (r ∷ fetched) rows h = elim (Result-cases (zip_strict columns r [])) [
  | inr (e, failed) ↦ cc (rw (failed, rows_of) at h)
  | inl (row, zipped) ↦ elim (Result-cases (rows_of columns fetched)) [
    | inr (e, failed) ↦ cc (rw (zipped, failed, rows_of) at h)
    | inl (more, later) ↦
        let same = rw (zipped, later, rows_of) at h in
        ground (arith, same, length-rows_of columns fetched more later)
  ]
]

length-rows_from_cursor_limited :
    (cursor : Cursor) (max_rows : ℕ) (rows : List Row)
    → rows_from_cursor_limited cursor max_rows ≡ ok rows
    → length rows ≤ max_rows
unfolding rows_from_cursor_limited
length-rows_from_cursor_limited cursor max_rows rows h = omega (
  arith,
  length-rows_of cursor.columns (take max_rows cursor.fetched) rows h,
  length-take max_rows cursor.fetched,
)

module _ {W : Type 0} (glot : SqlGlot) (run : Driver W) (c : Connection) (sql : Text)
    (timeout_seconds max_rows : ℕ) (w : W) where
  -- A query that returns rows has passed the validator, and returns at most `max_rows` of them.
  pub query-Passed :
      (rows : List Row)
      → (query glot run c sql timeout_seconds max_rows w).0 ≡ ok rows
      → Passed glot sql × (length rows ≤ max_rows)
  unfolding query
  query-Passed rows h = elim (Bool-cases (ltb max_rows 1)) [
    | inl none_asked ↦ cc (rw (none_asked, query) at h)
    | inr some_asked ↦ elim (Result-cases (validate_select_sql glot sql)) [
      | inr (e, refused) ↦ cc (rw (some_asked, refused, query) at h)
      | inl (u, passed) ↦
          let answered = rw (some_asked, passed, query) at h in
          let (cursor, fetched, limited) =
            >>=-eq-ok
              (run (connection_string c) (strip_single_trailing_semicolon sql) timeout_seconds w).0
              (λ cursor. rows_from_cursor_limited cursor max_rows) answered in
          (
            validate_select_sql-Passed glot sql passed,
            length-rows_from_cursor_limited cursor max_rows rows limited,
          )
    ]
  ]

  -- A text that the validator refuses never reaches the driver: the outside world stays as it was.
  pub query-refused :
      (e : Error)
      → validate_select_sql glot sql ≡ raise e
      → (query glot run c sql timeout_seconds max_rows w).1 ≡ w
  unfolding query
  query-refused e h = elim (Bool-cases (ltb max_rows 1)) [
    | inl none_asked ↦ rw (none_asked, query)
    | inr some_asked ↦ rw (some_asked, h, query)
  ]
