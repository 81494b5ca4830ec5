-- ===== src/LogService/Batches.antt =====
-- app/log_service.py: the batches of a CSV export, which go through a table by keyset. A batch is
-- read in a session of its own; here all of them read one state of the table.
pub mod Order
pub mod Complete
use early_warning_system.Prelude.{
  ℕ, zero, suc, max, Bool, true, false, ◌&&◌, ◌||◌, Option, none, some, List, [], ◌∷◌, ◌++◌, filter,
  take, length, ◌==◌, nat_eq, ltb, leb, if◌then◌else◌, Text, map,
}
use early_warning_system.Models.{DateTime, ExecutionLog, MailLog}
use early_warning_system.Database.{Db}
use early_warning_system.LogService.{csv_safe_cell}

abbrev pub csv_export_batch_size : ℕ
csv_export_batch_size = 500

-- the two columns that order an export
pub record Columns (A : Type 0) : Type 0 where
  pub timestamp : A → DateTime
  pub id : A → ℕ

-- a stored row has a key
abbrev pub key_or_zero : Option ℕ → ℕ
key_or_zero none = 0
key_or_zero (some id) = id

abbrev pub execution_columns : Columns ExecutionLog
execution_columns = record { timestamp = λ l. l.started_at; id = λ l. key_or_zero l.id }

abbrev pub mail_columns : Columns MailLog
mail_columns = record { timestamp = λ l. l.sent_at; id = λ l. key_or_zero l.id }

pub record Cursor : Type 0 where
  pub timestamp : DateTime
  pub id : ℕ

module _ {A : Type 0} (c : Columns A) where
  -- `max(id_column)`
  unfoldable pub max_id : List A → Option ℕ
  max_id [] = none
  max_id (x ∷ rest) = elim (max_id rest) [ none ↦ some (c.id x) | some n ↦ some (max (c.id x) n) ]

  -- the condition on the cursor
  unfoldable pub is_below : Cursor → A → Bool
  is_below cursor x =
      ltb (c.timestamp x) cursor.timestamp
      || ((c.timestamp x == cursor.timestamp) && ltb (c.id x) cursor.id)

  abbrev pub is_below_option : Option Cursor → A → Bool
  is_below_option none x = true
  is_below_option (some cursor) x = is_below cursor x

  unfoldable pub cursor_of : A → Cursor
  cursor_of x = record { timestamp = c.timestamp x; id = c.id x }

  -- `ORDER BY timestamp DESC, id DESC`
  unfoldable pub place : A → List A → List A
  place x [] = x ∷ []
  place x (y ∷ rest) =
      let later = place x rest in if is_below (cursor_of x) y then x ∷ y ∷ rest else y ∷ later

  unfoldable pub order_by : List A → List A
  order_by [] = []
  order_by (x ∷ rest) = place x (order_by rest)

  abbrev pub last : A → List A → A
  last x [] = x
  last x (y ∷ rest) = last y rest

  -- one query
  unfoldable pub select_batch : ℕ → ℕ → Option Cursor → List A → List A
  select_batch size newest cursor table =
      take size (order_by (filter (λ x. leb (c.id x) newest && is_below_option cursor x) table))

  -- the loop, at most so many rounds; `none` is running out of them
  unfoldable pub batch_rounds : ℕ → ℕ → List A → ℕ → Option Cursor → Option (List (List A))
  batch_rounds size newest table zero cursor = none
  batch_rounds size newest table (suc rounds) cursor =
      elim (select_batch size newest cursor table) [
        | [] ↦ some []
        | x ∷ rest ↦ elim (batch_rounds size newest table rounds (some (cursor_of (last x rest)))) [
          | none ↦ none
          | some batches ↦ some ((x ∷ rest) ∷ batches)
        ]
      ]

  -- `_iter_log_batches`, with a round for each row and one more
  unfoldable pub iter_log_batches : ℕ → List A → Option (List (List A))
  iter_log_batches size table = elim (max_id table) [
    | none ↦ some []
    | some newest ↦ batch_rounds size newest table (suc (length table)) none
  ]

-- `iter_execution_log_batches`
unfoldable pub iter_execution_log_batches : Db → Option (List (List ExecutionLog))
iter_execution_log_batches db =
    iter_log_batches execution_columns csv_export_batch_size db.execution_logs

-- `iter_mail_log_batches`
unfoldable pub iter_mail_log_batches : Db → Option (List (List MailLog))
iter_mail_log_batches db = iter_log_batches mail_columns csv_export_batch_size db.mail_logs

-- a cell of an export: a string, or a value of another type, by its `str`
pub data CsvCell : Type 0 where
  string : Text → CsvCell
  other : Text → CsvCell

unfoldable pub csv_cell : CsvCell → Text
csv_cell (string t) = csv_safe_cell t
csv_cell (other t) = t

unfoldable pub csv_row : (List Text → Text) → List CsvCell → Text
csv_row writerow cells = writerow (map csv_cell cells)

unfoldable pub csv_rows : (List Text → Text) → List (List (List CsvCell)) → List Text
csv_rows writerow [] = []
csv_rows writerow (batch ∷ rest) = map (csv_row writerow) batch ++ csv_rows writerow rest

-- `stream_csv`: the byte order mark, the headers and the rows; `writerow` is the text that
-- `csv.writer` writes of a row
unfoldable pub stream_csv : (List Text → Text) → List Text → List (List (List CsvCell)) → List Text
stream_csv writerow headers row_batches =
    (65279 ∷ []) ∷ writerow headers ∷ csv_rows writerow row_batches
