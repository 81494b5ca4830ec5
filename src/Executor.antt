-- ===== src/Executor.antt =====
-- app/executor.py: `RuleExecutor`. `S` is the state of the row filter, `W` the outside world; the
-- two protocols, the SQL client and the mailer, are parameters.
pub mod Recipients
pub mod Outcome
pub mod Delivered
use early_warning_system.Prelude.{
  ℕ, zero, suc, Bool, true, false, not, ◌&&◌, ◌||◌, Option, none, some, List, [], ◌∷◌, ◌++◌, Text,
  codes, map, filter, count, any, length, is_empty, split, strip, get, ◌==◌, nat_eq, text_eq, ltb,
  if◌then◌else◌, Result, ok, raise, ◌>>=◌,
}
use early_warning_system.Models.{AlertRule, ExecutionStatus, SendMode, send_mode_eq}
use early_warning_system.Errors.{
  Error, value_error, type_name, exception_message, odbc_sqlstate, public_error_summary,
}
use early_warning_system.Mailer.{
  EmailMessage, MailSendResult, sent, smtp_send_failure, smtp_partial_failure,
}
use early_warning_system.TemplateRenderer.{
  Row, Cell, Context, ContextValue, text, number, row_list, Renderer, RenderedMessage, cell_text,
  null, value, render_summary, render_per_row,
}
use early_warning_system.SqlValidator.{SqlGlot, validate_select_sql}

abbrev pub sql_query_failure : Text
sql_query_failure = codes "SQL Server 查询失败，请检查数据源连接和查询配置"

pub record ExecutionMailResult : Type 0 where
  pub message : EmailMessage
  pub result : MailSendResult

pub record ExecutionResult : Type 0 where
  pub status : ExecutionStatus
  pub row_count : ℕ
  pub mail_count : ℕ
  pub error_type : Text
  pub error_message : Option Text
  pub mail_results : List ExecutionMailResult
  pub sqlstate : Text

-- the defaults of `ExecutionResult`
abbrev pub plain_result : ExecutionStatus → ExecutionResult
plain_result status = record {
  status = status;
  row_count = 0;
  mail_count = 0;
  error_type = [];
  error_message = none;
  mail_results = [];
  sqlstate = [];
}

-- `_parse_recipients`
unfoldable pub parse_recipients : Text → List Text
parse_recipients listed =
    filter (λ r. not (is_empty r)) (map strip (split (λ c. (c == b',') || (c == b';')) listed))

-- `_row_recipients`, on the cell of the field
unfoldable pub cell_recipients : Option Cell → List Text
cell_recipients none = []
cell_recipients (some null) = []
cell_recipients (some (value t)) = parse_recipients t

unfoldable pub row_recipients : Row → Text → List Text
unfolding cell_recipients
row_recipients row field_name =
    if is_empty field_name then [] else cell_recipients (get field_name row)

-- `a or b` on lists
abbrev pub or_list : List Text → List Text → List Text
or_list [] ys = ys
or_list (x ∷ xs) ys = x ∷ xs

abbrev pub no_recipients : Error
no_recipients = value_error (codes "recipients must not be empty")

abbrev pub message_of : List Text → List Text → RenderedMessage → EmailMessage
message_of recipients cc_recipients rendered = record {
  recipients = recipients;
  cc_recipients = cc_recipients;
  subject = rendered.subject;
  html_body = rendered.html_body;
}

module _ (jinja : Renderer) (rule : AlertRule) where
  -- the branch of `_build_messages` for SUMMARY
  unfoldable pub summary_messages :
      List Text → List Text → List Row → Context → Result Error (List EmailMessage)
  summary_messages recipients cc rows context =
      if is_empty recipients then raise no_recipients else do
        rendered ← render_summary jinja rule.subject_template rule.body_template rows context
        ok (message_of recipients cc rendered ∷ [])

  -- one round of the loop over the rows
  unfoldable pub row_message : List Text → List Text → Row → Context → Result Error EmailMessage
  row_message fixed fixed_cc row context = do
    rendered ← render_per_row jinja rule.subject_template rule.body_template row context
    let recipients = or_list (row_recipients row rule.dynamic_recipient_field) fixed
    let cc = or_list (row_recipients row rule.dynamic_cc_field) fixed_cc
    if is_empty recipients then raise no_recipients else ok (message_of recipients cc rendered)

  unfoldable pub row_messages :
      List Text → List Text → List Row → Context → Result Error (List EmailMessage)
  row_messages fixed fixed_cc [] context = ok []
  row_messages fixed fixed_cc (row ∷ rest) context = do
    message ← row_message fixed fixed_cc row context
    messages ← row_messages fixed fixed_cc rest context
    ok (message ∷ messages)

  -- `_build_messages`
  unfoldable pub build_messages : List Row → Result Error (List EmailMessage)
  build_messages rows =
      let fixed = parse_recipients rule.recipients in
      let fixed_cc = parse_recipients rule.cc_recipients in
      let context =
        (codes "rule_name", text rule.name)
        ∷ (codes "rows", row_list rows)
        ∷ (codes "row_count", number (length rows))
        ∷ [] in
      if rule.send_mode == SendMode.summary
      then summary_messages fixed fixed_cc rows context
      else row_messages fixed fixed_cc rows context

-- what `_send_message` keeps of a result
unfoldable pub normalize_result : Result Error MailSendResult → MailSendResult
normalize_result (raise e) = record {
  success = false;
  error_message = public_error_summary e smtp_send_failure;
  partial_success = false;
}
normalize_result (ok r) =
    if r.success
    then sent
    else if r.partial_success
    then (record { success = false; error_message = smtp_partial_failure; partial_success = true })
    else (record { success = false; error_message = smtp_send_failure; partial_success = false })

abbrev pub succeeded : ExecutionMailResult → Bool
succeeded m = m.result.success

abbrev pub partly_succeeded : ExecutionMailResult → Bool
partly_succeeded m = m.result.partial_success

-- `_status_for_mail_results`
unfoldable pub status_for_mail_results : List ExecutionMailResult → ExecutionStatus
status_for_mail_results mail_results =
    let successful_count = count succeeded mail_results in
    if successful_count == length mail_results
    then ExecutionStatus.success
    else if (successful_count == 0) && not (any partly_succeeded mail_results)
    then ExecutionStatus.failed
    else ExecutionStatus.partial_failed

-- `_combined_error_message`
unfoldable pub combined_error_message : List ExecutionMailResult → Text
combined_error_message mail_results =
    if any partly_succeeded mail_results
    then smtp_partial_failure
    else if any (λ m. not m.result.success && not (is_empty m.result.error_message)) mail_results
    then smtp_send_failure
    else codes "one or more emails failed"

-- the result that `execute` makes of the sent messages
unfoldable pub mail_outcome : ℕ → List ExecutionMailResult → ExecutionResult
mail_outcome row_count mail_results =
    let successful_count = count succeeded mail_results in
    let has_failure = ltb successful_count (length mail_results) in
    record {
      status = status_for_mail_results mail_results;
      row_count = row_count;
      mail_count = successful_count;
      error_type = if has_failure then codes "MailSendError" else [];
      error_message = if has_failure then some (combined_error_message mail_results) else none;
      mail_results = mail_results;
      sqlstate = [];
    }

unfoldable pub refused_sql : Error → ExecutionResult
refused_sql e = record (plain_result ExecutionStatus.failed) {
  error_type = type_name e;
  error_message = some (exception_message e);
}

unfoldable pub failed_query : Error → ExecutionResult
failed_query e = record (plain_result ExecutionStatus.failed) {
  error_type = type_name e;
  error_message = some (public_error_summary e sql_query_failure);
  sqlstate = odbc_sqlstate e;
}

unfoldable pub failed_messages : ℕ → Error → ExecutionResult
failed_messages row_count e = record (plain_result ExecutionStatus.failed) {
  row_count = row_count;
  error_type = type_name e;
  error_message = some (exception_message e);
}

-- the row filter: `None`, or a function that reads and changes a state
abbrev pub RowFilter : Type 0 → Type 0
RowFilter S = Option (S → List Row → List Row × S)

unfoldable pub apply_filter : {S : Type 0} → RowFilter S → S → List Row → List Row × S
apply_filter none s rows = (rows, s)
apply_filter (some f) s rows = f s rows

module _ {S W : Type 0} (glot : SqlGlot) (jinja : Renderer)
    (query : Text → ℕ → ℕ → W → Result Error (List Row) × W)
    (send : EmailMessage → W → Result Error MailSendResult × W) (rule : AlertRule)
    (row_filter : RowFilter S) where
  -- `_send_message`
  unfoldable pub send_message : EmailMessage → W → ExecutionMailResult × W
  unfolding normalize_result
  send_message message w =
      let (answer, w') = send message w in
      (record { message = message; result = normalize_result answer }, w')

  -- the messages in order
  unfoldable pub send_messages : List EmailMessage → W → List ExecutionMailResult × W
  send_messages [] w = ([], w)
  send_messages (message ∷ rest) w =
      let (r, w') = send_message message w in let (rs, w'') = send_messages rest w' in (r ∷ rs, w'')

  -- `execute` from the filtered rows on
  unfoldable pub deliver_rows : ℕ → List Row → W → ExecutionResult × W
  deliver_rows row_count [] w =
      (record (plain_result ExecutionStatus.success) { row_count = row_count }, w)
  deliver_rows row_count (row ∷ rest) w = elim (build_messages jinja rule (row ∷ rest)) [
    | raise e ↦ (failed_messages row_count e, w)
    | ok messages ↦
        let (mail_results, w') = send_messages messages w in
        (mail_outcome row_count mail_results, w')
  ]

  -- `execute` from the queried rows on
  unfoldable pub filter_and_deliver : List Row → S → W → ExecutionResult × S × W
  filter_and_deliver queried s w =
      let (rows, s') = apply_filter row_filter s queried in
      let (r, w') = deliver_rows (length queried) rows w in (r, s', w')

  -- `execute`
  unfoldable pub execute : S → W → ExecutionResult × S × W
  execute s w = elim (validate_select_sql glot rule.sql_text) [
    | raise e ↦ (refused_sql e, s, w)
    | ok _ ↦
        let (answer, w') = query rule.sql_text rule.query_timeout_seconds rule.max_rows w in
        elim answer [
          | raise e ↦ (failed_query e, s, w')
          | ok queried ↦ filter_and_deliver queried s w'
        ]
  ]
