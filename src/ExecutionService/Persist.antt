-- ===== src/ExecutionService/Persist.antt =====
-- app/execution_service.py: storing an execution, its mails and its suppression keys in one
-- transaction.
use early_warning_system.Prelude.{
  ℕ, suc, ◌+◌, ◌-◌, ◌/◌, ◌&&◌, Option, none, some, List, [], ◌∷◌, ◌++◌, Text, codes, map, join,
  ◌==◌, option_eq, text_eq, if◌then◌else◌, Result, ok, raise,
}
use early_warning_system.Models.{
  DateTime, AlertRule, AlertSuppression, TriggerType, ExecutionStatus, status_eq, ExecutionLog,
  MailLog, MailStatus,
}
use early_warning_system.Errors.{Error}
use early_warning_system.Database.{Db, above}
use early_warning_system.Outside.{Outside}
use early_warning_system.Mailer.{smtp_send_failure, smtp_partial_failure}
use early_warning_system.ExecutionLock.{database_error}
use early_warning_system.Executor.{ExecutionResult, ExecutionMailResult}
use early_warning_system.ExecutionService.Attempt.{SuppressionState}

abbrev pub or_empty : Option Text → Text
or_empty none = []
or_empty (some t) = t

-- one round of `_persist_suppression_state`: the row of the key is updated, or a new one stored
unfoldable pub store_key :
    Option ℕ → DateTime → Text → List AlertSuppression → List AlertSuppression
store_key rule_id now key [] =
    record {
      rule_id = rule_id;
      suppression_key = key;
      first_seen_at = now;
      last_seen_at = now;
      hit_count = 1;
    }
    ∷ []
store_key rule_id now key (s ∷ rest) =
    let later = store_key rule_id now key rest in
    if (s.rule_id == rule_id) && (s.suppression_key == key)
    then record s { last_seen_at = now; hit_count = s.hit_count + 1 } ∷ rest
    else s ∷ later

unfoldable pub store_keys :
    Option ℕ → DateTime → List Text → List AlertSuppression → List AlertSuppression
store_keys rule_id now [] rows = rows
store_keys rule_id now (key ∷ keys) rows =
    store_keys rule_id now keys (store_key rule_id now key rows)

-- `_persist_suppression_state`
unfoldable pub persist_suppression_state : AlertRule → SuppressionState → Db → Db
persist_suppression_state rule state db = record db {
  suppressions =
      store_keys rule.id state.now (state.new_keys ++ state.suppressed_keys) db.suppressions;
}

-- the condition under which it is called
unfoldable pub persist_keys : AlertRule → ExecutionResult → Option SuppressionState → Db → Db
persist_keys rule r none db = db
persist_keys rule r (some state) db =
    if r.status == ExecutionStatus.success then persist_suppression_state rule state db else db

-- `_build_execution_log`, with the key that the flush gives; the duration is divided exactly, where
-- the code multiplies the seconds as a float and cuts them, which can give a millisecond less
unfoldable pub build_execution_log :
    ℕ → AlertRule → TriggerType → ExecutionResult → DateTime → DateTime → ExecutionLog
build_execution_log id rule trigger r started_at finished_at = record {
  id = some id;
  rule_id = rule.id;
  trigger_type = trigger;
  status = r.status;
  started_at = started_at;
  finished_at = some finished_at;
  row_count = r.row_count;
  email_count = r.mail_count;
  duration_ms = (finished_at - started_at) / 1000;
  error_type = r.error_type;
  error_message = or_empty r.error_message;
}

unfoldable pub mail_status_of : ExecutionMailResult → MailStatus
mail_status_of m =
    if m.result.success
    then MailStatus.success
    else if m.result.partial_success
    then MailStatus.partial_failed
    else MailStatus.failed

unfoldable pub mail_error_of : ExecutionMailResult → Text
mail_error_of m =
    if m.result.success
    then []
    else if m.result.partial_success
    then smtp_partial_failure
    else smtp_send_failure

-- `_build_mail_log`, with the key that the flush gives and the time of its default
unfoldable pub build_mail_log : ℕ → ℕ → DateTime → ExecutionMailResult → MailLog
unfolding mail_status_of mail_error_of
build_mail_log id execution_log_id sent_at m = record {
  id = some id;
  execution_log_id = some execution_log_id;
  recipients = join (codes ",") m.message.recipients;
  cc_recipients = join (codes ",") m.message.cc_recipients;
  subject = m.message.subject;
  status = mail_status_of m;
  error_message = mail_error_of m;
  sent_at = sent_at;
}

module _ {W : Type 0} (out : Outside W) where
  -- the loop over the mail results
  unfoldable pub build_mail_logs : ℕ → ℕ → List ExecutionMailResult → W → List MailLog × W
  build_mail_logs id execution_log_id [] w = ([], w)
  build_mail_logs id execution_log_id (m ∷ rest) w =
      let (sent_at, w') = out.now w in
      let (logs, w'') = build_mail_logs (suc id) execution_log_id rest w' in
      (build_mail_log id execution_log_id sent_at m ∷ logs, w'')

  -- the pending state of `persist_execution_result` when it commits
  unfoldable pub staged :
      AlertRule → ExecutionResult → Option SuppressionState → ExecutionLog → List MailLog → Db → Db
  staged rule r suppression_state log mails db =
      let db' = persist_keys rule r suppression_state db in
      record db' {
        execution_logs = db'.execution_logs ++ log ∷ [];
        mail_logs = db'.mail_logs ++ mails;
      }

  -- `persist_execution_result`
  unfoldable pub persist_execution_result :
      AlertRule
      → TriggerType
      → ExecutionResult
      → Option SuppressionState
      → DateTime
      → DateTime
      → Db
      → W
      → Result Error ExecutionLog × Db × W
  persist_execution_result rule trigger r suppression_state started_at finished_at db w =
      let id = above (map (λ l. l.id) db.execution_logs) in
      let log = build_execution_log id rule trigger r started_at finished_at in
      let (mails, w') =
        build_mail_logs (above (map (λ m. m.id) db.mail_logs)) id r.mail_results w in
      let (committed, w'') = out.commit w' in
      if committed
      then (ok log, staged rule r suppression_state log mails db, w'')
      else (raise database_error, db, w'')
