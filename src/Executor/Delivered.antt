-- ===== src/Executor/Delivered.antt =====
-- What `RuleExecutor.execute` sends and what its result says of each message.
use early_warning_system.Prelude.{
  ℕ, ◌≡◌, ◌≢◌, sym, ◌∙◌, ◌↔◌, refl, true, false, not, ◌&&◌, List, [], ◌∷◌, Text, All, arith, length,
  Result, ok, raise, inl, inr, Result-cases,
}
use early_warning_system.Models.{AlertRule, ExecutionStatus}
use early_warning_system.Errors.{Error}
use early_warning_system.Mailer.{EmailMessage, MailSendResult}
use early_warning_system.TemplateRenderer.{Row, Renderer}
use early_warning_system.SqlValidator.{SqlGlot, validate_select_sql}
use early_warning_system.Executor.{
  ExecutionMailResult, ExecutionResult, succeeded, mail_outcome, build_messages, RowFilter,
  apply_filter, normalize_result, send_message, send_messages, deliver_rows, filter_and_deliver,
  execute, failed_messages, failed_query, refused_sql,
}
use early_warning_system.Executor.Outcome.{
  IsLost, IsCoherent, status_for_mail_results_iff, execute-IsCoherent,
}

-- What a result keeps of the mailer's answer: an exception is a plain failure, a success counts
-- whole, and a partial success is one that was not a success.
abbrev pub Tells : Result Error MailSendResult → MailSendResult → Type 0
Tells (raise e) r = (r.success ≡ false) × (r.partial_success ≡ false)
Tells (ok a) r =
    (r.success ≡ a.success) × (r.partial_success ≡ (not a.success && a.partial_success))

normalize_result-Tells :
    (answer : Result Error MailSendResult) → Tells answer (normalize_result answer)
unfolding normalize_result
normalize_result-Tells (raise e) = (refl, refl)
normalize_result-Tells (ok a) = ground arith

-- The mailer gets the messages one after the other, each once and in order, and the results, each
-- beside its message, tell its answers; `v` is the world after the last one.
abbrev pub IsDelivery :
    {W : Type 0}
    → (EmailMessage → W → Result Error MailSendResult × W)
    → List EmailMessage
    → W
    → List ExecutionMailResult
    → W
    → Type 0
IsDelivery send [] w [] v = v ≡ w
IsDelivery send (m ∷ ms) w (r ∷ rs) v =
    (r.message ≡ m) × Tells (send m w).0 r.result × IsDelivery send ms (send m w).1 rs v
IsDelivery send [] w (r ∷ rs) v = ⊥
IsDelivery send (m ∷ ms) w [] v = ⊥

-- The ways of an execution, each with what the outside world has seen of it.
pub data IsAccounted {S W : Type 0} (glot : SqlGlot) (jinja : Renderer)
    (query : Text → ℕ → ℕ → W → Result Error (List Row) × W)
    (send : EmailMessage → W → Result Error MailSendResult × W) (rule : AlertRule)
    (row_filter : RowFilter S) (s : S) (w : W) (r : ExecutionResult) (v : W) : Type 0 where
  not_valid :
      (e : Error)
      → validate_select_sql glot rule.sql_text ≡ raise e
      → r.status ≡ ExecutionStatus.failed
      → r.mail_results ≡ []
      → v ≡ w
      → IsAccounted glot jinja query send rule row_filter s w r v
  not_answered :
      (e : Error)
      → validate_select_sql glot rule.sql_text ≡ ok tt
      → (query rule.sql_text rule.query_timeout_seconds rule.max_rows w).0 ≡ raise e
      → r.status ≡ ExecutionStatus.failed
      → r.mail_results ≡ []
      → v ≡ (query rule.sql_text rule.query_timeout_seconds rule.max_rows w).1
      → IsAccounted glot jinja query send rule row_filter s w r v
  nothing_to_send :
      (queried : List Row)
      → validate_select_sql glot rule.sql_text ≡ ok tt
      → (query rule.sql_text rule.query_timeout_seconds rule.max_rows w).0 ≡ ok queried
      → (apply_filter row_filter s queried).0 ≡ []
      → r.status ≡ ExecutionStatus.success
      → r.mail_results ≡ []
      → v ≡ (query rule.sql_text rule.query_timeout_seconds rule.max_rows w).1
      → IsAccounted glot jinja query send rule row_filter s w r v
  not_built :
      (queried : List Row) (e : Error)
      → validate_select_sql glot rule.sql_text ≡ ok tt
      → (query rule.sql_text rule.query_timeout_seconds rule.max_rows w).0 ≡ ok queried
      → (apply_filter row_filter s queried).0 ≢ []
      → build_messages jinja rule (apply_filter row_filter s queried).0 ≡ raise e
      → r.status ≡ ExecutionStatus.failed
      → r.mail_results ≡ []
      → v ≡ (query rule.sql_text rule.query_timeout_seconds rule.max_rows w).1
      → IsAccounted glot jinja query send rule row_filter s w r v
  all_tried :
      (queried : List Row) (messages : List EmailMessage)
      → validate_select_sql glot rule.sql_text ≡ ok tt
      → (query rule.sql_text rule.query_timeout_seconds rule.max_rows w).0 ≡ ok queried
      → (apply_filter row_filter s queried).0 ≢ []
      → build_messages jinja rule (apply_filter row_filter s queried).0 ≡ ok messages
      → IsDelivery send messages
          (query rule.sql_text rule.query_timeout_seconds rule.max_rows w).1
          r.mail_results
          v
      → (r.status ≡ ExecutionStatus.success) ↔ All (λ m. succeeded m ≡ true) r.mail_results
      → (r.status ≡ ExecutionStatus.failed) ↔ ((r.mail_results ≢ []) × All IsLost r.mail_results)
      → IsAccounted glot jinja query send rule row_filter s w r v

module _ {S W : Type 0} (glot : SqlGlot) (jinja : Renderer)
    (query : Text → ℕ → ℕ → W → Result Error (List Row) × W)
    (send : EmailMessage → W → Result Error MailSendResult × W) (rule : AlertRule)
    (row_filter : RowFilter S) where
  send_messages-IsDelivery :
      (messages : List EmailMessage) (w : W)
      → IsDelivery send messages w
          (send_messages glot jinja query send rule row_filter messages w).0
          (send_messages glot jinja query send rule row_filter messages w).1
  unfolding send_messages send_message
  send_messages-IsDelivery [] w = refl
  send_messages-IsDelivery (m ∷ ms) w =
      (refl, normalize_result-Tells (send m w).0, send_messages-IsDelivery ms (send m w).1)

  deliver_rows-IsAccounted :
      (queried rows : List Row) (s : S) (w : W)
      → validate_select_sql glot rule.sql_text ≡ ok tt
      → (query rule.sql_text rule.query_timeout_seconds rule.max_rows w).0 ≡ ok queried
      → (apply_filter row_filter s queried).0 ≡ rows
      → IsAccounted glot jinja query send rule row_filter s w
          (deliver_rows glot jinja query send rule row_filter
            (length queried)
            rows
            (query rule.sql_text rule.query_timeout_seconds rule.max_rows w).1).0
          (deliver_rows glot jinja query send rule row_filter
            (length queried)
            rows
            (query rule.sql_text rule.query_timeout_seconds rule.max_rows w).1).1
  unfolding deliver_rows failed_messages mail_outcome
  deliver_rows-IsAccounted queried [] s w passed answered kept =
      nothing_to_send queried passed answered kept refl refl refl
  deliver_rows-IsAccounted queried (row ∷ rest) s w passed answered kept =
      elim (Result-cases (build_messages jinja rule (row ∷ rest))) [
        | inr (e, failed) ↦
            rw (failed, deliver_rows)
              (not_built queried e passed answered (λ empty. cc (sym kept ∙ empty)) (rw kept failed)
                refl refl refl)
        | inl (messages, built) ↦
            let v = (query rule.sql_text rule.query_timeout_seconds rule.max_rows w).1 in
            let k =
              status_for_mail_results_iff
                (send_messages glot jinja query send rule row_filter messages v).0 in
            rw (built, deliver_rows)
              (all_tried queried messages passed answered (λ empty. cc (sym kept ∙ empty))
                (rw kept built) (send_messages-IsDelivery messages v) k.0 k.1)
      ]

  -- Whatever the SQL text, the driver, the filter, the templates and the mailer do: an invalid SQL
  -- text touches nothing, and a failed query or a message that cannot be built leave the world as
  -- the query left it, as does a success without rows to report, which has no message; otherwise
  -- there are rows to report and the mailer gets every message that was built, once and in order,
  -- and the result keeps each of its answers. Such a result is a success exactly when the mailer
  -- reported full success for each message, and a failure exactly when there was a message and it
  -- reported neither success nor partial success for any. The result counts the successes, is never
  -- left running, and a success has no error.
  pub execute-IsAccounted :
      (s : S) (w : W)
      → IsCoherent (execute glot jinja query send rule row_filter s w).0
        × IsAccounted glot jinja query send rule row_filter s w
            (execute glot jinja query send rule row_filter s w).0
            (execute glot jinja query send rule row_filter s w).2
  unfolding execute filter_and_deliver refused_sql failed_query
  execute-IsAccounted s w = (
    execute-IsCoherent glot jinja query send rule row_filter s w,
    elim (Result-cases (validate_select_sql glot rule.sql_text)) [
      | inr (e, refused) ↦ rw (refused, execute) (not_valid e refused refl refl refl)
      | inl (u, passed) ↦
          elim (Result-cases (query rule.sql_text rule.query_timeout_seconds rule.max_rows w).0) [
            | inr (e, failed) ↦
                rw (passed, execute, failed) (not_answered e passed failed refl refl refl)
            | inl (queried, answered) ↦
                rw (passed, execute, answered)
                  (deliver_rows-IsAccounted queried (apply_filter row_filter s queried).0 s w passed
                    answered refl)
          ]
    ],
  )
