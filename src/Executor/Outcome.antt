-- ===== src/Executor/Outcome.antt =====
-- What the result of `RuleExecutor.execute` says of the messages sent.
use early_warning_system.Prelude.{
  ℕ, ◌≡◌, ◌≢◌, ◌↔◌, refl, Bool, true, false, not, ◌&&◌, none, List, [], ◌∷◌, Text, All, arith,
  length, count, any, if◌then◌else◌, ◌==◌, nat_eq, ltb, Result, raise, inl, inr, Result-cases,
  count-le-length,
}
use early_warning_system.Models.{AlertRule, ExecutionStatus}
use early_warning_system.Errors.{Error}
use early_warning_system.Mailer.{EmailMessage, MailSendResult}
use early_warning_system.TemplateRenderer.{Row, Renderer}
use early_warning_system.SqlValidator.{SqlGlot, validate_select_sql}
use early_warning_system.Executor.{
  ExecutionMailResult, ExecutionResult, succeeded, partly_succeeded, status_for_mail_results,
  mail_outcome, build_messages, RowFilter, deliver_rows, filter_and_deliver, execute,
  failed_messages, failed_query, refused_sql,
}

-- A message that nobody got.
abbrev pub IsLost : ExecutionMailResult → Type 0
IsLost m = (succeeded m ≡ false) × (partly_succeeded m ≡ false)

count-eq-length_iff :
    (l : List ExecutionMailResult)
    → (count succeeded l ≡ length l) ↔ All (λ m. succeeded m ≡ true) l
count-eq-length_iff [] = ((λ h. tt), λ h. refl)
count-eq-length_iff (m ∷ l) = ground (arith, count-le-length succeeded l, count-eq-length_iff l)

unreached_iff :
    (l : List ExecutionMailResult)
    → ((count succeeded l ≡ 0) × (any partly_succeeded l ≡ false)) ↔ All IsLost l
unreached_iff [] = ((λ h. tt), λ h. (refl, refl))
unreached_iff (m ∷ l) = ground (arith, unreached_iff l)

-- the three ways of `_status_for_mail_results`, over the numbers
abbrev status_of : ℕ → ℕ → Bool → ExecutionStatus
status_of c n p =
    if c == n
    then ExecutionStatus.success
    else if (c == 0) && not p
    then ExecutionStatus.failed
    else ExecutionStatus.partial_failed

status_of-success : (c n : ℕ) (p : Bool) → (status_of c n p ≡ ExecutionStatus.success) ↔ (c ≡ n)
status_of-success c n p = ground arith

status_of-failed :
    (c n : ℕ) (p : Bool)
    → (status_of c n p ≡ ExecutionStatus.failed) ↔ ((c ≢ n) × (c ≡ 0) × (p ≡ false))
status_of-failed c n p = ground arith

status_of-running : (c n : ℕ) (p : Bool) → status_of c n p ≢ ExecutionStatus.running
status_of-running c n p h = ground arith

some_unreached :
    (l : List ExecutionMailResult)
    → ((count succeeded l ≢ length l) × (count succeeded l ≡ 0) × (any partly_succeeded l ≡ false))
      ↔ ((l ≢ []) × All IsLost l)
some_unreached [] = ((λ h. absurd (h.0 refl)), λ h. absurd (h.0 refl))
some_unreached (m ∷ l) = (
  (λ h. ((λ e. cc), (unreached_iff (m ∷ l)).0 (h.1, h.2))),
  λ h. let k = (unreached_iff (m ∷ l)).1 h.1 in ((λ e. omega (arith, k.0)), k.0, k.1),
)

-- The status is success exactly when every message was delivered to all of its recipients, and
-- failed exactly when there was a message and none of them reached anybody; it is never running.
pub status_for_mail_results_iff :
    (l : List ExecutionMailResult)
    → ((status_for_mail_results l ≡ ExecutionStatus.success) ↔ All (λ m. succeeded m ≡ true) l)
      × ((status_for_mail_results l ≡ ExecutionStatus.failed) ↔ ((l ≢ []) × All IsLost l))
      × (status_for_mail_results l ≢ ExecutionStatus.running)
unfolding status_for_mail_results
status_for_mail_results_iff l =
    let c = count succeeded l in
    let n = length l in
    let p = any partly_succeeded l in
    (
      (
        (λ h. (count-eq-length_iff l).0 ((status_of-success c n p).0 h)),
        (λ h. (status_of-success c n p).1 ((count-eq-length_iff l).1 h)),
      ),
      (
        (λ h. (some_unreached l).0 ((status_of-failed c n p).0 h)),
        (λ h. (status_of-failed c n p).1 ((some_unreached l).1 h)),
      ),
      status_of-running c n p,
    )

-- A result that agrees with its list of messages.
pub record IsCoherent (r : ExecutionResult) : Type 0 where
  pub counted : r.mail_count ≡ count succeeded r.mail_results
  pub finished : r.status ≢ ExecutionStatus.running
  pub all_sent : r.status ≡ ExecutionStatus.success → All (λ m. succeeded m ≡ true) r.mail_results
  pub nobody_reached : r.status ≡ ExecutionStatus.failed → All IsLost r.mail_results
  pub no_error : r.status ≡ ExecutionStatus.success → (r.error_type ≡ []) × (r.error_message ≡ none)

mail_outcome-IsCoherent : (n : ℕ) (l : List ExecutionMailResult) → IsCoherent (mail_outcome n l)
unfolding mail_outcome
mail_outcome-IsCoherent n l =
    let k = status_for_mail_results_iff l in
    record {
      counted = refl;
      finished = k.2;
      all_sent = k.0.0;
      nobody_reached = λ h. (k.1.0 h).1;
      no_error = λ h.
          let full : ltb (count succeeded l) (length l) ≡ false =
            ground (arith, (count-eq-length_iff l).1 (k.0.0 h)) in
          (rw full refl, rw full refl);
    }

module _ {S W : Type 0} (glot : SqlGlot) (jinja : Renderer)
    (query : Text → ℕ → ℕ → W → Result Error (List Row) × W)
    (send : EmailMessage → W → Result Error MailSendResult × W) (rule : AlertRule)
    (row_filter : RowFilter S) where
  deliver_rows-IsCoherent :
      (n : ℕ) (rows : List Row) (w : W)
      → IsCoherent (deliver_rows glot jinja query send rule row_filter n rows w).0
  unfolding deliver_rows failed_messages
  deliver_rows-IsCoherent n [] w = record {
    counted = refl;
    finished = λ h. cc;
    all_sent = λ h. tt;
    nobody_reached = λ h. tt;
    no_error = λ h. (refl, refl);
  }
  deliver_rows-IsCoherent n (row ∷ rest) w =
      elim (Result-cases (build_messages jinja rule (row ∷ rest))) [
        | inr (e, failed) ↦
            rw (failed, deliver_rows)
              (record {
                counted = refl;
                finished = λ h. cc;
                all_sent = λ h. tt;
                nobody_reached = λ h. tt;
                no_error = λ h. cc;
              })
        | inl (messages, built) ↦ rw (built, deliver_rows) (mail_outcome-IsCoherent n _)
      ]

  -- Whatever the SQL text, the driver, the filter, the templates and the server do, the result is
  -- coherent: it counts the messages delivered to all recipients, it is never left running, a success
  -- has every message delivered and no error, and with a failure no message has reached anybody.
  pub execute-IsCoherent :
      (s : S) (w : W) → IsCoherent (execute glot jinja query send rule row_filter s w).0
  unfolding execute filter_and_deliver refused_sql failed_query
  execute-IsCoherent s w = elim (Result-cases (validate_select_sql glot rule.sql_text)) [
    | inr (e, refused) ↦
        rw (refused, execute)
          (record {
            counted = refl;
            finished = λ h. cc;
            all_sent = λ h. tt;
            nobody_reached = λ h. tt;
            no_error = λ h. cc;
          })
    | inl (u, passed) ↦
        elim (Result-cases (query rule.sql_text rule.query_timeout_seconds rule.max_rows w).0) [
          | inr (e, failed) ↦
              rw (passed, execute, failed)
                (record {
                  counted = refl;
                  finished = λ h. cc;
                  all_sent = λ h. tt;
                  nobody_reached = λ h. tt;
                  no_error = λ h. cc;
                })
          | inl (queried, answered) ↦
              rw (passed, execute, answered) (deliver_rows-IsCoherent (length queried) _ _)
        ]
  ]

  -- If one of the messages cannot be built, none is sent: the outside world stays as the query left
  -- it, and the result is a failure that lists no message.
  pub deliver_rows-all_or_none :
      (n : ℕ) (rows : List Row) (w : W) (e : Error)
      → rows ≢ []
      → build_messages jinja rule rows ≡ raise e
      → deliver_rows glot jinja query send rule row_filter n rows w ≡ (failed_messages n e, w)
  unfolding deliver_rows
  deliver_rows-all_or_none n [] w e ne h = absurd (ne refl)
  deliver_rows-all_or_none n (row ∷ rest) w e ne h = rw (h, deliver_rows)
