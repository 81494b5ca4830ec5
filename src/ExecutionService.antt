-- ===== src/ExecutionService.antt =====
-- app/execution_service.py: one execution of a rule, from its lease to its log.
pub mod Attempt
pub mod Persist
pub mod Retries
pub mod Suppression
pub mod Seen
pub mod Atomicity
use early_warning_system.Prelude.{
  ℕ, zero, suc, ◌+◌, ◌-◌, max, Bool, true, false, not, ◌&&◌, ◌||◌, Option, none, some, List, [],
  ◌∷◌, ◌++◌, Text, codes, any, is_empty, decimal, starts_with, ◌==◌, nat_eq, text_eq, ltb, is_some,
  if◌then◌else◌, Result, ok, raise,
}
use early_warning_system.Models.{AlertRule, TriggerType, ExecutionStatus, status_eq, ExecutionLog}
use early_warning_system.Errors.{Error, rule_not_found}
use early_warning_system.Database.{Db, get_rule}
use early_warning_system.Outside.{Outside}
use early_warning_system.ExecutionLock.{rule_execution_lease}
use early_warning_system.Executor.{ExecutionResult, plain_result}
use early_warning_system.ExecutionService.Attempt.{
  ExecutionAttempt, SuppressionState, execute_rule_once,
}
use early_warning_system.ExecutionService.Persist.{persist_execution_result}

abbrev pub execution_failed : Text
execution_failed = codes "规则执行失败"

abbrev pub retryable_states : List Text
retryable_states = codes "40001" ∷ codes "HYT00" ∷ codes "HYT01" ∷ []

abbrev pub retryable_errors : List Text
retryable_errors =
    codes "ConnectionError"
    ∷ codes "MailSendError"
    ∷ codes "OSError"
    ∷ codes "RuntimeError"
    ∷ codes "TimeoutError"
    ∷ []

unfoldable pub one_of : List Text → Text → Bool
one_of names s = any (λ n. n == s) names

-- `_is_retryable_result`
unfoldable pub is_retryable_result : ExecutionResult → Bool
is_retryable_result r =
    if not (r.status == ExecutionStatus.failed)
    then false
    else if not (is_empty r.sqlstate)
    then starts_with r.sqlstate (codes "08") || one_of retryable_states r.sqlstate
    else one_of retryable_errors r.error_type

-- `result.error_message or result.error_type or "..."`
unfoldable pub shown_error : Option Text → Text → Text
shown_error (some (c ∷ s)) error_type = c ∷ s
shown_error _ [] = execution_failed
shown_error _ (c ∷ s) = c ∷ s

-- `_with_exhausted_retry_message`
unfoldable pub with_exhausted_retry_message : ExecutionResult → ℕ → ExecutionResult
unfolding shown_error
with_exhausted_retry_message r attempts_used =
    let retry_count = attempts_used - 1 in
    if (retry_count == 0) || not (is_retryable_result r) then r else record r {
      error_message = some (
          shown_error r.error_message r.error_type
          ++ (codes "（已重试 " ++ (decimal retry_count ++ codes " 次）")));
    }

-- what a loop of attempts ends with: the last attempt, and how many there were
pub record Attempts : Type 0 where
  pub last : Option ExecutionAttempt
  pub used : ℕ

abbrev pub no_attempt : Attempts
no_attempt = record { last = none; used = 0 }

-- the result to store: that of the last attempt
unfoldable pub last_result : Option ExecutionAttempt → ExecutionResult
last_result (some attempt) = attempt.result
last_result none = record (plain_result ExecutionStatus.failed) {
  error_type = codes "RuntimeError";
  error_message = some execution_failed;
}

unfoldable pub last_suppression : Option ExecutionAttempt → Option SuppressionState
last_suppression (some attempt) = attempt.suppression_state
last_suppression none = none

module _ {W : Type 0} (out : Outside W) where
  unfoldable pub pause : ℕ → W → W
  pause delay w = if ltb 0 delay then out.sleep delay w else w

  -- the loop over the attempts: how many are left, how many are done and the last one
  unfoldable pub attempt_loop : Db → AlertRule → ℕ → ℕ → Attempts → W → Attempts × W
  attempt_loop db rule delay zero done w = (done, w)
  attempt_loop db rule delay (suc left) done w =
      let (attempt, w') = execute_rule_once out db rule w in
      let done' : Attempts = record { last = some attempt; used = suc done.used } in
      let again = attempt_loop db rule delay left done' (pause delay w') in
      if not (is_retryable_result attempt.result) || (left == 0) then (done', w') else again

  -- the body of the `with` block of `execute_rule_by_id`
  unfoldable pub execute_leased :
      AlertRule → TriggerType → ℕ → ℕ → Db → W → Result Error ExecutionLog × Db × W
  execute_leased rule trigger max_attempts delay db w =
      let (started_at, w₁) = out.now w in
      let (attempts, w₂) = attempt_loop db rule delay (max 1 max_attempts) no_attempt w₁ in
      let r = with_exhausted_retry_message (last_result attempts.last) attempts.used in
      let (finished_at, w₃) = out.now w₂ in
      persist_execution_result out rule trigger r (last_suppression attempts.last) started_at
        finished_at db w₃

  -- `execute_rule_by_id`
  unfoldable pub execute_rule_by_id :
      ℕ → ℕ → TriggerType → ℕ → ℕ → Db → W → Result Error ExecutionLog × Db × W
  execute_rule_by_id lease_seconds rule_id trigger max_attempts delay db w =
      elim (get_rule db rule_id) [
        | none ↦ (raise (rule_not_found rule_id), db, w)
        | some rule ↦
            if is_some rule.archived_at
            then (raise (rule_not_found rule_id), db, w)
            else rule_execution_lease out rule_id lease_seconds
                (execute_leased rule trigger max_attempts delay) db w
      ]
