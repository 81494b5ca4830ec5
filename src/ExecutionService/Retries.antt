-- ===== src/ExecutionService/Retries.antt =====
-- The loop over the attempts of `execute_rule_by_id`.
use early_warning_system.Prelude.{
  ℕ, suc, ◌+◌, ◌≡◌, ◌≤◌, true, some, All, ◌==◌, nat_eq, eq_iff, Bool-cases, Result-cases, inl, inr,
}
use early_warning_system.Models.{AlertRule, ExecutionStatus, status_eq}
use early_warning_system.Errors.{Error, configuration_error}
use early_warning_system.Database.{Db}
use early_warning_system.Outside.{Outside}
use early_warning_system.Executor.{ExecutionResult}
use early_warning_system.Executor.Outcome.{IsLost, execute-IsCoherent}
use early_warning_system.ExecutionService.{Attempts, is_retryable_result}
use early_warning_system.ExecutionService.Attempt.{
  ExecutionAttempt, execute_rule_once, prepare, execute_prepared, setup_failure,
}

-- How a loop that did `before` attempts and had `left` to do ends.
pub record IsBounded (before left : ℕ) (a : Attempts) : Type 0 where
  pub attempt : ExecutionAttempt
  pub stored : a.last ≡ some attempt
  pub at_least : suc before ≤ a.used
  pub at_most : a.used ≤ before + left
  pub tired : is_retryable_result attempt.result ≡ true → a.used ≡ before + left

setup_failure-loses : (e : Error) → All IsLost (setup_failure e).mail_results
unfolding setup_failure
setup_failure-loses (configuration_error m) = tt
setup_failure-loses _ = tt

retryable_failed :
    (r : ExecutionResult) → is_retryable_result r ≡ true → r.status ≡ ExecutionStatus.failed
unfolding is_retryable_result
retryable_failed r h = elim (Bool-cases (r.status == ExecutionStatus.failed)) [
  | inl failed ↦ (eq_iff r.status ExecutionStatus.failed).0 failed
  | inr other ↦ cc (rw (other, is_retryable_result) at h)
]

module _ {W : Type 0} (out : Outside W) (db : Db) (rule : AlertRule) where
  -- An attempt whose result is retried has reached nobody by its result: each of its messages, if
  -- there is one, is recorded as delivered to no recipient.
  pub execute_rule_once-retried :
      (w : W)
      → is_retryable_result (execute_rule_once out db rule w).0.result ≡ true
      → All IsLost (execute_rule_once out db rule w).0.result.mail_results
  unfolding execute_rule_once execute_prepared
  execute_rule_once-retried w h = elim (Result-cases (prepare out db rule w).0) [
    | inr (e, failed) ↦ rw (failed, execute_rule_once) (setup_failure-loses e)
    | inl (setup, prepared) ↦
        rw (prepared, execute_rule_once)
          ((execute-IsCoherent _ _ _ _ _ _ _ _).nobody_reached
            (rw (prepared, execute_rule_once) at (retryable_failed _ h)))
  ]
