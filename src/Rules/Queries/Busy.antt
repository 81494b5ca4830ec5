-- ===== src/Rules/Queries/Busy.antt =====
-- `run_rule`, while the rule is being executed.
use early_warning_system.Prelude.{
  ℕ, ◌≡◌, ◌<◌, refl, ap, ◌∙◌, Text, Option, true, some, Result, ok, raise, is_some, Bool-cases,
  Option-cases, inl, inr, nat_eq, option_eq,
}
use early_warning_system.Models.{AlertRule, RuleExecutionLease, TriggerType, ExecutionLog}
use early_warning_system.Errors.{Error, rule_in_progress}
use early_warning_system.Database.{Db, get_rule}
use early_warning_system.Outside.{Outside}
use early_warning_system.ExecutionLock.{rule_execution_lease}
use early_warning_system.ExecutionLock.Rows.{find_lease}
use early_warning_system.ExecutionLock.Guard.{rule_execution_lease-busy}
use early_warning_system.ExecutionService.{execute_rule_by_id, execute_leased}
use early_warning_system.Settings.{Integer}
use early_warning_system.Rules.{get_active_rule}
use early_warning_system.Rules.Queries.{busy, run_reply, run_rule}

module _ {W : Type 0} (out : Outside W) (parse_int : Text → Option Integer) where
  run_reply-busy :
      (rule_id : ℕ) (answer : Result Error ExecutionLog × Db × W) (db : Db)
      → answer.0 ≡ raise (rule_in_progress rule_id)
      → answer.1 ≡ db
      → ((run_reply out parse_int answer).0 ≡ ok busy) × ((run_reply out parse_int answer).1 ≡ db)
  unfolding run_reply
  run_reply-busy rule_id (answer, stored, w) db raised same = rw raised (refl, same)

  -- While the rule's lease has not expired, a run that asks for a positive time and whose insert is
  -- committed is answered that the rule is being executed, and the database stays as it is.
  pub run_rule-busy :
      (lease_seconds max_attempts delay rule_id : ℕ) (db : Db) (w : W) (rule : AlertRule)
      (old : RuleExecutionLease)
      → get_active_rule db rule_id ≡ some rule
      → 0 < lease_seconds
      → (out.commit (out.token (out.now w).1).1).0 ≡ true
      → find_lease rule_id db.leases ≡ some old
      → (out.now w).0 < old.expires_at
      → ((run_rule out parse_int lease_seconds max_attempts delay rule_id db w).0 ≡ ok busy)
        × ((run_rule out parse_int lease_seconds max_attempts delay rule_id db w).1 ≡ db)
  unfolding run_rule execute_rule_by_id get_active_rule
  run_rule-busy lease_seconds max_attempts delay rule_id db w rule old active pos committed found
        live =
      elim (Option-cases (get_rule db rule_id)) [
        | inl absent ↦ cc (rw (absent, get_active_rule) at active)
        | inr (r, stored) ↦ elim (Bool-cases (is_some r.archived_at)) [
          | inl archived ↦ cc (rw (stored, archived, get_active_rule) at active)
          | inr current ↦
              let body = execute_leased out r TriggerType.manual max_attempts delay in
              let refused =
                rule_execution_lease-busy out rule_id lease_seconds body db w old pos committed
                  found live in
              let asked =
                execute_rule_by_id out lease_seconds rule_id TriggerType.manual max_attempts delay
                  db w in
              let leased : asked ≡ rule_execution_lease out rule_id lease_seconds body db w =
                rw (stored, execute_rule_by_id, current) refl in
              rw (active, run_rule)
                (run_reply-busy rule_id asked db (ap (λ a. a.0) (leased ∙ refused))
                  (ap (λ a. a.1) (leased ∙ refused)))
        ]
      ]
