-- ===== src/Tests/Storing.antt =====
-- Runs of app/execution_lock.py and app/execution_service.py.
use early_warning_system.Prelude.{
  ℕ, ◌≤◌, ◌≡◌, ◌⊎◌, refl, Bool, true, false, none, some, [], ◌∷◌, codes, arith, All, count,
  if◌then◌else◌, text_eq, Result, ok, raise, strip, starts_with,
}
use early_warning_system.Models.{RuleExecutionLease, ExecutionStatus, TriggerType}
use early_warning_system.Errors.{Error, foreign, rule_in_progress, odbc_sqlstate}
use early_warning_system.Database.{Db, empty_db, above}
use early_warning_system.Outside.{Outside}
use early_warning_system.SqlClient.{query}
use early_warning_system.SqlValidator.{
  validate_select_sql, check_tokens, terminators, misplaced_terminator, check_statements,
  check_nodes, check_node,
}
use early_warning_system.Executor.{ExecutionResult, plain_result, execute, failed_query}
use early_warning_system.Executor.Outcome.{IsLost}
use early_warning_system.ExecutionLock.{upsert, new_lease, rule_execution_lease, database_error}
use early_warning_system.ExecutionLock.Rows.{find_lease}
use early_warning_system.ExecutionLock.Guard.{rule_execution_lease-busy}
use early_warning_system.ExecutionLock.Holders.{LeaseSystem, Reach, here, next, tick, acquire}
use early_warning_system.ExecutionLock.Holders.Live.{is_live, at_most_one_live}
use early_warning_system.ExecutionService.{is_retryable_result}
use early_warning_system.ExecutionService.Attempt.{
  no_keys, filter_rows, execute_rule_once, prepare, execute_prepared, get_enabled_data_source,
  get_enabled_smtp_config, suppression_times, suppression_cutoff, passwords,
}
use early_warning_system.ExecutionService.Persist.{
  build_execution_log, build_mail_logs, persist_execution_result, store_keys,
}
use early_warning_system.ExecutionService.Retries.{execute_rule_once-retried}
use early_warning_system.ExecutionService.Seen.{last_seen, last_seen-store_keys}
use early_warning_system.ExecutionService.Suppression.{IsFiltered, filter_rows-IsFiltered, has}
use early_warning_system.ExecutionService.Atomicity.{IsComplete, persist_execution_result-cases}
use early_warning_system.Tests.World.{rule, source, smtp_config, suppressions, rows, out}

abbrev start : LeaseSystem
start = record { clock = 100; leases = []; holders = [] }

abbrev lease : RuleExecutionLease
lease = new_lease 1 (codes "a") 60 100

abbrev held : LeaseSystem
held = record {
  clock = 100;
  leases = lease ∷ [];
  holders = (record { rule_id = 1; token = codes "a"; expires_at = lease.expires_at }) ∷ [];
}

inserted : upsert lease [] ≡ some (lease ∷ [])
unfolding upsert
inserted = refl

held-Reach : Reach (record { clock = 0; leases = []; holders = [] }) held
held-Reach =
    next
      (next {t = record { clock = 0; leases = []; holders = [] }} {u = start} here
        (tick 100 (omega arith) refl))
      (acquire 1 60 (codes "a") 100 (lease ∷ []) (omega arith) tt inserted refl)

at_most_one_live_example : count (is_live 1 held.clock) held.holders ≤ 1
at_most_one_live_example = at_most_one_live 0 held-Reach 1

abbrev old : RuleExecutionLease
old = record { rule_id = 1; owner_token = codes "a"; acquired_at = 0; expires_at = 7200000100 }

abbrev db : Db
db = record empty_db {
  data_sources = source ∷ [];
  smtp_configs = smtp_config ∷ [];
  rules = rule ∷ [];
  leases = old ∷ [];
  suppressions = suppressions;
}

abbrev body : Db → ℕ → Result Error Bool × Db × ℕ
body db w = (ok true, db, w)

old-found : find_lease 1 db.leases ≡ some old
unfolding find_lease
old-found = refl

rule_execution_lease-busy_example :
    rule_execution_lease out 1 60 body db 0
    ≡ (raise (rule_in_progress 1), db, (out.commit (out.token (out.now 0).1).1).1)
rule_execution_lease-busy_example =
    rule_execution_lease-busy out 1 60 body db 0 old (omega arith) refl old-found (omega arith)

abbrev failure : ExecutionResult
failure = plain_result ExecutionStatus.failed

persist_execution_result-cases_example :
    (((persist_execution_result out rule TriggerType.manual failure none 5 9 db 0).0
        ≡ raise database_error)
      × ((persist_execution_result out rule TriggerType.manual failure none 5 9 db 0).1 ≡ db)
      × ((out.commit (build_mail_logs out 1 1 [] 0).1).0 ≡ false))
    ⊎ (((persist_execution_result out rule TriggerType.manual failure none 5 9 db 0).0
          ≡ ok (build_execution_log 1 rule TriggerType.manual failure 5 9))
        × IsComplete out rule TriggerType.manual failure none 5 9 db 0 db
            (persist_execution_result out rule TriggerType.manual failure none 5 9 db 0).1
        × ((out.commit (build_mail_logs out 1 1 [] 0).1).0 ≡ true))
unfolding above
persist_execution_result-cases_example =
    persist_execution_result-cases out rule TriggerType.manual failure none 5 9 db 0

-- a database server that is not there
abbrev down : Outside ℕ
down = record out {
  run = λ connection sql timeout w.
      (raise (foreign (codes "OperationalError") (codes "no server") (some (codes "08001"))), w);
}

down-retryable : is_retryable_result (execute_rule_once down db rule 0).0.result ≡ true
unfolding is_retryable_result execute_rule_once prepare get_enabled_data_source
    get_enabled_smtp_config suppression_times suppression_cutoff passwords execute_prepared execute
    validate_select_sql strip check_tokens misplaced_terminator terminators check_statements
    check_nodes check_node query failed_query odbc_sqlstate starts_with
down-retryable = refl

execute_rule_once-retried_example :
    All IsLost (execute_rule_once down db rule 0).0.result.mail_results
execute_rule_once-retried_example = execute_rule_once-retried down db rule 0 down-retryable

filter_rows-IsFiltered_example :
    IsFiltered suppressions rule 7200000000 no_keys rows
      (filter_rows suppressions rule 7200000000 no_keys rows).0
      (filter_rows suppressions rule 7200000000 no_keys rows).1
filter_rows-IsFiltered_example = filter_rows-IsFiltered suppressions rule 7200000000 rows

last_seen-store_keys_example :
    last_seen
      (some 1)
      9000000000
      (store_keys (some 1) 9000000000 (codes "8" ∷ codes "7" ∷ []) suppressions)
      (codes "7")
    ≡ (if has (codes "7") (codes "8" ∷ codes "7" ∷ [])
        then some 9000000000
        else last_seen (some 1) 9000000000 suppressions (codes "7"))
last_seen-store_keys_example =
    last_seen-store_keys (some 1) 9000000000 (codes "8" ∷ codes "7" ∷ []) suppressions (codes "7")
