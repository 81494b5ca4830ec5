-- ===== src/Tests/Working.antt =====
-- Runs of app/worker.py and of the export of logs.
use early_warning_system.Prelude.{
  ℕ, ◌+◌, ◌≡◌, refl, true, Option, none, some, List, [], ◌∷◌, codes, count, get, arith, nat_eq,
  Result, ok, leb, if◌then◌else◌, subst, ◌≢◌,
}
use early_warning_system.Models.{ExecutionLog, ExecutionStatus, TriggerType}
use early_warning_system.Errors.{Error}
use early_warning_system.Database.{Db, empty_db}
use early_warning_system.LogService.Batches.{execution_columns, order_by, iter_log_batches}
use early_warning_system.LogService.Batches.Order.{IsKeyed}
use early_warning_system.LogService.Batches.Complete.{rows_of, rows_of-iter_log_batches}
use early_warning_system.Worker.{
  Outcome, returned, raised, interrupted, RuleSyncResult, LoopCalls, LoopState, run_sync_loop,
  sync_rules_once, unarchived,
}
use early_warning_system.Worker.Loop.{is_synced, IsUncut, run_sync_loop-runs}
use early_warning_system.Worker.Shutdown.{EndsOnce, run_sync_loop-EndsOnce}
use early_warning_system.Scheduler.{
  Known, sync, sync_state, desired_from, scheduled, remove_rules, remove_rule, obsolete, sync_rules,
  sync_rule, sync_job, schedule_job, store_signature,
}
use early_warning_system.Scheduler.Known.{signature_of}
use early_warning_system.WorkerHealth.{
  record_worker_sync, commit_heartbeat, has_required_tables, required_tables, check_readiness,
  judge_heartbeat, get_heartbeat, store_heartbeat, synced,
}
use early_warning_system.Worker.Sync.{is_ready-known}
use early_warning_system.Tests.World.{rule, out}
use early_warning_system.Tests.Watching.{jobs, known, required_tables-there}

abbrev log : ℕ → ℕ → ExecutionLog
log id started_at = record {
  id = some id;
  rule_id = some 1;
  trigger_type = TriggerType.scheduled;
  status = ExecutionStatus.success;
  started_at = started_at;
  finished_at = none;
  row_count = 0;
  email_count = 0;
  duration_ms = 0;
  error_type = [];
  error_message = [];
}

-- two of the logs started at the same time
abbrev logs : List ExecutionLog
logs = log 1 5 ∷ log 2 7 ∷ log 3 5 ∷ log 4 6 ∷ []

logs-IsKeyed : IsKeyed execution_columns logs
logs-IsKeyed = ground arith

rows_of-iter_log_batches_example :
    (batches : List (List ExecutionLog)) × (iter_log_batches execution_columns 3 logs
      ≡ some batches)
    × (rows_of batches ≡ order_by execution_columns logs)
rows_of-iter_log_batches_example = rows_of-iter_log_batches execution_columns 2 logs logs-IsKeyed

-- the clock ticks a second at a reading; the cleanup always fails
abbrev calls : LoopCalls ℕ
calls = record {
  cleanup_logs = λ w. (raised (Error.value_error (codes "locked")), w);
  sync_once = λ w. (returned (record { is_ok = true; error = [] }), w);
  record_sync = some (λ result w. (returned tt, w));
  start = λ w. (returned tt, w);
  shutdown = λ w. (returned tt, w);
  sleep_fn = λ w. (returned tt, w);
  monotonic_fn = λ w. (returned w, w + 1000000);
  cleanup_interval = some 2000000;
}

abbrev IsQuiet : Option (RuleSyncResult → ℕ → Outcome (Unit {0}) × ℕ) → RuleSyncResult → ℕ → Type 0
IsQuiet none r w = Unit
IsQuiet (some f) r w = (f r w).0 ≢ interrupted

calls-records :
    (record_sync : RuleSyncResult → ℕ → Outcome (Unit {0}) × ℕ)
    → calls.record_sync ≡ some record_sync
    → (r : RuleSyncResult) → IsUncut (record_sync r)
calls-records record_sync e r w h = subst (λ o. IsQuiet o r w) e (λ k. cc) h

run_sync_loop-runs_example :
    (s : LoopState ℕ) × (run_sync_loop calls 3 0 ≡ (returned tt, s)) × (count is_synced s.calls ≡ 4)
run_sync_loop-runs_example =
    run_sync_loop-runs calls (λ w. (record { is_ok = true; error = [] }, refl)) (λ w. (tt, refl))
      (λ w. (w, refl)) (λ w. (tt, refl)) (λ w. cc) calls-records 3 0

-- the third sleep is interrupted
abbrev cut : LoopCalls ℕ
cut = record calls { sleep_fn = λ w. if leb 3000000 w then (interrupted, w) else (returned tt, w) }

run_sync_loop-EndsOnce_example : EndsOnce cut (run_sync_loop cut 5 0).1.calls
run_sync_loop-EndsOnce_example = run_sync_loop-EndsOnce cut 5 0

abbrev db : Db
db = record empty_db { rules = rule ∷ [] }

abbrev read : ℕ → Result Error (Unit {0}) × ℕ
read w = (ok tt, w + 1)

abbrev first_sync : RuleSyncResult × Known × ℕ
first_sync = sync_rules_once jobs read db known 0

abbrev synced_db : Db
synced_db =
    (record_worker_sync out (codes "w") first_sync.0.is_ok first_sync.0.error 9000000 db
      first_sync.2).1

synced_db-stored :
    (record_worker_sync out
      (codes "w")
      first_sync.0.is_ok
      first_sync.0.error
      9000000
      db
      first_sync.2).0
    ≡ ok tt
unfolding record_worker_sync commit_heartbeat
synced_db-stored = refl

synced_db-ready : (check_readiness (some (required_tables, synced_db)) 60 10000000).is_ready ≡ true
unfolding check_readiness judge_heartbeat record_worker_sync commit_heartbeat has_required_tables
    sync_rules_once sync sync_state desired_from scheduled remove_rules remove_rule obsolete
    sync_rules sync_rule sync_job schedule_job store_signature unarchived get_heartbeat
    store_heartbeat synced
synced_db-ready = refl

is_ready-known_example :
    get 1 first_sync.1 ≡ signature_of jobs (get 1 (desired_from jobs (unarchived db) [])) none
is_ready-known_example =
    is_ready-known jobs read db known 0 out required_tables synced_db (codes "w") 9000000 60
      10000000 first_sync.0 first_sync.1 first_sync.2 1 refl synced_db-stored refl
      required_tables-there (omega arith) synced_db-ready
