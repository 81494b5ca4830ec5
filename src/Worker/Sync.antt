-- ===== src/Worker/Sync.antt =====
-- `sync_rules_once` and the heartbeat that the loop writes of it.
use early_warning_system.Prelude.{
  ℕ, ◌+◌, ◌≡◌, ◌≤◌, sym, ◌∙◌, true, none, some, Text, List, [], get, nat_eq, Result, ok,
  Result-cases, inl, inr,
}
use early_warning_system.Models.{DateTime}
use early_warning_system.Database.{Db}
use early_warning_system.Outside.{Outside}
use early_warning_system.Errors.{Error}
use early_warning_system.ExecutionLock.{microseconds}
use early_warning_system.Scheduler.{Jobs, Known, sync, desired_from}
use early_warning_system.Scheduler.Known.{signature_of, known-sync}
use early_warning_system.WorkerHealth.{record_worker_sync, check_readiness, has_required_tables}
use early_warning_system.WorkerHealth.Readiness.{check_readiness-record_worker_sync}
use early_warning_system.Worker.{RuleSyncResult, failed_sync, unarchived, sync_rules_once}

module _ {W : Type 0} (jobs : Jobs W) (read : W → Result Error (Unit {0}) × W) (db : Db)
    (known : Known) (w : W) where
  sync_rules_once-known :
      (j : ℕ)
      → (sync_rules_once jobs read db known w).0.is_ok ≡ true
      → get j (sync_rules_once jobs read db known w).1
        ≡ signature_of jobs (get j (desired_from jobs (unarchived db) [])) none
  unfolding sync_rules_once failed_sync
  sync_rules_once-known j h = elim (Result-cases (read w).0) [
    | inr (e, unread) ↦ cc (rw (unread, sync_rules_once) at h)
    | inl (tt, got) ↦ elim (Result-cases (sync jobs known (read w).1 (unarchived db)).0) [
      | inr (e, failed) ↦ cc (rw (got, failed, sync_rules_once) at h)
      | inl (tt, done) ↦
          rw (got, done, sync_rules_once) (known-sync jobs known (read w).1 (unarchived db) j done)
    ]
  ]

  -- If the worker's heartbeat of a synchronisation was committed, and the application is ready within
  -- the timeout of it, then the worker knows exactly the rules that are to be scheduled, each with the
  -- trigger of its cron expression, whatever it knew before and whatever the scheduler had.
  pub is_ready-known :
      (out : Outside W) (tables : List Text) (db' : Db) (worker_id : Text) (timestamp : DateTime)
      (timeout_seconds : ℕ) (now : DateTime) (result : RuleSyncResult) (known' : Known) (w' : W)
      (j : ℕ)
      → sync_rules_once jobs read db known w ≡ (result, known', w')
      → (record_worker_sync out worker_id result.is_ok result.error timestamp db w').0 ≡ ok tt
      → (record_worker_sync out worker_id result.is_ok result.error timestamp db w').1 ≡ db'
      → has_required_tables tables ≡ true
      → now ≤ timestamp + microseconds timeout_seconds
      → (check_readiness (some (tables, db')) timeout_seconds now).is_ready ≡ true
      → get j known' ≡ signature_of jobs (get j (desired_from jobs (unarchived db) [])) none
  is_ready-known out tables db' worker_id timestamp timeout_seconds now result known' w' j synced
        done after complete late ready =
      (rw synced at sync_rules_once-known j) (
        sym (
          check_readiness-record_worker_sync out tables db db' w' worker_id result.error
            result.is_ok timestamp timeout_seconds now done after complete late)
        ∙ ready)
