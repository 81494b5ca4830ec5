-- ===== src/Tests/Logging.antt =====
-- Runs of app/log_service.py.
use early_warning_system.Prelude.{
  ℕ, ◌-◌, ◌≡◌, ◌≢◌, refl, not, Option, none, some, List, [], ◌∷◌, filter, ok,
}
use early_warning_system.Models.{ExecutionLog, ExecutionStatus, TriggerType}
use early_warning_system.Database.{Db, empty_db}
use early_warning_system.LogService.{
  paginate, is_expired, finished_before, is_one_of, expired_ids, delete_logs, cleanup_rounds,
  cleanup_expired_logs, days,
}
use early_warning_system.LogService.Pages.{IsPage, paginate-IsPage, items_from, items_from-all}
use early_warning_system.LogService.Expired.{IsKeyed}
use early_warning_system.LogService.Cleanup.{cleanup_expired_logs-ends, cleanup_expired_logs-keeps}
use early_warning_system.Tests.World.{out}

abbrev numbers : List ℕ
numbers = 1 ∷ 2 ∷ 3 ∷ 4 ∷ 5 ∷ 6 ∷ 7 ∷ 8 ∷ 9 ∷ 10 ∷ 11 ∷ 12 ∷ []

paginate-IsPage_example : IsPage numbers (paginate numbers 7 3)
paginate-IsPage_example = paginate-IsPage numbers 7 3

items_from-all_example : items_from numbers 3 1 (paginate numbers 1 3).total_pages ≡ numbers
items_from-all_example = items_from-all numbers 3

abbrev log : ℕ → Option ℕ → ExecutionLog
log id finished_at = record {
  id = some id;
  rule_id = some 1;
  trigger_type = TriggerType.scheduled;
  status = ExecutionStatus.success;
  started_at = 0;
  finished_at = finished_at;
  row_count = 0;
  email_count = 0;
  duration_ms = 0;
  error_type = [];
  error_message = [];
}

-- two old logs, a new one and an unfinished one
abbrev db : Db
db = record empty_db {
  execution_logs = log 1 (some 5) ∷ log 2 (some 90000000000) ∷ log 3 (some 6) ∷ log 4 none ∷ [];
}

cleanup_expired_logs-ends_example : (cleanup_expired_logs out 1 86400000010 1 db 0).0 ≢ none
cleanup_expired_logs-ends_example = cleanup_expired_logs-ends out 1 86400000010 1 db 0

db-IsKeyed : IsKeyed db.execution_logs
db-IsKeyed = ((refl, (refl, (refl, tt))), ((refl, (refl, tt)), ((refl, tt), (tt, tt))))

db-cleaned : (cleanup_expired_logs out 1 86400000010 1 db 0).0 ≡ some (ok 2)
unfolding cleanup_expired_logs cleanup_rounds expired_ids is_expired finished_before is_one_of
    delete_logs
db-cleaned = refl

cleanup_expired_logs-keeps_example :
    (cleanup_expired_logs out 1 86400000010 1 db 0).1.execution_logs
    ≡ filter (λ l. not (is_expired (86400000010 - days 1) l)) db.execution_logs
cleanup_expired_logs-keeps_example =
    cleanup_expired_logs-keeps out 1 86400000010 1 db 0 2 db-IsKeyed db-cleaned
