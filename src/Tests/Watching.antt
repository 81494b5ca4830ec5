-- ===== src/Tests/Watching.antt =====
-- Runs of app/scheduler.py, app/worker_health.py and app/health.py.
use early_warning_system.Prelude.{
  ℕ, ◌+◌, ◌≡◌, refl, true, false, none, some, [], ◌∷◌, codes, nat_eq, ok,
}
use early_warning_system.Database.{Db, empty_db}
use early_warning_system.Scheduler.{Jobs, Known}
use early_warning_system.WorkerHealth.{
  record_worker_sync, commit_heartbeat, has_required_tables, required_tables,
}
use early_warning_system.Tests.World.{out}

-- a scheduler that has one job, for whatever it is asked
abbrev pub jobs : Jobs ℕ
jobs = record {
  get_job = λ id w. (ok (some (record { job_id = id; trigger = codes "old" })), w);
  remove_job = λ id w. (ok tt, w + 1);
  add_job = λ rule_id id cron w. (ok tt, w + 1);
  reschedule_job = λ id cron w. (ok tt, w + 1);
  cron_signature = λ cron. some cron;
  parse_int = λ t. none;
}

abbrev pub known : Known
known = (1, codes "old") ∷ (2, codes "old") ∷ []

synced_db-stored :
    (record_worker_sync out (codes "w") false (codes "e") 9000000 empty_db 0).0 ≡ ok tt
unfolding record_worker_sync commit_heartbeat
synced_db-stored = refl

abbrev synced_db : Db
synced_db = (record_worker_sync out (codes "w") false (codes "e") 9000000 empty_db 0).1

pub required_tables-there : has_required_tables required_tables ≡ true
unfolding has_required_tables
required_tables-there = refl
