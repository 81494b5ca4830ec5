-- ===== src/WorkerHealth.antt =====
-- app/worker_health.py and app/health.py: the heartbeat of the worker, the one row with the key 1,
-- and the readiness that is read from it.
pub mod Readiness
use early_warning_system.Prelude.{
  ℕ, ◌+◌, ◌-◌, ◌*◌, Bool, true, false, not, Option, none, some, List, [], ◌∷◌, Text, codes, find,
  all, any, ◌==◌, nat_eq, text_eq, ltb, if◌then◌else◌, Result, ok, raise,
}
use early_warning_system.Models.{DateTime, WorkerHeartbeat}
use early_warning_system.Errors.{Error}
use early_warning_system.Database.{Db}
use early_warning_system.Outside.{Outside}
use early_warning_system.ExecutionLock.{microseconds, database_error}

abbrev pub worker_sync_failure : Text
worker_sync_failure = codes "Worker 同步失败，请检查数据库连接和调度配置"

-- `session.get(WorkerHeartbeat, 1)`
unfoldable pub get_heartbeat : List WorkerHeartbeat → Option WorkerHeartbeat
get_heartbeat = find (λ h. h.id == 1)

-- writing back the row of `get_heartbeat`, or adding it
unfoldable pub store_heartbeat : WorkerHeartbeat → List WorkerHeartbeat → List WorkerHeartbeat
store_heartbeat heartbeat [] = heartbeat ∷ []
store_heartbeat heartbeat (h ∷ rest) =
    let later = store_heartbeat heartbeat rest in if h.id == 1 then heartbeat ∷ rest else h ∷ later

-- a new row, with the defaults of the table
unfoldable pub new_heartbeat : Text → DateTime → WorkerHeartbeat
new_heartbeat worker_id timestamp = record {
  id = 1;
  worker_id = worker_id;
  started_at = timestamp;
  last_seen_at = timestamp;
  last_sync_ok = true;
  last_error = [];
}

-- `_summarize_error_text`
unfoldable pub summarize_error_text : Text → Text
summarize_error_text error = worker_sync_failure

unfoldable pub started : Option WorkerHeartbeat → Text → DateTime → WorkerHeartbeat
unfolding new_heartbeat
started none worker_id timestamp = new_heartbeat worker_id timestamp
started (some h) worker_id timestamp = record h {
  worker_id = worker_id;
  started_at = timestamp;
  last_seen_at = timestamp;
  last_sync_ok = true;
  last_error = [];
}

unfoldable pub seen : Option WorkerHeartbeat → Text → DateTime → WorkerHeartbeat
unfolding new_heartbeat
seen none worker_id timestamp = new_heartbeat worker_id timestamp
seen (some h) worker_id timestamp = record h { worker_id = worker_id; last_seen_at = timestamp }

unfoldable pub synced : Option WorkerHeartbeat → Text → Bool → Text → DateTime → WorkerHeartbeat
unfolding seen
synced found worker_id sync_ok error timestamp = record (seen found worker_id timestamp) {
  last_sync_ok = sync_ok;
  last_error = if sync_ok then [] else summarize_error_text error;
}

module _ {W : Type 0} (out : Outside W) where
  -- `_commit` of a heartbeat
  unfoldable pub commit_heartbeat : WorkerHeartbeat → Db → W → Result Error (Unit {0}) × Db × W
  commit_heartbeat heartbeat db w =
      let (committed, w') = out.commit w in
      if committed
      then (ok tt, record db { heartbeats = store_heartbeat heartbeat db.heartbeats }, w')
      else (raise database_error, db, w')

  -- `record_worker_start`
  unfoldable pub record_worker_start : Text → DateTime → Db → W → Result Error (Unit {0}) × Db × W
  record_worker_start worker_id timestamp db w =
      commit_heartbeat (started (get_heartbeat db.heartbeats) worker_id timestamp) db w

  -- `record_worker_sync`
  unfoldable pub record_worker_sync :
      Text → Bool → Text → DateTime → Db → W → Result Error (Unit {0}) × Db × W
  record_worker_sync worker_id sync_ok error timestamp db w =
      commit_heartbeat (synced (get_heartbeat db.heartbeats) worker_id sync_ok error timestamp) db w

-- the two components of a `ReadinessResult`
pub data DatabaseState : Type 0 where
  ready schema_incomplete unavailable : DatabaseState

pub data WorkerState : Type 0 where
  unknown missing stale sync_failed ready : WorkerState

pub record ReadinessResult : Type 0 where
  pub is_ready : Bool
  pub database : DatabaseState
  pub worker : WorkerState

abbrev pub required_tables : List Text
required_tables =
    codes "adminuser"
    ∷ codes "alertrule"
    ∷ codes "executionlog"
    ∷ codes "maillog"
    ∷ codes "workerheartbeat"
    ∷ []

-- `_REQUIRED_TABLES.issubset(tables)`
unfoldable pub has_required_tables : List Text → Bool
has_required_tables tables = all (λ t. any (λ u. u == t) tables) required_tables

-- the answer for a heartbeat; `now - last_seen_at` is negative where the heartbeat is later
unfoldable pub judge_heartbeat : ℕ → DateTime → Option WorkerHeartbeat → ReadinessResult
judge_heartbeat timeout_seconds now none = record {
  is_ready = false;
  database = DatabaseState.ready;
  worker = missing;
}
judge_heartbeat timeout_seconds now (some h) =
    if ltb (microseconds timeout_seconds) (now - h.last_seen_at)
    then (record { is_ready = false; database = DatabaseState.ready; worker = stale })
    else if not h.last_sync_ok
    then (record { is_ready = false; database = DatabaseState.ready; worker = sync_failed })
    else (record { is_ready = true; database = DatabaseState.ready; worker = WorkerState.ready })

-- `check_readiness`: the tables of the database and its rows, or `none` where it cannot be read
unfoldable pub check_readiness : Option (List Text × Db) → ℕ → DateTime → ReadinessResult
check_readiness none timeout_seconds now = record {
  is_ready = false;
  database = unavailable;
  worker = unknown;
}
check_readiness (some (tables, db)) timeout_seconds now =
    if not (has_required_tables tables)
    then (record { is_ready = false; database = schema_incomplete; worker = unknown })
    else judge_heartbeat timeout_seconds now (get_heartbeat db.heartbeats)
