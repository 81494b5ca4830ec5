-- ===== src/Worker.antt =====
-- app/worker.py: the process that keeps the jobs of the scheduler in step with the rules. A call
-- returns, raises an `Exception`, or is cut off by a `KeyboardInterrupt`, which no `except Exception`
-- catches. Times are microseconds of the monotonic clock; no deadline is the infinite one.
pub mod Loop
pub mod Shutdown
pub mod Sync
use early_warning_system.Prelude.{
  ℕ, zero, suc, ◌+◌, Bool, true, false, not, Option, none, some, List, [], ◌∷◌, ◌++◌, Text, codes,
  filter, is_some, ◌==◌, nat_eq, leb, if◌then◌else◌, Result, ok, raise,
}
use early_warning_system.Models.{AlertRule, TriggerType, ExecutionLog}
use early_warning_system.Errors.{Error, rule_in_progress, public_error_summary}
use early_warning_system.Database.{Db}
use early_warning_system.WorkerHealth.{worker_sync_failure}
use early_warning_system.Scheduler.{Jobs, Known, sync}

pub data Outcome (A : Type 0) : Type 0 where
  returned : A → Outcome A
  raised : Error → Outcome A
  interrupted : Outcome A

pub record RuleSyncResult : Type 0 where
  pub is_ok : Bool
  pub error : Text

-- the callback of `build_execute_rule_callback`: a rule that is being executed is skipped
unfoldable pub execute_rule :
    {W : Type 0} → Result Error ExecutionLog × Db × W → Result Error (Unit {0}) × Db × W
execute_rule (ok log, db, w) = (ok tt, db, w)
execute_rule (raise (rule_in_progress id), db, w) = (ok tt, db, w)
execute_rule (raise e, db, w) = (raise e, db, w)

-- `select(AlertRule).where(AlertRule.archived_at.is_(None))`
unfoldable pub unarchived : Db → List AlertRule
unarchived db = filter (λ r. not (is_some r.archived_at)) db.rules

unfoldable pub failed_sync : Error → RuleSyncResult
failed_sync e = record { is_ok = false; error = public_error_summary e worker_sync_failure }

-- `sync_rules_once`: reading the rules can raise, and so can `synchronizer.sync`
unfoldable pub sync_rules_once :
    {W : Type 0}
    → Jobs W
    → (W → Result Error (Unit {0}) × W)
    → Db
    → Known
    → W
    → RuleSyncResult × Known × W
sync_rules_once jobs read db known w =
    let (reading, w₁) = read w in
    elim reading [
      | raise e ↦ (failed_sync e, known, w₁)
      | ok _ ↦
          let (reply, known', w₂) = sync jobs known w₁ (unarchived db) in
          elim reply [
            | raise e ↦ (failed_sync e, known', w₂)
            | ok _ ↦ (record { is_ok = true; error = [] }, known', w₂)
          ]
    ]

-- the parameters of `run_sync_loop`; `record_sync` is `none` without a worker id
pub record LoopCalls (W : Type 0) : Type 0 where
  pub cleanup_logs : W → Outcome (Unit {0}) × W
  pub sync_once : W → Outcome RuleSyncResult × W
  pub record_sync : Option (RuleSyncResult → W → Outcome (Unit {0}) × W)
  pub start : W → Outcome (Unit {0}) × W
  pub shutdown : W → Outcome (Unit {0}) × W
  pub sleep_fn : W → Outcome (Unit {0}) × W
  pub monotonic_fn : W → Outcome ℕ × W
  pub cleanup_interval : Option ℕ

-- what the loop did, the latest call first
pub data Call : Type 0 where
  cleaned synced recorded started slept timed shut_down : Call

pub record LoopState (W : Type 0) : Type 0 where
  pub world : W
  pub next_cleanup_at : Option ℕ
  pub scheduler_started : Bool
  pub calls : List Call

unfoldable pub called : {W : Type 0} → Call → LoopState W → W → LoopState W
called call s w = record s { world = w; calls = call ∷ s.calls }

-- The way out of a block: what it gives, and the state.
abbrev pub Block : Type 0 → Type 0 → Type 0
Block W A = Outcome A × LoopState W

abbrev pub continue : {W A B : Type 0} → Block W A → (A → LoopState W → Block W B) → Block W B
continue (returned a, s) next = next a s
continue (raised e, s) next = (raised e, s)
continue (interrupted, s) next = (interrupted, s)

infixl 5 ◌>>=◌ ◌>>◌
abbrev pub ◌>>=◌ :
    {W A B : Type 0}
    → (LoopState W → Block W A)
    → (A → LoopState W → Block W B)
    → LoopState W
    → Block W B
◌>>=◌ first next s = continue (first s) next

abbrev pub ◌>>◌ :
    {W A B : Type 0}
    → (LoopState W → Block W A)
    → (LoopState W → Block W B)
    → LoopState W
    → Block W B
first >> second = first >>= λ ignored. second

abbrev pub give : {W A : Type 0} → A → LoopState W → Block W A
give a s = (returned a, s)

-- one call
unfoldable pub make : {W A : Type 0} → Call → (W → Outcome A × W) → LoopState W → Block W A
make call f s = let (outcome, w) = f s.world in (outcome, called call s w)

-- a call whose exceptions are logged and dropped
abbrev pub dropped : Outcome (Unit {0}) → Outcome (Unit {0})
dropped (returned u) = returned u
dropped (raised e) = returned tt
dropped interrupted = interrupted

unfoldable pub quietly :
    {W : Type 0} → (LoopState W → Block W (Unit {0})) → LoopState W → Block W (Unit {0})
quietly block s = let (outcome, s') = block s in (dropped outcome, s')

-- `now + active_cleanup_interval`; an interval of 0 is the infinite one too
unfoldable pub deadline : Option ℕ → ℕ → Option ℕ
deadline none now = none
deadline (some interval) now = if interval == 0 then none else some (now + interval)

-- `now >= next_cleanup_at`
unfoldable pub is_due : ℕ → Option ℕ → Bool
is_due now none = false
is_due now (some at) = leb at now

module _ {W : Type 0} (calls : LoopCalls W) where
  -- `_cleanup_logs_once`
  unfoldable pub cleanup_logs_once : LoopState W → Block W (Unit {0})
  cleanup_logs_once = quietly (make cleaned calls.cleanup_logs)

  -- `_record_sync_heartbeat`, where there is a worker id
  unfoldable pub record_sync_heartbeat : RuleSyncResult → LoopState W → Block W (Unit {0})
  record_sync_heartbeat result s = elim calls.record_sync [
    | none ↦ (returned tt, s)
    | some record_sync ↦ quietly (make recorded (record_sync result)) s
  ]

  unfoldable pub set_deadline : ℕ → LoopState W → Block W (Unit {0})
  set_deadline now s =
      (returned tt, record s { next_cleanup_at = deadline calls.cleanup_interval now })

  unfoldable pub mark_started : LoopState W → Block W (Unit {0})
  mark_started s = (returned tt, record s { scheduler_started = true })

  unfoldable pub cleanup_if_due : ℕ → LoopState W → Block W (Unit {0})
  cleanup_if_due now s =
      if is_due now s.next_cleanup_at
      then (cleanup_logs_once >> set_deadline now) s
      else (returned tt, s)

  -- a synchronisation and its heartbeat
  unfoldable pub sync_and_record : LoopState W → Block W (Unit {0})
  sync_and_record = do result ← make synced calls.sync_once; record_sync_heartbeat result

  -- what stands before the `while`
  unfoldable pub begin : LoopState W → Block W (Unit {0})
  begin = do
    cleanup_logs_once
    now ← make timed calls.monotonic_fn
    set_deadline now
    sync_and_record
    make started calls.start
    mark_started

  -- the body of the `while`
  unfoldable pub round : LoopState W → Block W (Unit {0})
  round = do
    make slept calls.sleep_fn
    now ← make timed calls.monotonic_fn
    cleanup_if_due now
    sync_and_record

  -- the `while`, so many rounds of it
  unfoldable pub rounds : ℕ → LoopState W → Block W (Unit {0})
  rounds zero = give tt
  rounds (suc n) = round >> rounds n

  unfoldable pub new_state : W → LoopState W
  new_state w = record { world = w; next_cleanup_at = none; scheduler_started = false; calls = [] }

  -- `except KeyboardInterrupt`
  unfoldable pub on_interrupt : LoopState W → Block W (Unit {0})
  on_interrupt s = if s.scheduler_started then make shut_down calls.shutdown s else (returned tt, s)

  -- a block inside the `try`
  unfoldable pub guarded : Block W (Unit {0}) → Block W (Unit {0})
  guarded (returned u, s) = (returned u, s)
  guarded (raised e, s) = (raised e, s)
  guarded (interrupted, s) = on_interrupt s

  -- `run_sync_loop` up to the end of so many rounds
  unfoldable pub run_sync_loop : ℕ → W → Block W (Unit {0})
  run_sync_loop n w = guarded ((begin >> rounds n) (new_state w))
