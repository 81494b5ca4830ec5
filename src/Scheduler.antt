-- ===== src/Scheduler.antt =====
-- app/scheduler.py: the jobs of APScheduler follow the rules of the database. The scheduler and the
-- cron parser are parameters: what their calls do, and the trigger's `str` of a cron expression.
pub mod Known
pub mod Followed
pub mod Built
use early_warning_system.Prelude.{
  ℕ, zero, suc, ◌+◌, Bool, true, false, not, ◌&&◌, ◌||◌, Option, none, some, List, [], ◌∷◌, ◌++◌,
  Text, codes, filter, drop, map, starts_with, decimal, get, put, remove, keys, is_some, ◌==◌,
  nat_eq, text_eq, if◌then◌else◌, Result, ok, raise,
}
use early_warning_system.Models.{AlertRule}
use early_warning_system.Errors.{Error, runtime_error}

abbrev pub rule_schedule_sync_failure : Text
rule_schedule_sync_failure = codes "规则调度同步未完全成功"

-- a job of the scheduler, as far as it is read
pub record Job : Type 0 where
  pub job_id : Text
  pub trigger : Text

-- the calls of the scheduler, and of `CronTrigger.from_crontab`, where `none` is a `ValueError`
pub record Jobs (W : Type 0) : Type 0 where
  pub get_job : Text → W → Result Error (Option Job) × W
  pub remove_job : Text → W → Result Error (Unit {0}) × W
  pub add_job : ℕ → Text → Text → W → Result Error (Unit {0}) × W
  pub reschedule_job : Text → Text → W → Result Error (Unit {0}) × W
  pub cron_signature : Text → Option Text
  -- `int` of a text; the keys of rules are not negative
  pub parse_int : Text → Option ℕ

-- `_job_id`
unfoldable pub job_id_of : ℕ → Text
job_id_of rule_id = codes "rule-" ++ decimal rule_id

abbrev pub Known : Type 0
Known = List (ℕ × Text)

-- the state of a synchronisation: `known_cron_by_rule_id`, the failed operations, the scheduler
pub record SyncState (W : Type 0) : Type 0 where
  pub known : Known
  pub failed_operations : ℕ
  pub world : W

-- `known.get(rule_id) == cron_signature`
abbrev pub knows : Option Text → Text → Bool
knows none signature = false
knows (some t) signature = t == signature

module _ {W : Type 0} (jobs : Jobs W) where
  -- `_rule_id_from_job_id`
  unfoldable pub rule_id_from_job_id : Text → Option ℕ
  rule_id_from_job_id id =
      if not (starts_with id (codes "rule-")) then none else jobs.parse_int (drop 5 id)

  -- the loop of `__init__` over the jobs
  unfoldable pub known_jobs : List Job → Known → Known
  known_jobs [] known = known
  known_jobs (job ∷ rest) known =
      let keep = known_jobs rest known in
      elim (rule_id_from_job_id job.job_id) [
        | none ↦ keep
        | some rule_id ↦ known_jobs rest (put rule_id job.trigger known)
      ]

  -- whether a rule is scheduled: its id and its row
  unfoldable pub scheduled : AlertRule → Option (ℕ × AlertRule)
  scheduled rule = if is_some rule.archived_at || not rule.enabled then none else elim rule.id [
    | none ↦ none
    | some id ↦ if is_some (jobs.cron_signature rule.cron_expression) then some (id, rule) else none
  ]

  -- `{rule.id: rule for rule in valid_scheduled_rules(rules)}`
  unfoldable pub desired_from : List AlertRule → List (ℕ × AlertRule) → List (ℕ × AlertRule)
  desired_from [] d = d
  desired_from (rule ∷ rest) d =
      let without = desired_from rest d in
      elim (scheduled rule) [ none ↦ without | some (id, r) ↦ desired_from rest (put id r d) ]

  unfoldable pub fail : SyncState W → W → SyncState W
  fail s w = record s { failed_operations = suc s.failed_operations; world = w }

  -- one round of the first loop of `sync`
  unfoldable pub remove_rule : SyncState W → ℕ → SyncState W
  remove_rule s rule_id =
      let (found, w) = jobs.get_job (job_id_of rule_id) s.world in
      elim found [
        | raise e ↦ fail s w
        | ok none ↦ record s { known = remove rule_id s.known; world = w }
        | ok (some job) ↦
            let (removed, w') = jobs.remove_job (job_id_of rule_id) w in
            elim removed [
              | raise e ↦ fail s w'
              | ok _ ↦ record s { known = remove rule_id s.known; world = w' }
            ]
      ]

  unfoldable pub remove_rules : SyncState W → List ℕ → SyncState W
  remove_rules s [] = s
  remove_rules s (rule_id ∷ rest) = remove_rules (remove_rule s rule_id) rest

  -- adding or rescheduling the job of a rule
  unfoldable pub schedule_job : ℕ → Text → Option Job → W → Result Error (Unit {0}) × W
  schedule_job rule_id cron none w = jobs.add_job rule_id (job_id_of rule_id) cron w
  schedule_job rule_id cron (some job) w = jobs.reschedule_job (job_id_of rule_id) cron w

  unfoldable pub store_signature :
      SyncState W → ℕ → Text → Result Error (Unit {0}) × W → SyncState W
  store_signature s rule_id signature (raise e, w) = fail s w
  store_signature s rule_id signature (ok _, w) = record s {
    known = put rule_id signature s.known;
    world = w;
  }

  -- one round of the second loop of `sync`, from the job that was found on
  unfoldable pub sync_job : SyncState W → ℕ → AlertRule → Option Job → W → SyncState W
  sync_job s rule_id rule job w = elim (jobs.cron_signature rule.cron_expression) [
    | none ↦ fail s w
    | some signature ↦
        if knows (get rule_id s.known) signature && is_some job
        then record s { world = w }
        else store_signature s rule_id signature (schedule_job rule_id rule.cron_expression job w)
  ]

  unfoldable pub sync_rule : SyncState W → ℕ → AlertRule → SyncState W
  sync_rule s rule_id rule =
      let (found, w) = jobs.get_job (job_id_of rule_id) s.world in
      elim found [ raise e ↦ fail s w | ok job ↦ sync_job s rule_id rule job w ]

  unfoldable pub sync_rules : SyncState W → List (ℕ × AlertRule) → SyncState W
  sync_rules s [] = s
  sync_rules s ((rule_id, rule) ∷ rest) = sync_rules (sync_rule s rule_id rule) rest

  -- `set(known) - set(desired)`, in the order of the dictionary
  unfoldable pub obsolete : Known → List (ℕ × AlertRule) → List ℕ
  obsolete known desired = filter (λ i. not (is_some (get i desired))) (keys known)

  -- both loops of `sync`
  unfoldable pub sync_state : Known → W → List AlertRule → SyncState W
  sync_state known w rules =
      let desired = desired_from rules [] in
      sync_rules
        (remove_rules (record { known = known; failed_operations = 0; world = w })
          (obsolete known desired))
        desired

  -- `sync`: what it returns or raises, what it knows then, and the scheduler
  unfoldable pub sync : Known → W → List AlertRule → Result Error (Unit {0}) × Known × W
  sync known w rules =
      let s = sync_state known w rules in
      (
        if not (s.failed_operations == 0)
            then raise (runtime_error rule_schedule_sync_failure)
            else ok tt,
        s.known,
        s.world,
      )

  -- the loop of `build_scheduler`, which adds a job for every valid rule
  unfoldable pub add_rule_jobs : List AlertRule → W → Result Error (Unit {0}) × W
  add_rule_jobs [] w = (ok tt, w)
  add_rule_jobs (rule ∷ rest) w = elim (scheduled rule) [
    | none ↦ add_rule_jobs rest w
    | some (id, r) ↦
        let (added, w') = jobs.add_job id (job_id_of id) r.cron_expression w in
        elim added [ raise e ↦ (raise e, w') | ok _ ↦ add_rule_jobs rest w' ]
  ]

  -- `build_scheduler`, from a new scheduler on
  unfoldable pub build_scheduler : List AlertRule → W → Result Error (Unit {0}) × W
  build_scheduler rules new = add_rule_jobs rules new
