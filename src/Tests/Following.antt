-- ===== src/Tests/Following.antt =====
-- Runs of app/scheduler.py over a scheduler that is a table of triggers.
use early_warning_system.Prelude.{
  ℕ, ◌≡◌, refl, ◌∙◌, ap, Option, none, some, List, [], ◌∷◌, Text, codes, get, put, remove, get-put,
  get-remove, nat_eq, text_eq, ok, decimal, decimal_rounds, ok-injective,
}
use early_warning_system.Scheduler.{
  Job, Jobs, Known, job_id_of, sync, sync_state, desired_from, scheduled, remove_rules, remove_rule,
  obsolete, sync_rules, sync_rule, sync_job, schedule_job, store_signature,
}
use early_warning_system.Scheduler.Known.{signature_of}
use early_warning_system.Scheduler.Followed.{trigger_of, IsTable, job_id_beq, Agrees, sync-table}
use early_warning_system.Tests.World.{rule}

abbrev Table : Type 0
Table = List (Text × Text)

abbrev job_of : Text → Option Text → Option Job
job_of id none = none
job_of id (some trigger) = some (record { job_id = id; trigger = trigger })

abbrev jobs : Jobs Table
jobs = record {
  get_job = λ id w. (ok (job_of id (get id w)), w);
  remove_job = λ id w. (ok tt, remove id w);
  add_job = λ rule_id id cron w. (ok tt, put id cron w);
  reschedule_job = λ id cron w. (ok tt, put id cron w);
  cron_signature = λ cron. some cron;
  parse_int = λ t. none;
}

abbrev triggers : Table → Text → Option Text
triggers w id = get id w

trigger_of-job_of : (id : Text) (o : Option Text) → o ≡ trigger_of (job_of id o)
trigger_of-job_of id none = refl
trigger_of-job_of id (some t) = refl

jobs-IsTable : IsTable jobs triggers
jobs-IsTable = record {
  finds = λ id w found h.
      (trigger_of-job_of id (get id w) ∙ ap trigger_of (ok-injective h), λ other. refl);
  removes = λ id w h other. get-remove id other w;
  adds = λ rule_id id cron w h other. get-put id other cron w;
  reschedules = λ id cron w h other. get-put id other cron w;
}

-- the job of rule 2 is obsolete, that of rule 1 is missing
abbrev known : Known
known = (2, codes "old") ∷ []

abbrev table : Table
table = (job_id_of 2, codes "old") ∷ []

synced : (sync jobs known table (rule ∷ [])).0 ≡ ok tt
unfolding sync sync_state desired_from scheduled obsolete remove_rules remove_rule sync_rules
    sync_rule sync_job schedule_job store_signature job_id_of decimal decimal_rounds
synced = refl

agrees : Agrees jobs triggers jobs-IsTable known table
agrees j = rw (job_id_beq 2 j) refl

sync-table_example :
    ((j : ℕ)
      → triggers (sync jobs known table (rule ∷ [])).2 (job_id_of j)
        ≡ signature_of jobs (get j (desired_from jobs (rule ∷ []) [])) none)
    × Agrees jobs triggers jobs-IsTable
        (sync jobs known table (rule ∷ [])).1
        (sync jobs known table (rule ∷ [])).2
sync-table_example = sync-table jobs triggers jobs-IsTable known table (rule ∷ []) agrees synced
