-- ===== src/Scheduler/Built.antt =====
-- The jobs of a new scheduler.
use early_warning_system.Prelude.{
  ℕ, ◌≡◌, refl, sym, ◌∙◌, none, List, [], ◌∷◌, Text, Option, get, get-put, put, ◌==◌, nat_eq,
  text_eq, if◌then◌else◌, ok, Option-cases, Result-cases, Bool-cases, inl, inr,
}
use early_warning_system.Models.{AlertRule}
use early_warning_system.Scheduler.{
  Jobs, job_id_of, scheduled, desired_from, add_rule_jobs, build_scheduler,
}
use early_warning_system.Scheduler.Known.{signature_of}
use early_warning_system.Scheduler.Followed.{IsTable, job_id_beq}

module _ {W : Type 0} (jobs : Jobs W) (triggers : W → Text → Option Text)
    (table : IsTable jobs triggers) where
  -- The table has the jobs of some rules.
  HasJobs : List (ℕ × AlertRule) → W → Type 0
  HasJobs desired w = (j : ℕ) → triggers w (job_id_of j) ≡ signature_of jobs (get j desired) none

  signature-put :
      (id j : ℕ) (r : AlertRule) (d : List (ℕ × AlertRule))
      → signature_of jobs (get j (put id r d)) none ≡ (
          if id == j
          then jobs.cron_signature r.cron_expression
          else signature_of jobs (get j d) none)
  signature-put id j r d = elim (Bool-cases (id == j)) [
    | inl same ↦ rw (get-put id j r d, same) refl
    | inr other ↦ rw (get-put id j r d, other) refl
  ]

  add_rule_jobs-HasJobs :
      (rules : List AlertRule) (d : List (ℕ × AlertRule)) (w : W)
      → HasJobs d w
      → (add_rule_jobs jobs rules w).0 ≡ ok tt
      → HasJobs (desired_from jobs rules d) (add_rule_jobs jobs rules w).1
  unfolding HasJobs add_rule_jobs desired_from
  add_rule_jobs-HasJobs [] d w h done = h
  add_rule_jobs-HasJobs (rule ∷ rest) d w h done = elim (Option-cases (scheduled jobs rule)) [
    | inl skipped ↦
        rw (skipped, add_rule_jobs, desired_from)
          (add_rule_jobs-HasJobs rest d w h (rw (skipped, add_rule_jobs) at done))
    | inr ((id, r), valid) ↦
        let cron = r.cron_expression in
        elim (Result-cases (jobs.add_job id (job_id_of id) cron w).0) [
          | inr (e, failed) ↦ cc (rw (valid, failed, add_rule_jobs) at done)
          | inl (u, added) ↦
              rw (valid, added, add_rule_jobs, desired_from)
                (add_rule_jobs-HasJobs rest (put id r d) _
                  (λ j.
                    table.adds id (job_id_of id) cron w added (job_id_of j)
                    ∙ (rw (job_id_beq id j, h j) (sym (signature-put id j r d))))
                  (rw (valid, added, add_rule_jobs) at done))
        ]
  ]

  -- From a scheduler without jobs of rules: if all jobs are added, then a rule has a job exactly when
  -- it is to be scheduled, with the trigger of its cron expression.
  pub build_scheduler-HasJobs :
      (rules : List AlertRule) (new : W)
      → ((j : ℕ) → triggers new (job_id_of j) ≡ none)
      → (build_scheduler jobs rules new).0 ≡ ok tt
      → (j : ℕ)
      → triggers (build_scheduler jobs rules new).1 (job_id_of j)
        ≡ signature_of jobs (get j (desired_from jobs rules [])) none
  unfolding build_scheduler HasJobs
  build_scheduler-HasJobs rules new empty done = add_rule_jobs-HasJobs rules [] new empty done
