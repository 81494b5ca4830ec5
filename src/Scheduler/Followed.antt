-- ===== src/Scheduler/Followed.antt =====
-- The jobs of a scheduler that keeps a table of them, against the rules of the database.
use early_warning_system.Prelude.{
  ℕ, ◌≡◌, ◌≤◌, refl, sym, ◌∙◌, ap, ◌&&◌, Option, none, some, List, [], ◌∷◌, Text, decimal,
  decimal-injective, get, get-put, get-remove, is_some, arith, ◌==◌, nat_eq, text_eq, text_beq_iff,
  eq_iff, if◌then◌else◌, ok, Bool-cases, Option-cases, Result-cases, inl, inr,
}
use early_warning_system.Models.{AlertRule}
use early_warning_system.Scheduler.{
  Job, Jobs, Known, SyncState, job_id_of, desired_from, fail, remove_rule, remove_rules,
  schedule_job, store_signature, sync_job, sync_rule, sync_rules, obsolete, sync_state, sync, knows,
}
use early_warning_system.Scheduler.Known.{signature_of, known-sync}

abbrev pub trigger_of : Option Job → Option Text
trigger_of none = none
trigger_of (some job) = some job.trigger

-- A scheduler whose calls, where they return, read and change a table of triggers by job id.
pub record IsTable {W : Type 0} (jobs : Jobs W) (triggers : W → Text → Option Text) : Type 0 where
  pub finds :
      (id : Text) (w : W) (found : Option Job)
      → (jobs.get_job id w).0 ≡ ok found
      → (triggers w id ≡ trigger_of found)
        × ((other : Text) → triggers (jobs.get_job id w).1 other ≡ triggers w other)
  pub removes :
      (id : Text) (w : W)
      → (jobs.remove_job id w).0 ≡ ok tt
      → (other : Text)
      → triggers (jobs.remove_job id w).1 other ≡ (if id == other then none else triggers w other)
  pub adds :
      (rule_id : ℕ) (id cron : Text) (w : W)
      → (jobs.add_job rule_id id cron w).0 ≡ ok tt
      → (other : Text)
      → triggers (jobs.add_job rule_id id cron w).1 other
        ≡ (if id == other then jobs.cron_signature cron else triggers w other)
  pub reschedules :
      (id cron : Text) (w : W)
      → (jobs.reschedule_job id cron w).0 ≡ ok tt
      → (other : Text)
      → triggers (jobs.reschedule_job id cron w).1 other
        ≡ (if id == other then jobs.cron_signature cron else triggers w other)

same_decimal : (i j : ℕ) → i ≡ j → decimal i ≡ decimal j
same_decimal i j e = ap decimal e

-- another rule's job has another id
pub job_id_beq : (i j : ℕ) → (job_id_of i == job_id_of j) ≡ (i == j)
unfolding job_id_of
job_id_beq i j = ground (
  arith,
  text_beq_iff (decimal i) (decimal j),
  decimal-injective i j,
  eq_iff i j,
  same_decimal i j,
)

module _ {W : Type 0} (jobs : Jobs W) (triggers : W → Text → Option Text)
    (table : IsTable jobs triggers) where
  -- What is known of a rule is the trigger of its job.
  abbrev pub Agrees : Known → W → Type 0
  Agrees known w = (j : ℕ) → get j known ≡ triggers w (job_id_of j)

  change-Agrees :
      (id : ℕ) (new : Option Text) (known known' : Known) (w w' : W)
      → ((j : ℕ) → get j known' ≡ (if id == j then new else get j known))
      → ((other : Text)
          → triggers w' other ≡ (if job_id_of id == other then new else triggers w other))
      → Agrees known w
      → Agrees known' w'
  change-Agrees id new known known' w w' learned changed a j =
      learned j ∙ (rw (job_id_beq id j, a j) refl) ∙ sym (changed (job_id_of j))

  unchanged_lem :
      (w : W) (id other : Text) (new : Option Text)
      → triggers w id ≡ new
      → triggers w other ≡ (if id == other then new else triggers w other)
  unchanged_lem w id other new e = elim (Bool-cases (id == other)) [
    | inr apart ↦ rw apart refl
    | inl same ↦ rw same (sym (ap (triggers w) ((text_beq_iff id other).0 same)) ∙ e)
  ]

  -- A step that fails or keeps the agreement of what is known with a world.
  abbrev Follows : SyncState W → W → SyncState W → Type 0
  Follows s w t =
      (s.failed_operations ≤ t.failed_operations)
      × (t.failed_operations ≡ s.failed_operations → Agrees s.known w → Agrees t.known t.world)

  fail-Follows : (s : SyncState W) (w w' : W) → Follows s w (fail jobs s w')
  unfolding fail
  fail-Follows s w w' = (omega arith, λ h. absurd (omega (arith, h)))

  Follows-trans :
      (s t u : SyncState W) (w : W) → Follows s w t → Follows t t.world u → Follows s w u
  Follows-trans s t u w f g = (
    omega (arith, f.0, g.0),
    λ h a. g.1 (omega (arith, h, f.0, g.0)) (f.1 (omega (arith, h, f.0, g.0)) a),
  )

  remove_rule-Follows : (s : SyncState W) (id : ℕ) → Follows s s.world (remove_rule jobs s id)
  unfolding remove_rule
  remove_rule-Follows s id = elim (Result-cases (jobs.get_job (job_id_of id) s.world).0) [
    | inr (e, failed) ↦ rw (failed, remove_rule) (fail-Follows s _ _)
    | inl (found, answered) ↦
        let (there, kept) = table.finds (job_id_of id) s.world found answered in
        let w = (jobs.get_job (job_id_of id) s.world).1 in
        elim (Option-cases found) [
          | inl absent ↦
              rw (answered, absent, remove_rule)
                (
                  omega arith,
                  λ h.
                      change-Agrees id none s.known _ s.world w (λ j. get-remove id j s.known)
                        (λ other.
                          kept other
                          ∙ unchanged_lem s.world (job_id_of id) other none (rw absent at there)),
                )
          | inr (job, present) ↦ elim (Result-cases (jobs.remove_job (job_id_of id) w).0) [
            | inr (e, failed) ↦ rw (answered, present, failed, remove_rule) (fail-Follows s _ _)
            | inl (tt, removed) ↦
                rw (answered, present, removed, remove_rule)
                  (
                    omega arith,
                    λ h a.
                        change-Agrees id none s.known _ w _ (λ j. get-remove id j s.known)
                          (table.removes (job_id_of id) w removed)
                          (λ j. a j ∙ sym (kept (job_id_of j))),
                  )
          ]
        ]
  ]

  remove_rules-Follows :
      (ids : List ℕ) (s : SyncState W) → Follows s s.world (remove_rules jobs s ids)
  unfolding remove_rules
  remove_rules-Follows [] s = (omega arith, λ h a. a)
  remove_rules-Follows (id ∷ ids) s =
      Follows-trans s (remove_rule jobs s id) _ s.world (remove_rule-Follows s id)
        (remove_rules-Follows ids (remove_rule jobs s id))

  schedule_job-changes :
      (id : ℕ) (cron : Text) (job : Option Job) (w : W)
      → (schedule_job jobs id cron job w).0 ≡ ok tt
      → (other : Text)
      → triggers (schedule_job jobs id cron job w).1 other
        ≡ (if job_id_of id == other then jobs.cron_signature cron else triggers w other)
  unfolding schedule_job
  schedule_job-changes id cron none w h = table.adds id (job_id_of id) cron w h
  schedule_job-changes id cron (some job) w h = table.reschedules (job_id_of id) cron w h

  sync_job-Follows :
      (s : SyncState W) (id : ℕ) (rule : AlertRule) (job : Option Job) (w : W)
      → Follows s w (sync_job jobs s id rule job w)
  unfolding sync_job store_signature
  sync_job-Follows s id rule job w =
      let cron = rule.cron_expression in
      elim (Option-cases (jobs.cron_signature cron)) [
        | inl invalid ↦ rw (invalid, sync_job) (fail-Follows s w w)
        | inr (signature, valid) ↦
            elim (Bool-cases (knows (get id s.known) signature && is_some job)) [
              | inl unchanged ↦ rw (valid, unchanged, sync_job) (omega arith, λ h a. a)
              | inr changed ↦ elim (Result-cases (schedule_job jobs id cron job w).0) [
                | inr (e, failed) ↦
                    rw (valid, changed, sync_job, failed, store_signature) (fail-Follows s w _)
                | inl (tt, done) ↦
                    rw (valid, changed, sync_job, done, store_signature)
                      (
                        omega arith,
                        λ h.
                            change-Agrees id (some signature) s.known _ w _
                              (λ j. get-put id j signature s.known)
                              (λ other.
                                rw valid at (schedule_job-changes id cron job w done other)),
                      )
              ]
            ]
      ]

  sync_rule-Follows :
      (s : SyncState W) (id : ℕ) (rule : AlertRule) → Follows s s.world (sync_rule jobs s id rule)
  unfolding sync_rule
  sync_rule-Follows s id rule = elim (Result-cases (jobs.get_job (job_id_of id) s.world).0) [
    | inr (e, failed) ↦ rw (failed, sync_rule) (fail-Follows s s.world _)
    | inl (job, answered) ↦
        let (there, kept) = table.finds (job_id_of id) s.world job answered in
        let f = sync_job-Follows s id rule job (jobs.get_job (job_id_of id) s.world).1 in
        rw (answered, sync_rule) (f.0, λ h a. f.1 h (λ j. a j ∙ sym (kept (job_id_of j))))
  ]

  sync_rules-Follows :
      (desired : List (ℕ × AlertRule)) (s : SyncState W)
      → Follows s s.world (sync_rules jobs s desired)
  unfolding sync_rules
  sync_rules-Follows [] s = (omega arith, λ h a. a)
  sync_rules-Follows ((id, rule) ∷ desired) s =
      Follows-trans s (sync_rule jobs s id rule) _ s.world (sync_rule-Follows s id rule)
        (sync_rules-Follows desired (sync_rule jobs s id rule))

  sync-Agrees :
      (known : Known) (w : W) (rules : List AlertRule)
      → Agrees known w
      → (sync jobs known w rules).0 ≡ ok tt
      → Agrees (sync jobs known w rules).1 (sync jobs known w rules).2
  unfolding sync sync_state
  sync-Agrees known w rules a done =
      let desired = desired_from jobs rules [] in
      let s : SyncState W = record { known = known; failed_operations = 0; world = w } in
      let t = remove_rules jobs s (obsolete jobs known desired) in
      let none_failed : (sync_rules jobs t desired).failed_operations ≡ 0 = ground (arith, done) in
      (Follows-trans s t _ w (remove_rules-Follows (obsolete jobs known desired) s)
          (sync_rules-Follows desired t)).1
        none_failed a

  -- If the scheduler keeps a table of its jobs, and the synchroniser knows the triggers of the rules'
  -- jobs, then a synchronisation that returns refines the assignment of the table: a rule has a job
  -- exactly when it is to be scheduled, with the trigger of its cron expression; and the synchroniser
  -- knows the triggers again.
  pub sync-table :
      (known : Known) (w : W) (rules : List AlertRule)
      → Agrees known w
      → (sync jobs known w rules).0 ≡ ok tt
      → ((j : ℕ)
          → triggers (sync jobs known w rules).2 (job_id_of j)
            ≡ signature_of jobs (get j (desired_from jobs rules [])) none)
        × Agrees (sync jobs known w rules).1 (sync jobs known w rules).2
  sync-table known w rules a done =
      let agrees = sync-Agrees known w rules a done in
      (λ j. sym (agrees j) ∙ known-sync jobs known w rules j done, agrees)
