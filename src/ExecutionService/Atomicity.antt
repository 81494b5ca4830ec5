-- ===== src/ExecutionService/Atomicity.antt =====
-- `persist_execution_result`: the rows of one execution are stored together or not at all.
use early_warning_system.Prelude.{
  ℕ, suc, ◌≡◌, ◌≢◌, refl, ap, ◌⊎◌, true, false, Option, none, some, List, [], ◌∷◌, ◌++◌, map,
  length, arith, ok, raise, ◌==◌, Bool-cases, inl, inr, eq_iff,
}
use early_warning_system.Models.{
  DateTime, AlertRule, TriggerType, ExecutionStatus, status_eq, MailLog,
}
use early_warning_system.Database.{Db, above}
use early_warning_system.Outside.{Outside}
use early_warning_system.ExecutionLock.{database_error}
use early_warning_system.Executor.{ExecutionResult, ExecutionMailResult}
use early_warning_system.ExecutionService.Attempt.{SuppressionState}
use early_warning_system.ExecutionService.Persist.{
  persist_keys, persist_suppression_state, build_execution_log, build_mail_logs, staged,
  persist_execution_result,
}

length-build_mail_logs :
    {W : Type 0} (out : Outside W) (id log_id : ℕ) (results : List ExecutionMailResult) (w : W)
    → length (build_mail_logs out id log_id results w).0 ≡ length results
unfolding build_mail_logs
length-build_mail_logs out id log_id [] w = refl
length-build_mail_logs out id log_id (m ∷ rest) w =
    omega (arith, length-build_mail_logs out (suc id) log_id rest (out.now w).1)

persist_keys-other :
    (rule : AlertRule) (r : ExecutionResult) (state : Option SuppressionState) (db : Db)
    → r.status ≢ ExecutionStatus.success
    → persist_keys rule r state db ≡ db
unfolding persist_keys
persist_keys-other rule r none db h = refl
persist_keys-other rule r (some state) db h =
    elim (Bool-cases (r.status == ExecutionStatus.success)) [
      | inl same ↦ absurd (h ((eq_iff r.status ExecutionStatus.success).0 same))
      | inr other ↦ rw other refl
    ]

persist_keys-logs :
    (rule : AlertRule) (r : ExecutionResult) (state : Option SuppressionState) (db : Db)
    → ((persist_keys rule r state db).execution_logs ≡ db.execution_logs)
      × ((persist_keys rule r state db).mail_logs ≡ db.mail_logs)
unfolding persist_keys persist_suppression_state
persist_keys-logs rule r none db = (refl, refl)
persist_keys-logs rule r (some state) db = elim (Bool-cases (r.status == ExecutionStatus.success)) [
  | inl same ↦ (rw same refl, rw same refl)
  | inr other ↦ (rw other refl, rw other refl)
]

module _ {W : Type 0} (out : Outside W) (rule : AlertRule) (trigger : TriggerType)
    (r : ExecutionResult) (state : Option SuppressionState) (started_at finished_at : DateTime)
    (db : Db) (w : W) where
  -- the key of the execution's log
  abbrev pub log_id : ℕ
  log_id = above (map (λ l. l.id) db.execution_logs)

  -- How the database was before, and how it is after.
  pub record IsComplete (before after : Db) : Type 0 where
    pub mails : List MailLog
    pub mail_logs : after.mail_logs ≡ before.mail_logs ++ mails
    pub one_each : length mails ≡ length r.mail_results
    pub execution_logs :
        after.execution_logs
        ≡ before.execution_logs
          ++ build_execution_log log_id rule trigger r started_at finished_at ∷ []
    pub suppressions : r.status ≢ ExecutionStatus.success → after.suppressions ≡ before.suppressions

  staged-IsComplete :
      (id : ℕ) (w : W)
      → IsComplete db (
          staged out rule r state
            (build_execution_log log_id rule trigger r started_at finished_at)
            (build_mail_logs out id log_id r.mail_results w).0
            db)
  unfolding staged
  staged-IsComplete id w = record {
    mails = (build_mail_logs out id log_id r.mail_results w).0;
    mail_logs = rw (persist_keys-logs rule r state db).1 refl;
    one_each = length-build_mail_logs out id log_id r.mail_results w;
    execution_logs = rw (persist_keys-logs rule r state db).0 refl;
    suppressions = λ h. ap (λ d. d.suppressions) (persist_keys-other rule r state db h);
  }

  -- The rows of an execution are stored together or not at all: if the commit fails, the call raises
  -- and the database is as before; if it goes through, the call returns the execution's log, which
  -- is the only one added, with a mail log for each mail result, and the suppression keys of a run
  -- that is not a success are not stored.
  pub persist_execution_result-cases :
      ((persist_execution_result out rule trigger r state started_at finished_at db w).0
          ≡ raise database_error
        × ((persist_execution_result out rule trigger r state started_at finished_at db w).1 ≡ db)
        × ((out.commit
              (build_mail_logs out
                (above (map (λ m. m.id) db.mail_logs))
                log_id
                r.mail_results
                w).1).0
            ≡ false))
      ⊎ (((persist_execution_result out rule trigger r state started_at finished_at db w).0
            ≡ ok (build_execution_log log_id rule trigger r started_at finished_at))
          × IsComplete db
              (persist_execution_result out rule trigger r state started_at finished_at db w).1
          × ((out.commit
                (build_mail_logs out
                  (above (map (λ m. m.id) db.mail_logs))
                  log_id
                  r.mail_results
                  w).1).0
              ≡ true))
  unfolding persist_execution_result
  persist_execution_result-cases =
      let id = above (map (λ m. m.id) db.mail_logs) in
      let w' = (build_mail_logs out id log_id r.mail_results w).1 in
      elim (Bool-cases (out.commit w').0) [
        | inr failed ↦ inl (
          rw (failed, persist_execution_result) refl,
          rw (failed, persist_execution_result) refl,
          failed,
        )
        | inl done ↦ inr (
          rw (done, persist_execution_result) refl,
          rw (done, persist_execution_result) (staged-IsComplete id w),
          done,
        )
      ]
