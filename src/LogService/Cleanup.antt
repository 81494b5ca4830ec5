-- ===== src/LogService/Cleanup.antt =====
-- `cleanup_expired_logs`: it ends, and what it leaves.
use early_warning_system.Prelude.{
  ℕ, zero, suc, ◌+◌, ◌-◌, ◌≡◌, ◌≢◌, ◌<◌, sym, ◌∙◌, false, not, none, some, filter, length, is_empty,
  min, arith, option_eq, ok, Bool-cases, inl, inr, ltb, leb,
}
use early_warning_system.Models.{DateTime}
use early_warning_system.Database.{Db}
use early_warning_system.Outside.{Outside}
use early_warning_system.LogService.{
  is_expired, is_one_of, expired_ids, delete_logs, cleanup_rounds, cleanup_expired_logs, days,
}
use early_warning_system.LogService.Expired.{
  IsKeyed, filter-IsKeyed, expired_ids-spares, filter-spared, none_expired, hit, length-filter_hit,
}

module _ {W : Type 0} (out : Outside W) (cutoff : DateTime) (batch : ℕ) where
  cleanup_rounds-ends :
      (rounds deleted : ℕ) (db : Db) (w : W)
      → length db.execution_logs < rounds
      → (cleanup_rounds out cutoff (suc batch) rounds deleted db w).0 ≢ none
  unfolding cleanup_rounds delete_logs
  cleanup_rounds-ends zero deleted db w h = absurd (omega (arith, h))
  cleanup_rounds-ends (suc rounds) deleted db w h =
      let ids = expired_ids cutoff (suc batch) db.execution_logs in
      elim (Bool-cases (is_empty ids)) [
        | inl done ↦ rw (done, cleanup_rounds) (λ e. cc)
        | inr more ↦ elim (Bool-cases (out.commit w).0) [
          | inr failed ↦ rw (more, failed, cleanup_rounds) (λ e. cc)
          | inl committed ↦
              rw (more, committed, cleanup_rounds)
                (cleanup_rounds-ends rounds (deleted + length ids) (delete_logs ids db)
                  (out.commit w).1
                  (omega (
                    arith,
                    h,
                    length-filter_hit cutoff (λ l. is_one_of ids l.id) db.execution_logs
                        (hit cutoff batch db.execution_logs more),
                  )))
        ]
      ]

  cleanup_rounds-keeps :
      (rounds deleted : ℕ) (db : Db) (w : W) (n : ℕ)
      → IsKeyed db.execution_logs
      → (cleanup_rounds out cutoff (suc batch) rounds deleted db w).0 ≡ some (ok n)
      → (cleanup_rounds out cutoff (suc batch) rounds deleted db w).1.execution_logs
        ≡ filter (λ l. not (is_expired cutoff l)) db.execution_logs
  unfolding cleanup_rounds delete_logs
  cleanup_rounds-keeps zero deleted db w n k e = cc
  cleanup_rounds-keeps (suc rounds) deleted db w n k e =
      let ids = expired_ids cutoff (suc batch) db.execution_logs in
      elim (Bool-cases (is_empty ids)) [
        | inl done ↦
            rw (done, cleanup_rounds) (sym (none_expired cutoff batch db.execution_logs done))
        | inr more ↦ elim (Bool-cases (out.commit w).0) [
          | inr failed ↦ cc (rw (more, failed, cleanup_rounds) at e)
          | inl committed ↦
              rw (more, committed, cleanup_rounds)
                (cleanup_rounds-keeps rounds (deleted + length ids) (delete_logs ids db)
                    (out.commit w).1 n
                    (filter-IsKeyed (λ l. not (is_one_of ids l.id)) db.execution_logs k)
                    (rw (more, committed, cleanup_rounds) at e)
                  ∙ filter-spared cutoff ids db.execution_logs
                      (expired_ids-spares cutoff db.execution_logs (suc batch) k))
        ]
      ]

-- The batch size that `min` gives is positive.
positive_batch :
    (batch_size : ℕ) → leb batch_size 0 ≡ false → (n : ℕ) × (min batch_size 500 ≡ suc n)
positive_batch zero h = cc
positive_batch (suc n) h = (min n 499, omega arith)

module _ {W : Type 0} (out : Outside W) (retention_days : ℕ) (now : DateTime) (batch_size : ℕ)
    (db : Db) (w : W) where
  -- The cleanup ends, whatever the batch size and the commits are: a round for each log and one more
  -- are enough.
  pub cleanup_expired_logs-ends :
      (cleanup_expired_logs out retention_days now batch_size db w).0 ≢ none
  unfolding cleanup_expired_logs
  cleanup_expired_logs-ends = elim (Bool-cases (leb batch_size 0)) [
    | inl empty ↦ rw (empty, cleanup_expired_logs) (λ e. cc)
    | inr sized ↦ elim (Bool-cases (ltb now (days retention_days))) [
      | inl early ↦ rw (sized, early, cleanup_expired_logs) (λ e. cc)
      | inr late ↦
          let (n, size) = positive_batch batch_size sized in
          rw (sized, late, size, cleanup_expired_logs)
            (cleanup_rounds-ends out (now - days retention_days) n (suc (length db.execution_logs))
              0 db w (omega arith))
    ]
  ]

  -- If the cleanup returns, and the keys of the logs are different, the logs that are left are
  -- those that had not finished before the cutoff or are still running, all of them, in their
  -- order.
  pub cleanup_expired_logs-keeps :
      (n : ℕ)
      → IsKeyed db.execution_logs
      → (cleanup_expired_logs out retention_days now batch_size db w).0 ≡ some (ok n)
      → (cleanup_expired_logs out retention_days now batch_size db w).1.execution_logs
        ≡ filter (λ l. not (is_expired (now - days retention_days) l)) db.execution_logs
  unfolding cleanup_expired_logs
  cleanup_expired_logs-keeps n k e = elim (Bool-cases (leb batch_size 0)) [
    | inl empty ↦ cc (rw (empty, cleanup_expired_logs) at e)
    | inr sized ↦ elim (Bool-cases (ltb now (days retention_days))) [
      | inl early ↦ cc (rw (sized, early, cleanup_expired_logs) at e)
      | inr late ↦
          let (m, size) = positive_batch batch_size sized in
          rw (sized, late, size, cleanup_expired_logs)
            (cleanup_rounds-keeps out (now - days retention_days) m (suc (length db.execution_logs))
              0 db w n k (rw (sized, late, size, cleanup_expired_logs) at e))
    ]
  ]
