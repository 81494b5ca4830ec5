-- ===== src/Worker/Shutdown.antt =====
-- `run_sync_loop`: when the scheduler is shut down.
use early_warning_system.Prelude.{
  ℕ, zero, suc, ◌≡◌, ◌<◌, refl, Bool, true, false, List, ◌∷◌, count, arith, Bool-cases,
  Option-cases, inl, inr, ◌⊎◌,
}
use early_warning_system.Worker.{
  Outcome, returned, raised, interrupted, RuleSyncResult, LoopCalls, Call, cleaned, synced,
  recorded, started, slept, timed, shut_down, LoopState, called, Block, ◌>>=◌, ◌>>◌, continue, give,
  make, quietly, is_due, cleanup_logs_once, record_sync_heartbeat, set_deadline, mark_started,
  cleanup_if_due, sync_and_record, begin, round, rounds, new_state, on_interrupt, guarded,
  run_sync_loop,
}
use early_warning_system.Worker.Loop.{is_shut_down}

abbrev pub is_started : Call → Bool
is_started started = true
is_started _ = false

-- the calls so far have not shut the scheduler down, and have started it if the flag says so
abbrev IsOpen : {W : Type 0} → LoopState W → Type 0
IsOpen s =
    (count is_shut_down s.calls ≡ 0) × (s.scheduler_started ≡ true → 0 < count is_started s.calls)

module _ {W : Type 0} where
  KeepsOpen : {A : Type 0} → (LoopState W → Block W A) → Type 0
  KeepsOpen block = (s : LoopState W) → IsOpen s → IsOpen (block s).1

  continue-IsOpen :
      {A B : Type 0} (b : Block W A) (g : A → LoopState W → Block W B)
      → IsOpen b.1
      → ((a : A) → KeepsOpen (g a))
      → IsOpen (continue b g).1
  unfolding KeepsOpen
  continue-IsOpen (returned a, s) g h keep = keep a s h
  continue-IsOpen (raised e, s) g h keep = h
  continue-IsOpen (interrupted, s) g h keep = h

  >>=-KeepsOpen :
      {A B : Type 0} (f : LoopState W → Block W A) (g : A → LoopState W → Block W B)
      → KeepsOpen f
      → ((a : A) → KeepsOpen (g a))
      → KeepsOpen (f >>= g)
  unfolding KeepsOpen
  >>=-KeepsOpen f g p q s h = continue-IsOpen (f s) g (p s h) q

  make-KeepsOpen :
      {A : Type 0} (call : Call) (f : W → Outcome A × W)
      → is_shut_down call ≡ false
      → KeepsOpen (make call f)
  unfolding KeepsOpen make called
  make-KeepsOpen call f other s h = (ground (arith, h.0, other), λ flag. ground (arith, h.1 flag))

  quietly-KeepsOpen :
      (block : LoopState W → Block W (Unit {0})) → KeepsOpen block → KeepsOpen (quietly block)
  unfolding KeepsOpen quietly
  quietly-KeepsOpen block keep s h = keep s h

module _ {W : Type 0} (calls : LoopCalls W) where
  set_deadline-KeepsOpen : (now : ℕ) → KeepsOpen (set_deadline calls now)
  unfolding KeepsOpen set_deadline
  set_deadline-KeepsOpen now s h = h

  cleanup-KeepsOpen : KeepsOpen (cleanup_logs_once calls)
  unfolding cleanup_logs_once
  cleanup-KeepsOpen = quietly-KeepsOpen _ (make-KeepsOpen cleaned calls.cleanup_logs refl)

  cleanup_if_due-KeepsOpen : (now : ℕ) → KeepsOpen (cleanup_if_due calls now)
  unfolding KeepsOpen cleanup_if_due
  cleanup_if_due-KeepsOpen now s h = elim (Bool-cases (is_due now s.next_cleanup_at)) [
    | inr early ↦ rw early h
    | inl due ↦ rw due (
        >>=-KeepsOpen (cleanup_logs_once calls) (λ u. set_deadline calls now) cleanup-KeepsOpen
          (λ u. set_deadline-KeepsOpen now) s h)
  ]

  record-KeepsOpen : (result : RuleSyncResult) → KeepsOpen (record_sync_heartbeat calls result)
  unfolding KeepsOpen record_sync_heartbeat
  record-KeepsOpen result s h = elim (Option-cases calls.record_sync) [
    | inl no_worker ↦ rw (no_worker, record_sync_heartbeat) h
    | inr (f, given) ↦
        rw (given, record_sync_heartbeat)
          (quietly-KeepsOpen (make recorded (f result)) (make-KeepsOpen recorded (f result) refl) s
            h)
  ]

  sync_and_record-KeepsOpen : KeepsOpen (sync_and_record calls)
  unfolding sync_and_record
  sync_and_record-KeepsOpen =
      >>=-KeepsOpen _ _ (make-KeepsOpen synced calls.sync_once refl) record-KeepsOpen

  mark-IsOpen :
      (o : Outcome (Unit {0})) (s : LoopState W)
      → count is_shut_down s.calls ≡ 0
      → 0 < count is_started s.calls
      → IsOpen (continue (o, s) (λ u. mark_started calls)).1
  unfolding mark_started
  mark-IsOpen (returned u) s no_end begun = (no_end, λ flag. begun)
  mark-IsOpen (raised e) s no_end begun = (no_end, λ flag. begun)
  mark-IsOpen interrupted s no_end begun = (no_end, λ flag. begun)

  -- the flag is set only behind the call that starts the scheduler
  start-KeepsOpen : KeepsOpen (make started calls.start >> mark_started calls)
  unfolding KeepsOpen make called mark_started
  start-KeepsOpen s h =
      let w = (calls.start s.world).1 in
      mark-IsOpen (calls.start s.world).0 (called started s w) (ground (arith, h.0)) (ground arith)

  round-KeepsOpen : KeepsOpen (round calls)
  unfolding round
  round-KeepsOpen = >>=-KeepsOpen _ _ (make-KeepsOpen slept calls.sleep_fn refl) (λ u.
      >>=-KeepsOpen _ _ (make-KeepsOpen timed calls.monotonic_fn refl)
        (λ now. >>=-KeepsOpen _ _ (cleanup_if_due-KeepsOpen now) (λ u. sync_and_record-KeepsOpen)))

  give-KeepsOpen : KeepsOpen {W = W} (give tt)
  unfolding KeepsOpen
  give-KeepsOpen s h = h

  rounds-KeepsOpen : (n : ℕ) → KeepsOpen (rounds calls n)
  unfolding rounds
  rounds-KeepsOpen zero = give-KeepsOpen
  rounds-KeepsOpen (suc n) = >>=-KeepsOpen _ _ round-KeepsOpen (λ u. rounds-KeepsOpen n)

  begin-KeepsOpen : KeepsOpen (begin calls)
  unfolding begin
  begin-KeepsOpen = >>=-KeepsOpen _ _ cleanup-KeepsOpen (λ u.
      >>=-KeepsOpen _ _ (make-KeepsOpen timed calls.monotonic_fn refl) (λ now.
        >>=-KeepsOpen _ _ (set_deadline-KeepsOpen now)
          (λ u. >>=-KeepsOpen _ _ sync_and_record-KeepsOpen (λ u. start-KeepsOpen))))

  -- Either the scheduler is never shut down, or it is once, as the last call of all, after a call that
  -- started it.
  abbrev pub EndsOnce : List Call → Type 0
  EndsOnce made =
      (count is_shut_down made ≡ 0)
      ⊎ ((before : List Call) × (made ≡ shut_down ∷ before)
          × (count is_shut_down before ≡ 0)
          × (0 < count is_started before))

  guarded-EndsOnce : (b : Block W (Unit {0})) → IsOpen b.1 → EndsOnce (guarded calls b).1.calls
  unfolding guarded on_interrupt make called
  guarded-EndsOnce (returned u, s) h = inl h.0
  guarded-EndsOnce (raised e, s) h = inl h.0
  guarded-EndsOnce (interrupted, s) h = elim (Bool-cases s.scheduler_started) [
    | inl flag ↦ rw flag (inr (s.calls, refl, h.0, h.1 flag))
    | inr not_yet ↦ rw not_yet (inl h.0)
  ]

  opened : (n : ℕ) (w : W) → IsOpen ((begin calls >> rounds calls n) (new_state calls w)).1
  unfolding KeepsOpen new_state
  opened n w =
      >>=-KeepsOpen (begin calls) (λ u. rounds calls n) begin-KeepsOpen (λ u. rounds-KeepsOpen n)
        (new_state calls w) (refl, λ flag. cc)

  -- Whatever the calls return, raise or have cut off, and after any number of rounds: the scheduler is
  -- not shut down, or it is once, as the last call of all and behind the one that started it.
  pub run_sync_loop-EndsOnce : (n : ℕ) (w : W) → EndsOnce (run_sync_loop calls n w).1.calls
  unfolding run_sync_loop
  run_sync_loop-EndsOnce n w =
      guarded-EndsOnce ((begin calls >> rounds calls n) (new_state calls w)) (opened n w)
