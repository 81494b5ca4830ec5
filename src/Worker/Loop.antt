-- ===== src/Worker/Loop.antt =====
-- `run_sync_loop`: the calls that it makes, and how long it runs.
use early_warning_system.Prelude.{
  ℕ, zero, suc, ◌+◌, ◌≡◌, ◌≢◌, refl, ap, ◌∙◌, Bool, true, false, some, count, bit, arith,
  Bool-cases, Option-cases, inl, inr, ◌⊎◌,
}
use early_warning_system.Errors.{Error}
use early_warning_system.Worker.{
  Outcome, returned, raised, interrupted, RuleSyncResult, LoopCalls, Call, cleaned, synced,
  recorded, started, slept, timed, shut_down, LoopState, called, Block, ◌>>=◌, continue, make,
  quietly, deadline, is_due, cleanup_logs_once, record_sync_heartbeat, set_deadline, mark_started,
  cleanup_if_due, sync_and_record, begin, round, rounds, new_state, guarded, run_sync_loop,
}

abbrev pub is_synced : Call → Bool
is_synced synced = true
is_synced _ = false

abbrev pub is_shut_down : Call → Bool
is_shut_down shut_down = true
is_shut_down _ = false

Outcome-cases :
    {A : Type 0} (o : Outcome A)
    → ((a : A) × (o ≡ returned a)) ⊎ ((e : Error) × (o ≡ raised e)) ⊎ (o ≡ interrupted)
Outcome-cases (returned a) = inl (a, refl)
Outcome-cases (raised e) = inr (inl (e, refl))
Outcome-cases interrupted = inr (inr refl)

-- A call that always returns.
abbrev pub Returns : {W A : Type 0} → (W → Outcome A × W) → Type 0
Returns {W} {A} f = (w : W) → (a : A) × ((f w).0 ≡ returned a)

-- A call that returns or raises, and is never cut off.
abbrev pub IsUncut : {W A : Type 0} → (W → Outcome A × W) → Type 0
IsUncut {W} f = (w : W) → (f w).0 ≢ interrupted

module _ {W : Type 0} where
  -- A block that always goes on, with so many synchronisations.
  Advances : {A : Type 0} → ℕ → (LoopState W → Block W A) → Type 0
  Advances {A} k block =
      (s : LoopState W)
      → (a : A) × (s' : LoopState W) × (block s ≡ (returned a, s'))
        × (count is_synced s'.calls ≡ count is_synced s.calls + k)

  >>=-Advances :
      {A B : Type 0} (j k : ℕ) (f : LoopState W → Block W A) (g : A → LoopState W → Block W B)
      → Advances j f
      → ((a : A) → Advances k (g a))
      → Advances (j + k) (f >>= g)
  unfolding Advances
  >>=-Advances j k f g p q s =
      let (a, s', e, n) = p s in
      let (b, s'', e', m) = q a s' in
      (b, s'', ap (λ block. continue block g) e ∙ e', omega (arith, n, m))

  make-Advances :
      {A : Type 0} (call : Call) (f : W → Outcome A × W)
      → Returns f
      → Advances (bit (is_synced call)) (make call f)
  unfolding Advances make called
  make-Advances call f ret s =
      let (a, e) = ret s.world in (a, called call s (f s.world).1, rw e refl, ground arith)

  quietly-Advances :
      (call : Call) (f : W → Outcome (Unit {0}) × W)
      → IsUncut f
      → is_synced call ≡ false
      → Advances 0 (quietly (make call f))
  unfolding Advances quietly make called
  quietly-Advances call f uncut other s =
      let s' = called call s (f s.world).1 in
      elim (Outcome-cases (f s.world).0) [
        | inl (tt, e) ↦ (tt, s', rw e refl, ground (arith, other))
        | inr (inl (x, e)) ↦ (tt, s', rw e refl, ground (arith, other))
        | inr (inr e) ↦ absurd (uncut s.world e)
      ]

module _ {W : Type 0} (calls : LoopCalls W) (syncs : Returns calls.sync_once)
    (sleeps : Returns calls.sleep_fn) (ticks : Returns calls.monotonic_fn)
    (starts : Returns calls.start) (cleans : IsUncut calls.cleanup_logs)
    (records : (record_sync : RuleSyncResult → W → Outcome (Unit {0}) × W)
      → calls.record_sync ≡ some record_sync
      → (r : RuleSyncResult) → IsUncut (record_sync r)) where
  set_deadline-Advances : (now : ℕ) → Advances 0 (set_deadline calls now)
  unfolding Advances set_deadline
  set_deadline-Advances now s =
      (tt, record s { next_cleanup_at = deadline calls.cleanup_interval now }, refl, omega arith)

  mark_started-Advances : Advances 0 (mark_started calls)
  unfolding Advances mark_started
  mark_started-Advances s = (tt, record s { scheduler_started = true }, refl, omega arith)

  cleanup_if_due-Advances : (now : ℕ) → Advances 0 (cleanup_if_due calls now)
  unfolding Advances cleanup_if_due cleanup_logs_once
  cleanup_if_due-Advances now s = elim (Bool-cases (is_due now s.next_cleanup_at)) [
    | inr early ↦ (tt, s, rw early refl, omega arith)
    | inl due ↦ rw due (
        >>=-Advances 0 0 _ _ (quietly-Advances cleaned calls.cleanup_logs cleans refl)
          (λ u. set_deadline-Advances now) s)
  ]

  record-Advances : (result : RuleSyncResult) → Advances 0 (record_sync_heartbeat calls result)
  unfolding Advances record_sync_heartbeat
  record-Advances result s = elim (Option-cases calls.record_sync) [
    | inl no_worker ↦ (tt, s, rw (no_worker, record_sync_heartbeat) refl, omega arith)
    | inr (f, given) ↦
        rw (given, record_sync_heartbeat)
          (quietly-Advances recorded (f result) (records f given result) refl s)
  ]

  sync_and_record-Advances : Advances 1 (sync_and_record calls)
  unfolding sync_and_record
  sync_and_record-Advances =
      >>=-Advances 1 0 _ _ (make-Advances synced calls.sync_once syncs) record-Advances

  round-Advances : Advances 1 (round calls)
  unfolding round cleanup_logs_once
  round-Advances = >>=-Advances 0 1 _ _ (make-Advances slept calls.sleep_fn sleeps) (λ u.
      >>=-Advances 0 1 _ _ (make-Advances timed calls.monotonic_fn ticks)
        (λ now. >>=-Advances 0 1 _ _ (cleanup_if_due-Advances now) (λ u. sync_and_record-Advances)))

  rounds-Advances : (n : ℕ) → Advances n (rounds calls n)
  unfolding rounds Advances
  rounds-Advances zero s = (tt, s, refl, omega arith)
  rounds-Advances (suc n) s =
      let (a, s', e, k) = >>=-Advances 1 n _ _ round-Advances (λ u. rounds-Advances n) s in
      (a, s', e, omega (arith, k))

  begin-Advances : Advances 1 (begin calls)
  unfolding begin cleanup_logs_once
  begin-Advances =
      >>=-Advances 0 1 _ _ (quietly-Advances cleaned calls.cleanup_logs cleans refl) (λ u.
        >>=-Advances 0 1 _ _ (make-Advances timed calls.monotonic_fn ticks) (λ now.
          >>=-Advances 0 1 _ _ (set_deadline-Advances now) (λ u.
            >>=-Advances 1 0 _ _ sync_and_record-Advances (λ u.
              >>=-Advances 0 0 _ _ (make-Advances started calls.start starts)
                (λ u. mark_started-Advances)))))

  -- While synchronising, sleeping, reading the clock and starting the scheduler return, and nothing is
  -- interrupted, the loop never ends, whatever exceptions the cleanups and the heartbeats raise: after
  -- any number of rounds it still runs, with one synchronisation before the first and one in each.
  pub run_sync_loop-runs :
      (n : ℕ) (w : W)
      → (s : LoopState W) × (run_sync_loop calls n w ≡ (returned tt, s))
        × (count is_synced s.calls ≡ suc n)
  unfolding run_sync_loop guarded Advances new_state
  run_sync_loop-runs n w =
      let (a, s, e, k) =
        >>=-Advances 1 n _ _ begin-Advances (λ u. rounds-Advances n) (new_state calls w) in
      (s, ap (guarded calls) e, omega (arith, k))
