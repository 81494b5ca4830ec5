-- ===== src/WebSecurity/Limiter/Lockout.antt =====
-- `LoginRateLimiter`: a key that has failed too often is refused until its lockout ends.
use early_warning_system.Prelude.{
  ℕ, zero, suc, ◌+◌, ◌-◌, ◌*◌, ◌≤◌, ◌<◌, ◌≡◌, refl, ◌∙◌, false, some, [], ◌∷◌, ◌++◌, arith, length,
  ltb, nat_eq, Option-cases, Bool-cases, inl, inr, length-append,
}
use early_warning_system.WebSecurity.Limiter.{
  LimiterKey, States, AttemptState, Limiter, ticks_per_second, ceil_seconds, lookup, write,
  expire_state, unlock_expired, expire_in_place, discard_if_inactive, current_state, cleanup_step,
  cleanup_first, cleanup_rounds, run_scheduled_cleanup, find_or_reserve, state_retry_after,
  add_reference, attempt_enter, attempt_acquire, attempt_check, attempt_begin, add_failure,
  record_failure,
}
use early_warning_system.WebSecurity.Limiter.Dict.{key_beq_iff, lookup-assign, lookup-pop}
use early_warning_system.WebSecurity.Limiter.Frame.{IsValid, current_state-lookup}
use early_warning_system.WebSecurity.Limiter.Cleanup.{find_or_reserve-Frame, find_or_reserve-lookup}

-- The key's object is locked until a time.
pub record Locked (l : Limiter) (key : LimiterKey) (i until : ℕ) : Type 0 where
  pub entry : lookup key l.states ≡ some i
  pub locked : (l.heap i).locked_until ≡ until

module _ (key : LimiterKey) (i until : ℕ) where
  expire_state_lock :
      (w now : ℕ) (st : AttemptState)
      → now < until
      → st.locked_until ≡ until
      → (expire_state w st now).locked_until ≡ until
  unfolding expire_state unlock_expired
  expire_state_lock w now st h e = ground arith

  expire_in_place-Locked :
      (l : Limiter) (j now : ℕ)
      → now < until
      → Locked l key i until
      → Locked (expire_in_place l j now) key i until
  unfolding expire_in_place write
  expire_in_place-Locked l j now h k = record {
    entry = k.entry;
    locked = ground (arith, k.locked, expire_state_lock l.failure_window_seconds now (l.heap i) h);
  }

  discard_if_inactive-Locked :
      (l : Limiter) (other : LimiterKey) (j now : ℕ)
      → now < until
      → Locked l key i until
      → Locked (discard_if_inactive l other j) key i until
  unfolding discard_if_inactive
  discard_if_inactive-Locked l other j now h k = record {
    entry = ground (arith, k.entry, k.locked, lookup-pop other key l.states, key_beq_iff other key);
    locked = ground (arith, k.locked);
  }

  current_state-Locked :
      (l : Limiter) (other : LimiterKey) (now : ℕ)
      → now < until
      → Locked l key i until
      → Locked (current_state l other now).1 key i until
  unfolding current_state
  current_state-Locked l other now h k = elim (Option-cases (lookup other l.states)) [
    | inl e ↦ rw (e, current_state) k
    | inr (j, e) ↦
        rw (e, current_state)
          (discard_if_inactive-Locked (expire_in_place l j now) other j now h
            (expire_in_place-Locked l j now h k))
  ]

  cleanup_step-Locked :
      (l : Limiter) (now : ℕ) (other : LimiterKey) (j : ℕ) (rest : States)
      → now < until
      → l.states ≡ (other, j) ∷ rest
      → Locked l key i until
      → Locked (cleanup_step l now other j rest) key i until
  unfolding cleanup_step expire_in_place write lookup
  cleanup_step-Locked l now other j rest h e k =
      let found = rw e at k.entry in
      let kept = expire_state_lock l.failure_window_seconds now (l.heap i) h k.locked in
      record {
        entry = ground (arith, found, kept, lookup-assign other key j rest, key_beq_iff other key);
        locked = ground (arith, kept, k.locked);
      }

  cleanup_first-Locked :
      (l : Limiter) (now : ℕ) (states : States)
      → now < until
      → l.states ≡ states
      → Locked l key i until
      → Locked (cleanup_first l now states) key i until
  unfolding cleanup_first
  cleanup_first-Locked l now [] h e k = k
  cleanup_first-Locked l now ((other, j) ∷ rest) h e k =
      cleanup_step-Locked l now other j rest h e k

  cleanup_rounds-Locked :
      (n now : ℕ) (l : Limiter)
      → now < until
      → Locked l key i until
      → Locked (cleanup_rounds n now l) key i until
  unfolding cleanup_rounds
  cleanup_rounds-Locked zero now l h k = k
  cleanup_rounds-Locked (suc n) now l h k =
      cleanup_rounds-Locked n now (cleanup_first l now l.states) h
        (cleanup_first-Locked l now l.states h refl k)

  run_scheduled_cleanup-Locked :
      (l : Limiter) (now : ℕ)
      → now < until
      → Locked l key i until
      → Locked (run_scheduled_cleanup l now) key i until
  unfolding run_scheduled_cleanup
  run_scheduled_cleanup-Locked l now h k = elim (Bool-cases (ltb now l.next_cleanup_at)) [
    | inl early ↦ rw early k
    | inr due ↦
        rw due (cleanup_rounds-Locked _ now _ h (record { entry = k.entry; locked = k.locked }))
  ]

  -- A locked key is found: no cleanup and no full dictionary loses it.
  find_or_reserve-Locked :
      (l : Limiter) (now : ℕ)
      → now < until
      → Locked l key i until
      → ((find_or_reserve l key now).0 ≡ some i) × Locked (find_or_reserve l key now).1 key i until
  unfolding find_or_reserve
  find_or_reserve-Locked l now h k =
      let l' = run_scheduled_cleanup l now in
      let k' = current_state-Locked l' key now h (run_scheduled_cleanup-Locked l now h k) in
      let e = current_state-lookup l' key now ∙ k'.entry in
      (rw (e, find_or_reserve) refl, rw (e, find_or_reserve) k')

  attempt_enter-Locked :
      (l : Limiter) (now : ℕ)
      → now < until
      → Locked l key i until
      → ((attempt_enter l key now).0 ≡ some i) × Locked (attempt_enter l key now).1 key i until
  unfolding attempt_enter add_reference write
  attempt_enter-Locked l now h k =
      let (e, k') = find_or_reserve-Locked l now h k in
      (
        rw (e, attempt_enter) refl,
        rw (e, attempt_enter) (record { entry = k'.entry; locked = ground (arith, k'.locked) }),
      )

  attempt_acquire-Locked :
      (l : Limiter) → Locked l key i until → Locked (attempt_acquire l i) key i until
  unfolding attempt_acquire write
  attempt_acquire-Locked l k = record { entry = k.entry; locked = ground (arith, k.locked) }

  attempt_check-Locked :
      (l : Limiter) (now : ℕ)
      → now < until
      → Locked l key i until
      → ((attempt_check l i now).0 ≡ ceil_seconds (until - now))
        × Locked (attempt_check l i now).1 key i until
  unfolding attempt_check state_retry_after
  attempt_check-Locked l now h k =
      let k' = expire_in_place-Locked l i now h k in (ground (arith, k'.locked), k')

  -- While it is locked, an attempt yields the seconds that are left, and the lock stays.
  pub attempt_begin-Locked :
      (l : Limiter) (now now' : ℕ)
      → now < until
      → now' < until
      → Locked l key i until
      → ((attempt_begin l key now now').0 ≡ ceil_seconds (until - now'))
        × Locked (attempt_begin l key now now').2 key i until
  unfolding attempt_begin
  attempt_begin-Locked l now now' h h' k =
      let (e, k') = attempt_enter-Locked l now h k in
      let r = (attempt_enter l key now).1 in
      let (wait, k'') =
        attempt_check-Locked (attempt_acquire r i) now' h' (attempt_acquire-Locked r k') in
      (rw (e, attempt_begin) wait, rw (e, attempt_begin) k'')

pub ceil_seconds-pos : (n : ℕ) → 0 < n → 0 < ceil_seconds n
unfolding ceil_seconds
ceil_seconds-pos n h = omega arith

-- The failure that reaches the maximum locks its key.
pub record_failure-Locked :
    (l : Limiter) (key : LimiterKey) (now i : ℕ)
    → IsValid l
    → (find_or_reserve l key now).0 ≡ some i
    → l.max_failures ≤ suc (length ((find_or_reserve l key now).1.heap i).failures)
    → ((record_failure l key now).0 ≡ l.lockout_seconds)
      × Locked (record_failure l key now).1 key i (now + l.lockout_seconds * ticks_per_second)
unfolding record_failure add_failure write
record_failure-Locked l key now i v e h =
    let f = find_or_reserve-Frame l key now v in
    let r = (find_or_reserve l key now).1 in
    let found = find_or_reserve-lookup l key now v i e in
    let n = length-append (r.heap i).failures (now ∷ []) in
    let many : ltb (length ((r.heap i).failures ++ now ∷ [])) r.max_failures ≡ false =
      ground (arith, n, f.settings.max_failures) in
    (
      rw (e, record_failure, many, add_failure) f.settings.lockout_seconds,
      rw (e, record_failure, many, add_failure)
          (record { entry = found; locked = ground (arith, f.settings.lockout_seconds) }),
    )

-- In a valid limiter, a failure that finds or reserves a state and reaches the maximum is answered
-- with the whole lockout, and an attempt for that key before the lockout ends is then answered with
-- the seconds that are left, which are more than none.
pub attempt-record_failure :
    (l : Limiter) (key : LimiterKey) (now i later later' : ℕ)
    → IsValid l
    → (find_or_reserve l key now).0 ≡ some i
    → l.max_failures ≤ suc (length ((find_or_reserve l key now).1.heap i).failures)
    → later < now + l.lockout_seconds * ticks_per_second
    → later' < now + l.lockout_seconds * ticks_per_second
    → ((record_failure l key now).0 ≡ l.lockout_seconds)
      × ((attempt_begin (record_failure l key now).1 key later later').0
          ≡ ceil_seconds (now + l.lockout_seconds * ticks_per_second - later'))
      × (0 < (attempt_begin (record_failure l key now).1 key later later').0)
attempt-record_failure l key now i later later' v e h a b =
    let until = now + l.lockout_seconds * ticks_per_second in
    let (whole, k) = record_failure-Locked l key now i v e h in
    let (wait, k') =
      attempt_begin-Locked key i until (record_failure l key now).1 later later' a b k in
    (whole, wait, rw wait (ceil_seconds-pos (until - later') (omega arith)))
