-- ===== src/WebSecurity/Limiter/Cleanup.antt =====
-- The scheduled cleanup of `LoginRateLimiter`, and the entry points that begin with it.
use early_warning_system.Prelude.{
  ℕ, zero, suc, ◌+◌, ◌≤◌, ◌<◌, ◌≡◌, refl, sym, ◌∙◌, some, [], ◌∷◌, arith, length, ltb,
  if◌then◌else◌, nat_eq, Option-cases, Bool-cases, inl, inr,
}
use early_warning_system.WebSecurity.Limiter.{
  LimiterKey, key_beq, States, write, Limiter, lookup, expire_in_place, reserve_state,
  current_state, cleanup_step, cleanup_first, cleanup_rounds, run_scheduled_cleanup,
  find_or_reserve,
}
use early_warning_system.WebSecurity.Limiter.Dict.{
  key_beq_iff, lookup-assign, length-assign, IdsBelow, assign-IdsBelow,
}
use early_warning_system.WebSecurity.Limiter.Frame.{
  IsValid, Frame, Frame-refl, Frame-trans, expire_state-references, expire_state-gate,
  reserve_state-Frame, current_state-Frame, current_state-lookup,
}

module _ (l : Limiter) (now : ℕ) (key : LimiterKey) (i : ℕ) (rest : States) where
  -- the popped item is back at the end if its object is still referenced
  cleanup_step-lookup :
      (k : LimiterKey) (j : ℕ)
      → (if key_beq key k then some i else lookup k rest) ≡ some j
      → 0 < (l.heap j).references
      → lookup k (cleanup_step l now key i rest).states ≡ some j
  unfolding cleanup_step expire_in_place write
  cleanup_step-lookup k j e h = ground (
    arith,
    lookup-assign key k i rest,
    key_beq_iff key k,
    expire_state-references l.failure_window_seconds now (l.heap i),
  )

  cleanup_step-IsValid :
      suc (length rest) ≤ l.max_states
      → i < l.next_id
      → IdsBelow l.next_id rest
      → IsValid l
      → IsValid (cleanup_step l now key i rest)
  unfolding cleanup_step expire_in_place write
  cleanup_step-IsValid fits low below v = record {
    bounded = ground (arith, length-assign key i rest);
    ids = ground (arith, assign-IdsBelow key i l.next_id rest);
    unused_references = λ j h. ground (
      arith,
      v.unused_references j,
      expire_state-references l.failure_window_seconds now (l.heap i),
    );
    unused_gates = λ j h.
        ground (arith, v.unused_gates j, expire_state-gate l.failure_window_seconds now (l.heap i));
  }

  cleanup_step-Frame :
      l.states ≡ (key, i) ∷ rest → IsValid l → Frame l (cleanup_step l now key i rest)
  unfolding cleanup_step expire_in_place write
  cleanup_step-Frame e v = record {
    valid = cleanup_step-IsValid (rw e at v.bounded) (rw e at v.ids).0 (rw e at v.ids).1 v;
    settings = record {
      max_failures = ground arith;
      failure_window_seconds = ground arith;
      lockout_seconds = ground arith;
      max_states = ground arith;
    };
    references =
        λ j. ground (arith, expire_state-references l.failure_window_seconds now (l.heap i));
    gates = λ j. ground (arith, expire_state-gate l.failure_window_seconds now (l.heap i));
    kept = λ k j found h. cleanup_step-lookup k j (unfold lookup in rw e at found) h;
  }

cleanup_first-Frame :
    (l : Limiter) (now : ℕ) (states : States)
    → l.states ≡ states
    → IsValid l
    → Frame l (cleanup_first l now states)
unfolding cleanup_first
cleanup_first-Frame l now [] e v = Frame-refl v
cleanup_first-Frame l now ((key, i) ∷ rest) e v = cleanup_step-Frame l now key i rest e v

cleanup_rounds-Frame : (n now : ℕ) (l : Limiter) → IsValid l → Frame l (cleanup_rounds n now l)
unfolding cleanup_rounds
cleanup_rounds-Frame zero now l v = Frame-refl v
cleanup_rounds-Frame (suc n) now l v =
    let f = cleanup_first-Frame l now l.states refl v in
    Frame-trans f (cleanup_rounds-Frame n now (cleanup_first l now l.states) f.valid)

next_cleanup-Frame :
    (l : Limiter) (at : ℕ) → IsValid l → Frame l (record l { next_cleanup_at = at })
next_cleanup-Frame l at v = record {
  valid = record {
    bounded = v.bounded;
    ids = v.ids;
    unused_references = v.unused_references;
    unused_gates = v.unused_gates;
  };
  settings = record {
    max_failures = refl;
    failure_window_seconds = refl;
    lockout_seconds = refl;
    max_states = refl;
  };
  references = λ i. refl;
  gates = λ i. refl;
  kept = λ k i e h. e;
}

pub run_scheduled_cleanup-Frame :
    (l : Limiter) (now : ℕ) → IsValid l → Frame l (run_scheduled_cleanup l now)
unfolding run_scheduled_cleanup
run_scheduled_cleanup-Frame l now v = elim (Bool-cases (ltb now l.next_cleanup_at)) [
  | inl early ↦ rw early (Frame-refl v)
  | inr due ↦
      let f = next_cleanup-Frame l (now + l.cleanup_interval) v in
      rw due (Frame-trans f (cleanup_rounds-Frame _ now _ f.valid))
]

module _ (l : Limiter) (key : LimiterKey) (now : ℕ) (v : IsValid l) where
  pub current-Frame : Frame l (current_state (run_scheduled_cleanup l now) key now).1
  current-Frame =
      let f = run_scheduled_cleanup-Frame l now v in
      Frame-trans f (current_state-Frame (run_scheduled_cleanup l now) key now f.valid)

  pub find_or_reserve-Frame : Frame l (find_or_reserve l key now).1
  unfolding find_or_reserve
  find_or_reserve-Frame =
      let f = current-Frame in
      let e = current_state-lookup (run_scheduled_cleanup l now) key now in
      elim (Option-cases (current_state (run_scheduled_cleanup l now) key now).0) [
        | inl absent ↦
            rw (absent, find_or_reserve)
              (Frame-trans f (reserve_state-Frame _ key (sym e ∙ absent) f.valid))
        | inr (i, found) ↦ rw (found, find_or_reserve) f
      ]

  -- The object that `find_or_reserve` returns is the entry of the key.
  pub find_or_reserve-lookup :
      (i : ℕ)
      → (find_or_reserve l key now).0 ≡ some i
      → lookup key (find_or_reserve l key now).1.states ≡ some i
  unfolding find_or_reserve reserve_state
  find_or_reserve-lookup i h =
      let e = current_state-lookup (run_scheduled_cleanup l now) key now in
      let c = current_state (run_scheduled_cleanup l now) key now in
      elim (Option-cases c.0) [
        | inl absent ↦
            ground (arith, lookup-assign key key c.1.next_id c.1.states, key_beq_iff key key)
        | inr (j, found) ↦ ground arith
      ]
