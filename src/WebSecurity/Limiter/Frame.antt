-- ===== src/WebSecurity/Limiter/Frame.antt =====
-- The invariant of `LoginRateLimiter`, and what its housekeeping leaves alone: the references and
-- the gate of every object, and the dictionary entry of every object that is referenced.
use early_warning_system.Prelude.{
  ℕ, suc, ◌≤◌, ◌<◌, ◌≡◌, refl, ◌∙◌, false, none, some, arith, length, nat_eq, Option-cases, inl,
  inr,
}
use early_warning_system.WebSecurity.Limiter.{
  LimiterKey, AttemptState, Limiter, lookup, write, expire_state, unlock_expired, expire_in_place,
  discard_if_inactive, reserve_state, current_state,
}
use early_warning_system.WebSecurity.Limiter.Dict.{
  key_beq_iff, lookup-assign, lookup-pop, length-assign, length-pop, IdsBelow, assign-IdsBelow,
  pop-IdsBelow, IdsBelow-mono,
}

pub record IsValid (l : Limiter) : Type 0 where
  pub bounded : length l.states ≤ l.max_states
  pub ids : IdsBelow l.next_id l.states
  pub unused_references : (i : ℕ) → l.next_id ≤ i → (l.heap i).references ≡ 0
  pub unused_gates : (i : ℕ) → l.next_id ≤ i → (l.heap i).gate ≡ false

-- the settings of the constructor
pub record SameSettings (l l' : Limiter) : Type 0 where
  pub max_failures : l'.max_failures ≡ l.max_failures
  pub failure_window_seconds : l'.failure_window_seconds ≡ l.failure_window_seconds
  pub lockout_seconds : l'.lockout_seconds ≡ l.lockout_seconds
  pub max_states : l'.max_states ≡ l.max_states

pub record Frame (l l' : Limiter) : Type 0 where
  pub valid : IsValid l'
  pub settings : SameSettings l l'
  pub references : (i : ℕ) → (l'.heap i).references ≡ (l.heap i).references
  pub gates : (i : ℕ) → (l'.heap i).gate ≡ (l.heap i).gate
  pub kept :
      (k : LimiterKey) (i : ℕ)
      → lookup k l.states ≡ some i
      → 0 < (l.heap i).references
      → lookup k l'.states ≡ some i

pub Frame-refl : {l : Limiter} → IsValid l → Frame l l
Frame-refl v = record {
  valid = v;
  settings = record {
    max_failures = refl;
    failure_window_seconds = refl;
    lockout_seconds = refl;
    max_states = refl;
  };
  references = λ i. refl;
  gates = λ i. refl;
  kept = λ k i e h. e;
}

pub Frame-trans : {a b c : Limiter} → Frame a b → Frame b c → Frame a c
Frame-trans f g = record {
  valid = g.valid;
  settings = record {
    max_failures = g.settings.max_failures ∙ f.settings.max_failures;
    failure_window_seconds = g.settings.failure_window_seconds ∙ f.settings.failure_window_seconds;
    lockout_seconds = g.settings.lockout_seconds ∙ f.settings.lockout_seconds;
    max_states = g.settings.max_states ∙ f.settings.max_states;
  };
  references = λ i. g.references i ∙ f.references i;
  gates = λ i. g.gates i ∙ f.gates i;
  kept = λ k i e h. g.kept k i (f.kept k i e h) (omega (arith, f.references i));
}

pub write-Frame :
    (l : Limiter) (i : ℕ) (st : AttemptState)
    → st.references ≡ (l.heap i).references
    → st.gate ≡ (l.heap i).gate
    → IsValid l
    → Frame l (write l i st)
unfolding write
write-Frame l i st r g v = record {
  valid = record {
    bounded = v.bounded;
    ids = v.ids;
    unused_references = λ j h. ground (arith, v.unused_references j);
    unused_gates = λ j h. ground (arith, v.unused_gates j);
  };
  settings = record {
    max_failures = refl;
    failure_window_seconds = refl;
    lockout_seconds = refl;
    max_states = refl;
  };
  references = λ j. ground arith;
  gates = λ j. ground arith;
  kept = λ k j e h. e;
}

pub expire_state-references :
    (w now : ℕ) (st : AttemptState) → (expire_state w st now).references ≡ st.references
unfolding expire_state unlock_expired
expire_state-references w now st = ground arith

pub expire_state-gate : (w now : ℕ) (st : AttemptState) → (expire_state w st now).gate ≡ st.gate
unfolding expire_state unlock_expired
expire_state-gate w now st = ground arith

pub expire_in_place-Frame :
    (l : Limiter) (i now : ℕ) → IsValid l → Frame l (expire_in_place l i now)
unfolding expire_in_place
expire_in_place-Frame l i now =
    write-Frame l i _ (expire_state-references l.failure_window_seconds now (l.heap i))
      (expire_state-gate l.failure_window_seconds now (l.heap i))

pub discard_if_inactive-Frame :
    (l : Limiter) (key : LimiterKey) (i : ℕ) → IsValid l → Frame l (discard_if_inactive l key i)
unfolding discard_if_inactive
discard_if_inactive-Frame l key i v = record {
  valid = record {
    bounded = ground (arith, length-pop key l.states, v.bounded);
    ids = ground (arith, pop-IdsBelow key l.next_id l.states v.ids);
    unused_references = λ j h. ground (arith, v.unused_references j);
    unused_gates = λ j h. ground (arith, v.unused_gates j);
  };
  settings = record {
    max_failures = ground arith;
    failure_window_seconds = ground arith;
    lockout_seconds = ground arith;
    max_states = ground arith;
  };
  references = λ j. ground arith;
  gates = λ j. ground arith;
  kept = λ k j e h. ground (arith, lookup-pop key k l.states, key_beq_iff key k);
}

pub reserve_state-Frame :
    (l : Limiter) (key : LimiterKey)
    → lookup key l.states ≡ none
    → IsValid l
    → Frame l (reserve_state l key).1
unfolding reserve_state write
reserve_state-Frame l key absent v = record {
  valid = record {
    bounded = ground (arith, length-assign key l.next_id l.states, v.bounded);
    ids = ground (
      arith,
      v.ids,
      assign-IdsBelow key l.next_id (suc l.next_id) l.states,
      IdsBelow-mono l.next_id l.states v.ids,
    );
    unused_references = λ j h. ground (arith, v.unused_references j);
    unused_gates = λ j h. ground (arith, v.unused_gates j);
  };
  settings = record {
    max_failures = ground arith;
    failure_window_seconds = ground arith;
    lockout_seconds = ground arith;
    max_states = ground arith;
  };
  references = λ j. ground (arith, v.unused_references j);
  gates = λ j. ground (arith, v.unused_gates j);
  kept = λ k j e h. ground (arith, lookup-assign key k l.next_id l.states, key_beq_iff key k);
}

pub current_state-Frame :
    (l : Limiter) (key : LimiterKey) (now : ℕ) → IsValid l → Frame l (current_state l key now).1
unfolding current_state
current_state-Frame l key now v = elim (Option-cases (lookup key l.states)) [
  | inl e ↦ rw (e, current_state) (Frame-refl v)
  | inr (i, e) ↦
      let f = expire_in_place-Frame l i now v in
      rw (e, current_state)
        (Frame-trans f (discard_if_inactive-Frame (expire_in_place l i now) key i f.valid))
]

-- What `current_state` returns is the entry of the key in the state that it leaves.
pub current_state-lookup :
    (l : Limiter) (key : LimiterKey) (now : ℕ)
    → (current_state l key now).0 ≡ lookup key (current_state l key now).1.states
unfolding current_state
current_state-lookup l key now = ground arith
