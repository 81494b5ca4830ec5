-- ===== src/WebSecurity/Limiter/Window.antt =====
-- `LoginRateLimiter`: the sliding window over the failures of a key.
use early_warning_system.Prelude.{
  ℕ, ◌+◌, ◌*◌, ◌≤◌, ◌<◌, ◌≡◌, refl, Bool, not, ◌&&◌, List, [], ◌∷◌, arith, All, filter, ltb, leb,
  if◌then◌else◌, ◌==◌, nat_eq, Bool-cases, inl, inr,
}
use early_warning_system.WebSecurity.Limiter.{
  AttemptState, ticks_per_second, expire_state, unlock_expired, pop_old,
}

-- Failures in the order of time.
abbrev pub IsOrdered : List ℕ → Type 0
IsOrdered [] = Unit
IsOrdered (f ∷ rest) = All (λ g. f ≤ g) rest × IsOrdered rest

-- a failure is inside the window that ends now
abbrev pub is_recent : ℕ → ℕ → ℕ → Bool
is_recent window now f = ltb now (f + window)

filter_recent :
    (window now f : ℕ) (rest : List ℕ)
    → now < f + window
    → All (λ g. f ≤ g) rest
    → filter (is_recent window now) rest ≡ rest
filter_recent window now f [] h le = refl
filter_recent window now f (g ∷ rest) h le =
    ground (arith, le.0, filter_recent window now f rest h le.1)

pop_old-eq-filter :
    (window now : ℕ) (fs : List ℕ)
    → IsOrdered fs
    → pop_old window now fs ≡ filter (is_recent window now) fs
unfolding pop_old
pop_old-eq-filter window now [] o = refl
pop_old-eq-filter window now (f ∷ rest) o =
    ground (arith, pop_old-eq-filter window now rest o.1, filter_recent window now f rest)

-- Expiry of a state whose failures are in the order of time, which `popleft` does from one end,
-- leaves exactly the failures inside the window, if the key is not locked or still is; when its
-- lockout has ended it leaves none.
pub failures-expire_state :
    (window now : ℕ) (st : AttemptState)
    → IsOrdered st.failures
    → (expire_state window st now).failures ≡ (
        if not (st.locked_until == 0) && leb st.locked_until now
        then []
        else filter (is_recent (window * ticks_per_second) now) st.failures)
unfolding expire_state unlock_expired
failures-expire_state window now st o =
    elim (Bool-cases (not (st.locked_until == 0) && leb st.locked_until now)) [
      | inl ended ↦ rw ended (unfold pop_old in refl)
      | inr kept ↦ rw kept (pop_old-eq-filter (window * ticks_per_second) now st.failures o)
    ]
