-- ===== src/WebSecurity/Limiter/Operations.antt =====
-- `LoginRateLimiter`: what its operations leave of the objects that requests hold.
use early_warning_system.Prelude.{
  ℕ, ◌≡◌, refl, none, [], ◌∷◌, ◌++◌, arith, nat_eq, Option-cases, Bool-cases, inl, inr, ltb, length,
}
use early_warning_system.WebSecurity.Limiter.{
  LimiterKey, Limiter, lookup, find_or_reserve, attempt_enter, attempt_check, retry_after,
  add_failure, record_failure, clear,
}
use early_warning_system.WebSecurity.Limiter.Frame.{
  IsValid, Frame, Frame-refl, Frame-trans, write-Frame, expire_in_place-Frame,
  discard_if_inactive-Frame,
}
use early_warning_system.WebSecurity.Limiter.Cleanup.{current-Frame, find_or_reserve-Frame}

pub check-Frame : (l : Limiter) (now i : ℕ) → IsValid l → Frame l (attempt_check l i now).1
unfolding attempt_check
check-Frame l now i v = expire_in_place-Frame l i now v

module _ (l : Limiter) (key : LimiterKey) (now : ℕ) where
  pub refuse-Frame :
      (attempt_enter l key now).0 ≡ none → IsValid l → Frame l (attempt_enter l key now).1
  unfolding attempt_enter
  refuse-Frame h v =
      let r = find_or_reserve l key now in
      let e : r.0 ≡ none = ground arith in rw (e, attempt_enter) (find_or_reserve-Frame l key now v)

  add_failure-Frame : (i : ℕ) → IsValid l → Frame l (add_failure l i now).1
  unfolding add_failure
  add_failure-Frame i v =
      elim (Bool-cases (ltb (length ((l.heap i).failures ++ now ∷ [])) l.max_failures)) [
        | inl few ↦ rw (few, add_failure) (write-Frame l i _ refl refl v)
        | inr many ↦ rw (many, add_failure) (write-Frame l i _ refl refl v)
      ]

  pub retry_after-Frame : IsValid l → Frame l (retry_after l key now).1
  unfolding retry_after
  retry_after-Frame v = current-Frame l key now v

pub record_failure-Frame :
    (l : Limiter) (key : LimiterKey) (now : ℕ) → IsValid l → Frame l (record_failure l key now).1
unfolding record_failure
record_failure-Frame l key now v =
    let f = find_or_reserve-Frame l key now v in
    elim (Option-cases (find_or_reserve l key now).0) [
      | inl full ↦ rw (full, record_failure) f
      | inr (i, found) ↦
          rw (found, record_failure)
            (Frame-trans f (add_failure-Frame (find_or_reserve l key now).1 key now i f.valid))
    ]

pub clear-Frame : (l : Limiter) (key : LimiterKey) → IsValid l → Frame l (clear l key)
unfolding clear
clear-Frame l key v = elim (Option-cases (lookup key l.states)) [
  | inl absent ↦ rw (absent, clear) (Frame-refl v)
  | inr (i, found) ↦
      let f = write-Frame l i (record (l.heap i) { failures = []; locked_until = 0 }) refl refl v in
      rw (found, clear) (Frame-trans f (discard_if_inactive-Frame _ key i f.valid))
]
