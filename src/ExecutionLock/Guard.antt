-- ===== src/ExecutionLock/Guard.antt =====
-- `rule_execution_lease` around a body.
use early_warning_system.Prelude.{
  ℕ, ◌<◌, ◌≡◌, refl, true, false, ◌&&◌, none, some, List, [], ◌∷◌, Text, arith, All, ◌==◌, nat_eq,
  text_eq, ltb, Result, raise, Bool-cases, inl, inr,
}
use early_warning_system.Models.{RuleExecutionLease}
use early_warning_system.Errors.{Error, rule_in_progress}
use early_warning_system.Database.{Db}
use early_warning_system.Outside.{Outside}
use early_warning_system.ExecutionLock.{
  upsert, delete_lease, new_lease, release, after_body, rule_execution_lease,
}
use early_warning_system.ExecutionLock.Rows.{find_lease, upsert-busy}

-- the owner's row of the rule is gone
abbrev pub IsReleased : ℕ → Text → RuleExecutionLease → Type 0
IsReleased rule_id token l = ((l.rule_id == rule_id) && (l.owner_token == token)) ≡ false

delete_lease-IsReleased :
    (rule_id : ℕ) (token : Text) (leases : List RuleExecutionLease)
    → All (IsReleased rule_id token) (delete_lease rule_id token leases)
unfolding delete_lease
delete_lease-IsReleased rule_id token [] = tt
delete_lease-IsReleased rule_id token (l ∷ leases) =
    let more = delete_lease-IsReleased rule_id token leases in
    elim (Bool-cases ((l.rule_id == rule_id) && (l.owner_token == token))) [
      | inl own ↦ rw own more
      | inr other ↦ rw other ((other, more))
    ]

module _ {W A : Type 0} (out : Outside W) (rule_id : ℕ) where
  -- While the rule's lease has not expired, a call for a positive time whose insert is committed
  -- raises, leaves the database as it is, and has only read the clock, taken a token and committed:
  -- nothing that the body does to the outside world has happened.
  pub rule_execution_lease-busy :
      (lease_seconds : ℕ) (body : Db → W → Result Error A × Db × W) (db : Db) (w : W)
      (old : RuleExecutionLease)
      → 0 < lease_seconds
      → (out.commit (out.token (out.now w).1).1).0 ≡ true
      → find_lease rule_id db.leases ≡ some old
      → (out.now w).0 < old.expires_at
      → rule_execution_lease out rule_id lease_seconds body db w
        ≡ (raise (rule_in_progress rule_id), db, (out.commit (out.token (out.now w).1).1).1)
  unfolding rule_execution_lease
  rule_execution_lease-busy lease_seconds body db w old pos committed found h =
      let lease = new_lease rule_id (out.token (out.now w).1).0 lease_seconds (out.now w).0 in
      let busy : upsert lease db.leases ≡ none =
        upsert-busy lease db.leases old (unfold new_lease in found) (unfold new_lease in h) in
      let asked : ltb lease_seconds 1 ≡ false = ground arith in
      rw (asked, committed, busy, rule_execution_lease) refl

  -- What the body raises comes out, also when its lease cannot be released; if the release is
  -- committed, the owner has no row of the rule left.
  pub after_body-raise :
      (token : Text) (e : Error) (db : Db) (w : W)
      → ((after_body out {A = A} rule_id token (raise e) db w).0 ≡ raise e)
        × ((out.commit w).0 ≡ true
            → All
                (IsReleased rule_id token)
                (after_body out {A = A} rule_id token (raise e) db w).1.leases)
  unfolding after_body release
  after_body-raise token e db w =
      (refl, λ c. rw (c, release) (delete_lease-IsReleased rule_id token db.leases))
