-- ===== src/ExecutionLock.antt =====
-- app/execution_lock.py: the lease on a rule, a row of the table whose primary key is the rule.
pub mod Rows
pub mod Holders
pub mod Guard
use early_warning_system.Prelude.{
  ℕ, ◌+◌, ◌*◌, Bool, true, false, ◌&&◌, not, Option, none, some, List, [], ◌∷◌, Text, codes, filter,
  find, ◌==◌, nat_eq, text_eq, ltb, leb, if◌then◌else◌, Result, ok, raise,
}
use early_warning_system.Models.{DateTime, RuleExecutionLease}
use early_warning_system.Errors.{Error, value_error, rule_in_progress, foreign}
use early_warning_system.Database.{Db}
use early_warning_system.Outside.{Outside}

abbrev pub microseconds : ℕ → ℕ
microseconds seconds = seconds * 1000000

-- the insert with `on_conflict_do_update`; `none` where no row was inserted or updated
unfoldable pub upsert :
    RuleExecutionLease → List RuleExecutionLease → Option (List RuleExecutionLease)
upsert lease [] = some (lease ∷ [])
upsert lease (l ∷ rest) =
    let later = upsert lease rest in
    if l.rule_id == lease.rule_id
    then if leb l.expires_at lease.acquired_at then some (lease ∷ rest) else none
    else elim later [ none ↦ none | some rows ↦ some (l ∷ rows) ]

-- the delete of `_release_rule_execution_lease`
unfoldable pub delete_lease : ℕ → Text → List RuleExecutionLease → List RuleExecutionLease
delete_lease rule_id owner_token =
    filter (λ l. not ((l.rule_id == rule_id) && (l.owner_token == owner_token)))

abbrev pub database_error : Error
database_error = foreign (codes "OperationalError") [] none

-- the lease that a call asks for
unfoldable pub new_lease : ℕ → Text → ℕ → DateTime → RuleExecutionLease
new_lease rule_id owner_token lease_seconds now = record {
  rule_id = rule_id;
  owner_token = owner_token;
  acquired_at = now;
  expires_at = now + microseconds lease_seconds;
}

module _ {W : Type 0} (out : Outside W) where
  -- `_release_rule_execution_lease`; whether its commit went through
  unfoldable pub release : ℕ → Text → Db → W → Bool × Db × W
  release rule_id owner_token db w =
      let (committed, w') = out.commit w in
      if committed
      then (true, record db { leases = delete_lease rule_id owner_token db.leases }, w')
      else (false, db, w')

  -- what follows the body of the `with` block
  unfoldable pub after_body :
      {A : Type 0} → ℕ → Text → Result Error A → Db → W → Result Error A × Db × W
  after_body rule_id owner_token (raise e) db w =
      let (_released, db', w') = release rule_id owner_token db w in (raise e, db', w')
  after_body rule_id owner_token (ok a) db w =
      let (released, db', w') = release rule_id owner_token db w in
      (if released then ok a else raise database_error, db', w')

  -- `rule_execution_lease` around a body
  unfoldable pub rule_execution_lease :
      {A : Type 0} → ℕ → ℕ → (Db → W → Result Error A × Db × W) → Db → W → Result Error A × Db × W
  rule_execution_lease rule_id lease_seconds body db w =
      if ltb lease_seconds 1
      then (raise (value_error (codes "lease_seconds must be positive")), db, w)
      else let (acquired_at, w₁) = out.now w in
        let (owner_token, w₂) = out.token w₁ in
        let (committed, w₃) = out.commit w₂ in
        if not committed
        then (raise database_error, db, w₃)
        else elim (upsert (new_lease rule_id owner_token lease_seconds acquired_at) db.leases) [
          | none ↦ (raise (rule_in_progress rule_id), db, w₃)
          | some rows ↦
              let (r, db', w₄) = body (record db { leases = rows }) w₃ in
              after_body rule_id owner_token r db' w₄
        ]
