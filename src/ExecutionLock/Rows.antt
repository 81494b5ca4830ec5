-- ===== src/ExecutionLock/Rows.antt =====
-- The lease table, row by row: what acquiring and releasing do to the row of each rule.
use early_warning_system.Prelude.{
  ℕ, ◌≤◌, ◌<◌, ◌≡◌, ◌≢◌, Option, none, some, List, [], ◌∷◌, Text, arith, ◌==◌, nat_eq, text_eq,
  text_beq_iff, if◌then◌else◌, Option-cases, Bool-cases, inl, inr,
}
use early_warning_system.Models.{RuleExecutionLease}
use early_warning_system.ExecutionLock.{upsert, delete_lease}

-- the row of a rule
unfoldable pub find_lease : ℕ → List RuleExecutionLease → Option RuleExecutionLease
find_lease rule_id [] = none
find_lease rule_id (l ∷ rest) =
    let later = find_lease rule_id rest in if l.rule_id == rule_id then some l else later

-- A lease that is acquired is from then on the rule's; no other rule is touched.
pub find_lease-upsert :
    (lease : RuleExecutionLease) (leases rows : List RuleExecutionLease) (rule_id : ℕ)
    → upsert lease leases ≡ some rows
    → find_lease rule_id rows
      ≡ (if lease.rule_id == rule_id then some lease else find_lease rule_id leases)
unfolding upsert find_lease
find_lease-upsert lease [] rows rule_id h = ground arith
find_lease-upsert lease (l ∷ leases) rows rule_id h =
    elim (Bool-cases (l.rule_id == lease.rule_id)) [
      | inl own ↦ ground (arith, own)
      | inr other ↦ elim (Option-cases (upsert lease leases)) [
        | inl failed ↦ cc (rw (other, failed, upsert) at h)
        | inr (rows', e) ↦
            let same = rw (other, e, upsert) at h in
            ground (arith, other, same, find_lease-upsert lease leases rows' rule_id e)
      ]
    ]

pub upsert-expired :
    (lease : RuleExecutionLease) (leases rows : List RuleExecutionLease) (old : RuleExecutionLease)
    → upsert lease leases ≡ some rows
    → find_lease lease.rule_id leases ≡ some old
    → old.expires_at ≤ lease.acquired_at
unfolding upsert find_lease
upsert-expired lease [] rows old h e = cc
upsert-expired lease (l ∷ leases) rows old h e = elim (Bool-cases (l.rule_id == lease.rule_id)) [
  | inl own ↦ ground (arith, own)
  | inr other ↦ elim (Option-cases (upsert lease leases)) [
    | inl failed ↦ cc (rw (other, failed, upsert) at h)
    | inr (rows', e') ↦ upsert-expired lease leases rows' old e' (rw (other, find_lease) at e)
  ]
]

-- Releasing deletes nothing but the owner's own row.
pub find_lease-delete :
    (rule_id mine : ℕ) (token : Text) (leases : List RuleExecutionLease) (l : RuleExecutionLease)
    → find_lease rule_id leases ≡ some l
    → l.owner_token ≢ token
    → find_lease rule_id (delete_lease mine token leases) ≡ some l
unfolding find_lease delete_lease
find_lease-delete rule_id mine token [] l h ne = cc
find_lease-delete rule_id mine token (x ∷ leases) l h ne =
    ground (arith, text_beq_iff x.owner_token token, find_lease-delete rule_id mine token leases l)

pub upsert-busy :
    (lease : RuleExecutionLease) (leases : List RuleExecutionLease) (old : RuleExecutionLease)
    → find_lease lease.rule_id leases ≡ some old
    → lease.acquired_at < old.expires_at
    → upsert lease leases ≡ none
unfolding upsert find_lease
upsert-busy lease [] old e h = cc
upsert-busy lease (l ∷ leases) old e h = elim (Bool-cases (l.rule_id == lease.rule_id)) [
  | inl own ↦ ground (arith, own)
  | inr other ↦ rw (other, upsert-busy lease leases old (rw (other, find_lease) at e) h)
]
