-- ===== src/ExecutionLock/Holders.antt =====
-- Leases under concurrent executions: any number of processes acquire and release, in any order,
-- and the clock goes on. A process that outlives its lease still releases it.
pub mod Live
use early_warning_system.Prelude.{
  ℕ, suc, ◌≤◌, ◌<◌, ◌≡◌, ◌≢◌, refl, sym, ap, subst, ◌∙◌, eq_refl, Bool, true, false, not, ◌&&◌,
  Option, none, some, List, [], ◌∷◌, Text, All, arith, filter, find, count, count_mono, ◌==◌,
  nat_eq, text_eq, text_beq, text_beq_iff, ltb, leb, if◌then◌else◌, Option-cases, Bool-cases, inl,
  inr,
}
use early_warning_system.Models.{DateTime, RuleExecutionLease}
use early_warning_system.ExecutionLock.{upsert, delete_lease, new_lease, microseconds}
use early_warning_system.ExecutionLock.Rows.{
  find_lease, find_lease-upsert, upsert-expired, find_lease-delete,
}

-- a process inside the `with` block
pub record Holder : Type 0 where
  pub rule_id : ℕ
  pub token : Text
  pub expires_at : DateTime

pub record LeaseSystem : Type 0 where
  pub clock : DateTime
  pub leases : List RuleExecutionLease
  pub holders : List Holder

-- `uuid4` gives a token that no process holds. The clock may go on between the reading that a process
-- takes as `acquired_at` and its statement.
pub data Step (s t : LeaseSystem) : Type 0 where
  tick : (now : DateTime) → s.clock ≤ now → t ≡ record s { clock = now } → Step s t
  acquire :
      (rule_id seconds : ℕ) (token : Text) (acquired_at : DateTime) (rows : List RuleExecutionLease)
      → acquired_at ≤ s.clock
      → All (λ h. h.token ≢ token) s.holders
      → upsert (new_lease rule_id token seconds acquired_at) s.leases ≡ some rows
      → t ≡ record s {
        leases = rows;
        holders =
            record {
              rule_id = rule_id;
              token = token;
              expires_at = (new_lease rule_id token seconds acquired_at).expires_at;
            }
            ∷ s.holders;
      }
      → Step s t
  release :
      (rule_id : ℕ) (token : Text)
      → t ≡ record s {
        leases = delete_lease rule_id token s.leases;
        holders = filter (λ h. not (h.token == token)) s.holders;
      }
      → Step s t

pub data Reach (s : LeaseSystem) : LeaseSystem → Type 0 where
  here : Reach s s
  next : {t u : LeaseSystem} → Reach s t → Step t u → Reach s u

-- The row of a holder whose lease has not expired is its own.
abbrev pub HasLease : DateTime → List RuleExecutionLease → Holder → Type 0
HasLease clock leases h =
    clock < h.expires_at
    → (l : RuleExecutionLease) × (find_lease h.rule_id leases ≡ some l)
      × (l.owner_token ≡ h.token)
      × (l.expires_at ≡ h.expires_at)

abbrev pub IsDistinct : List Holder → Type 0
IsDistinct [] = Unit
IsDistinct (h ∷ hs) = All (λ g. g.token ≢ h.token) hs × IsDistinct hs

pub record IsExclusive (s : LeaseSystem) : Type 0 where
  pub distinct : IsDistinct s.holders
  pub owned : All (HasLease s.clock s.leases) s.holders

tick-owned :
    (clock now : DateTime) (leases : List RuleExecutionLease) (hs : List Holder)
    → clock ≤ now
    → All (HasLease clock leases) hs
    → All (HasLease now leases) hs
tick-owned clock now leases [] le o = tt
tick-owned clock now leases (h ∷ hs) le o =
    ((λ live. o.0 (omega arith)), tick-owned clock now leases hs le o.1)

acquire-owned :
    (clock : DateTime) (lease : RuleExecutionLease) (leases rows : List RuleExecutionLease)
    (hs : List Holder)
    → lease.acquired_at ≤ clock
    → upsert lease leases ≡ some rows
    → All (HasLease clock leases) hs
    → All (HasLease clock rows) hs
acquire-owned clock lease leases rows [] e u o = tt
acquire-owned clock lease leases rows (h ∷ hs) e u o = (
  (λ live.
      let (l, found, own, exp) = o.0 live in
      elim (Bool-cases (lease.rule_id == h.rule_id)) [
        | inl same ↦ absurd (
            omega
              (arith, upsert-expired lease leases rows l u (ground (arith, same, found)), exp, e))
        | inr other ↦ (
          l,
          ground (arith, find_lease-upsert lease leases rows h.rule_id u, other, found),
          own,
          exp,
        )
      ]),
  acquire-owned clock lease leases rows hs e u o.1,
)

release-owned :
    (clock : DateTime) (rule_id : ℕ) (token : Text) (leases : List RuleExecutionLease)
    (hs : List Holder)
    → All (HasLease clock leases) hs
    → All
        (HasLease clock (delete_lease rule_id token leases))
        (filter (λ h. not (h.token == token)) hs)
release-owned clock rule_id token leases [] o = tt
release-owned clock rule_id token leases (h ∷ hs) o =
    let more = release-owned clock rule_id token leases hs o.1 in
    elim (Bool-cases (h.token == token)) [
      | inl mine ↦ rw mine more
      | inr other ↦ rw other (
        (λ live.
            let (l, found, own, exp) = o.0 live in
            (
              l,
              find_lease-delete h.rule_id rule_id token leases l found
                  (λ e. ground (arith, own, other, text_beq_iff h.token token)),
              own,
              exp,
            )),
        more,
      )
    ]

filter-ne :
    (token own : Text) (hs : List Holder)
    → All (λ g. g.token ≢ own) hs
    → All (λ g. g.token ≢ own) (filter (λ h. not (h.token == token)) hs)
filter-ne token own [] o = tt
filter-ne token own (h ∷ hs) o = elim (Bool-cases (h.token == token)) [
  | inl mine ↦ rw mine (filter-ne token own hs o.1)
  | inr other ↦ rw other ((o.0, filter-ne token own hs o.1))
]

filter-IsDistinct :
    (token : Text) (hs : List Holder)
    → IsDistinct hs
    → IsDistinct (filter (λ h. not (h.token == token)) hs)
filter-IsDistinct token [] d = tt
filter-IsDistinct token (h ∷ hs) d = elim (Bool-cases (h.token == token)) [
  | inl mine ↦ rw mine (filter-IsDistinct token hs d.1)
  | inr other ↦ rw other ((filter-ne token h.token hs d.0, filter-IsDistinct token hs d.1))
]

new_lease-owned :
    (rule_id seconds : ℕ) (token : Text) (acquired_at clock : DateTime)
    (leases rows : List RuleExecutionLease)
    → upsert (new_lease rule_id token seconds acquired_at) leases ≡ some rows
    → HasLease clock rows (record {
      rule_id = rule_id;
      token = token;
      expires_at = (new_lease rule_id token seconds acquired_at).expires_at;
    })
new_lease-owned rule_id seconds token acquired_at clock leases rows u live =
    let lease = new_lease rule_id token seconds acquired_at in
    (
      lease,
      find_lease-upsert lease leases rows rule_id u
          ∙ (unfold new_lease in rw (eq_refl {A = ℕ} rule_id) refl),
      (unfold new_lease in refl),
      refl,
    )

-- Every step keeps the leases exclusive.
Step-IsExclusive : {s t : LeaseSystem} → Step s t → IsExclusive s → IsExclusive t
Step-IsExclusive {s} (tick now le e) x =
    rw e (record {
      distinct = x.distinct;
      owned = tick-owned s.clock now s.leases s.holders le x.owned;
    })
Step-IsExclusive {s} (acquire rule_id seconds token acquired_at rows before fresh u e) x =
    let lease = new_lease rule_id token seconds acquired_at in
    rw e (record {
      distinct = (fresh, x.distinct);
      owned = (
        new_lease-owned rule_id seconds token acquired_at s.clock s.leases rows u,
        acquire-owned s.clock lease s.leases rows s.holders (unfold new_lease in before) u x.owned,
      );
    })
Step-IsExclusive {s} (release rule_id token e) x = rw e (record {
  distinct = filter-IsDistinct token s.holders x.distinct;
  owned = release-owned s.clock rule_id token s.leases s.holders x.owned;
})

pub Reach-IsExclusive : {s t : LeaseSystem} → IsExclusive s → Reach s t → IsExclusive t
Reach-IsExclusive x here = x
Reach-IsExclusive x (next r step) = Step-IsExclusive step (Reach-IsExclusive x r)
