-- ===== src/ExecutionLock/Holders/Live.antt =====
-- Leases that have not expired: at most one process holds one for a rule.
use early_warning_system.Prelude.{
  ℕ, ◌≤◌, ◌<◌, ◌≡◌, ◌≢◌, refl, sym, ap, subst, ◌∙◌, Bool, true, ◌&&◌, none, some, List, [], ◌∷◌,
  Text, All, arith, count, count_mono, ◌==◌, nat_eq, text_eq, text_beq_iff, ltb, Option-cases,
  Bool-cases, inl, inr,
}
use early_warning_system.Models.{DateTime, RuleExecutionLease}
use early_warning_system.ExecutionLock.Rows.{find_lease}
use early_warning_system.ExecutionLock.Holders.{
  Holder, LeaseSystem, Reach, HasLease, IsDistinct, Reach-IsExclusive,
}

-- a process inside for a rule, whose lease has not expired
abbrev pub is_live : ℕ → DateTime → Holder → Bool
is_live rule_id clock h = (h.rule_id == rule_id) && ltb clock h.expires_at

count-zero :
    (token : Text) (hs : List Holder)
    → All (λ g. g.token ≢ token) hs
    → count (λ h. h.token == token) hs ≡ 0
count-zero token [] d = refl
count-zero token (h ∷ hs) d =
    ground (arith, d.0, text_beq_iff h.token token, count-zero token hs d.1)

live_one :
    (rule_id : ℕ) (clock : DateTime) (leases : List RuleExecutionLease) (l : RuleExecutionLease)
    (h : Holder)
    → find_lease rule_id leases ≡ some l
    → HasLease clock leases h
    → is_live rule_id clock h ≡ true
    → (h.token == l.owner_token) ≡ true
live_one rule_id clock leases l h found o live =
    let lives : (h.rule_id ≡ rule_id) × (clock < h.expires_at) = ground (arith, live) in
    let (l', found', own, e) = o lives.1 in
    let same : l' ≡ l = ground (arith, found, found', ap (λ r. find_lease r leases) lives.0) in
    (text_beq_iff h.token l.owner_token).1 (sym own ∙ ap (λ x. x.owner_token) same)

none_live :
    (rule_id : ℕ) (clock : DateTime) (leases : List RuleExecutionLease) (hs : List Holder)
    → find_lease rule_id leases ≡ none
    → All (HasLease clock leases) hs
    → count (is_live rule_id clock) hs ≡ 0
none_live rule_id clock leases [] free o = refl
none_live rule_id clock leases (h ∷ hs) free o = elim (Bool-cases (is_live rule_id clock h)) [
  | inr dead ↦ rw dead (none_live rule_id clock leases hs free o.1)
  | inl live ↦
      let lives : (h.rule_id ≡ rule_id) × (clock < h.expires_at) = ground (arith, live) in
      let (l', found', own, e) = o.0 lives.1 in
      cc (free, found', ap (λ r. find_lease r leases) lives.0)
]

count-token :
    (token : Text) (hs : List Holder) → IsDistinct hs → count (λ h. h.token == token) hs ≤ 1
count-token token [] d = omega arith
count-token token (h ∷ hs) d = elim (Bool-cases (h.token == token)) [
  | inr other ↦ rw other (count-token token hs d.1)
  | inl mine ↦ rw mine (
      omega (
        arith,
        count-zero token hs
            (subst (λ x. All (λ g. g.token ≢ x) hs) ((text_beq_iff h.token token).0 mine) d.0),
      ))
]

live_token :
    (rule_id : ℕ) (clock : DateTime) (leases : List RuleExecutionLease) (l : RuleExecutionLease)
    (hs : List Holder)
    → find_lease rule_id leases ≡ some l
    → All (HasLease clock leases) hs
    → All (λ h. is_live rule_id clock h ≡ true → (h.token == l.owner_token) ≡ true) hs
live_token rule_id clock leases l [] found o = tt
live_token rule_id clock leases l (h ∷ hs) found o =
    (live_one rule_id clock leases l h found o.0, live_token rule_id clock leases l hs found o.1)

-- From a database without leases, whatever the processes do in whatever order and however long they
-- run, at most one process at a time is inside the `with` block of a rule with a lease that has not
-- expired.
pub at_most_one_live :
    {t : LeaseSystem} (clock : DateTime)
    → Reach (record { clock = clock; leases = []; holders = [] }) t
    → (rule_id : ℕ) → count (is_live rule_id t.clock) t.holders ≤ 1
at_most_one_live {t} clock r rule_id =
    let x = Reach-IsExclusive (record { distinct = tt; owned = tt }) r in
    elim (Option-cases (find_lease rule_id t.leases)) [
      | inl free ↦ omega (arith, none_live rule_id t.clock t.leases t.holders free x.owned)
      | inr (l, found) ↦ omega (
        arith,
        count_mono (is_live rule_id t.clock) (λ h. h.token == l.owner_token) t.holders
            (live_token rule_id t.clock t.leases l t.holders found x.owned),
        count-token l.owner_token t.holders x.distinct,
      )
    ]
