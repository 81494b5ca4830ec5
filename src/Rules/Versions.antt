-- ===== src/Rules/Versions.antt =====
-- app/routes.py: the versions that updates keep of a rule, as a history.
pub mod Numbered
pub mod Kept
use early_warning_system.Prelude.{
  ℕ, suc, ◌+◌, ◌≡◌, ◌≤◌, refl, Bool, true, false, Option, none, some, List, [], ◌∷◌, ◌++◌, Text,
  map, filter, length, max, subst, sym, ◌∙◌, arith, ◌==◌, option_eq, option_beq_iff, nat_eq, eq_iff,
  Result, ok, raise, Result-cases, Bool-cases, Option-cases, inl, inr, if◌then◌else◌, ltb,
  update_where,
}
use early_warning_system.Models.{AdminUser, AlertRule, AlertRuleVersion}
use early_warning_system.Errors.{Error}
use early_warning_system.Database.{Db}
use early_warning_system.Outside.{Outside}
use early_warning_system.Rules.Values.{Python, Json, JsonDict, object}
use early_warning_system.Rules.{RuleTools, RuleForm, get_active_rule, updated_rule}
use early_warning_system.Rules.Validation.{validate_rule_form, submitted_rule_form, form_values}
use early_warning_system.Rules.Pages.{
  RuleReply, saved, save, update_rule, create_rule_version, next_rule_version_number, rule_snapshot,
  version_snapshot, dict_or_unreadable,
}

-- the numbers of a rule's versions, in the order in which they were stored
abbrev pub numbers : Option ℕ → List AlertRuleVersion → List ℕ
numbers rule_id versions = map (λ v. v.version_number) (filter (λ v. v.rule_id == rule_id) versions)

-- The numbers count up by one.
abbrev pub IsConsecutive : ℕ → List ℕ → Type 0
IsConsecutive n [] = Unit
IsConsecutive n (x ∷ xs) = (x ≡ n) × IsConsecutive (suc n) xs

-- The versions of every rule are numbered from 1 on.
abbrev pub IsHistory : List AlertRuleVersion → Type 0
IsHistory versions = (rule_id : Option ℕ) → IsConsecutive 1 (numbers rule_id versions)

next_pos :
    (rule_id : Option ℕ) (versions : List AlertRuleVersion)
    → 1 ≤ next_rule_version_number rule_id versions
unfolding next_rule_version_number
next_pos rule_id [] = omega arith
next_pos rule_id (v ∷ rest) = ground (arith, next_pos rule_id rest)

next-numbers :
    (rule_id : Option ℕ) (versions : List AlertRuleVersion) (n : ℕ)
    → IsConsecutive (suc n) (numbers rule_id versions)
    → max (suc n) (next_rule_version_number rule_id versions)
      ≡ suc n + length (numbers rule_id versions)
unfolding next_rule_version_number
next-numbers rule_id [] n h = omega arith
next-numbers rule_id (v ∷ rest) n h = elim (Bool-cases (v.rule_id == rule_id)) [
  | inl own ↦
      let k : IsConsecutive (suc n) (v.version_number ∷ numbers rule_id rest) = rw own at h in
      let ih = next-numbers rule_id rest (suc n) k.1 in rw own (omega (arith, k.0, ih))
  | inr other ↦ rw other (next-numbers rule_id rest n (rw other at h))
]

IsConsecutive-append :
    (n : ℕ) (xs : List ℕ) → IsConsecutive n xs → IsConsecutive n (xs ++ (n + length xs) ∷ [])
IsConsecutive-append n [] h = (omega arith, tt)
IsConsecutive-append n (x ∷ xs) h = (
  h.0,
  subst (λ k. IsConsecutive (suc n) (xs ++ k ∷ [])) (omega arith)
      (IsConsecutive-append (suc n) xs h.1),
)

numbers-append :
    (rule_id : Option ℕ) (versions : List AlertRuleVersion) (v : AlertRuleVersion)
    → numbers rule_id (versions ++ v ∷ []) ≡ (
        if v.rule_id == rule_id
        then numbers rule_id versions ++ v.version_number ∷ []
        else numbers rule_id versions)
numbers-append rule_id [] v = ground arith
numbers-append rule_id (u ∷ versions) v = ground (arith, numbers-append rule_id versions v)

pub next_version-IsHistory :
    (versions : List AlertRuleVersion) (v : AlertRuleVersion)
    → v.version_number ≡ next_rule_version_number v.rule_id versions
    → IsHistory versions
    → IsHistory (versions ++ v ∷ [])
next_version-IsHistory versions v next h rule_id = elim (Bool-cases (v.rule_id == rule_id)) [
  | inr other ↦
      subst (IsConsecutive 1) (sym (rw (numbers-append rule_id versions v, other) refl)) (h rule_id)
  | inl own ↦
      let same = (option_beq_iff v.rule_id rule_id).0 own in
      let last : v.version_number ≡ 1 + length (numbers rule_id versions) =
        next
        ∙ (rw same (
            omega
              (arith, next-numbers rule_id versions 0 (h rule_id), next_pos rule_id versions))) in
      subst (IsConsecutive 1) (sym (rw (numbers-append rule_id versions v, own, last) refl))
        (IsConsecutive-append 1 (numbers rule_id versions) (h rule_id))
]
