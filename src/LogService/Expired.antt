-- ===== src/LogService/Expired.antt =====
-- `cleanup_expired_logs`: the rows that a round selects, and those that it leaves.
use early_warning_system.Prelude.{
  ℕ, zero, suc, ◌≡◌, ◌<◌, refl, sym, ap, subst, length-filter, Bool, true, false, not, Option, List,
  [], ◌∷◌, All, any, filter, length, is_empty, arith, ◌==◌, option_eq, option_beq_iff, eq_refl,
  Bool-cases, inl, inr,
}
use early_warning_system.Models.{DateTime, ExecutionLog}
use early_warning_system.LogService.{is_expired, is_one_of, expired_ids}

-- The keys of a table are different.
abbrev pub IsKeyed : List ExecutionLog → Type 0
IsKeyed [] = Unit
IsKeyed (l ∷ logs) = All (λ x. (x.id == l.id) ≡ false) logs × IsKeyed logs

All-filter :
    (P : ExecutionLog → Type 0) (p : ExecutionLog → Bool) (logs : List ExecutionLog)
    → All P logs
    → All P (filter p logs)
All-filter P p [] h = tt
All-filter P p (l ∷ logs) h = elim (Bool-cases (p l)) [
  | inl keep ↦ rw keep (h.0, All-filter P p logs h.1)
  | inr drop ↦ rw drop (All-filter P p logs h.1)
]

pub filter-IsKeyed :
    (p : ExecutionLog → Bool) (logs : List ExecutionLog) → IsKeyed logs → IsKeyed (filter p logs)
filter-IsKeyed p [] h = tt
filter-IsKeyed p (l ∷ logs) h = elim (Bool-cases (p l)) [
  | inl keep ↦
      rw keep (All-filter (λ x. (x.id == l.id) ≡ false) p logs h.0, filter-IsKeyed p logs h.1)
  | inr drop ↦ rw drop (filter-IsKeyed p logs h.1)
]

module _ (cutoff : DateTime) where
  -- a row that is not expired and that a list of ids leaves
  abbrev IsSpared : List (Option ℕ) → ExecutionLog → Type 0
  IsSpared ids x = is_expired cutoff x ≡ false → is_one_of ids x.id ≡ false

  spare_more :
      (l : ExecutionLog) (ids : List (Option ℕ)) (logs : List ExecutionLog)
      → All (λ x. (x.id == l.id) ≡ false) logs
      → All (IsSpared ids) logs
      → All (IsSpared (l.id ∷ ids)) logs
  unfolding is_one_of
  spare_more l ids [] d h = tt
  spare_more l ids (x ∷ logs) d h = (
    (λ kept. ground (arith, d.0, h.0 kept, option_beq_iff l.id x.id, option_beq_iff x.id l.id)),
    spare_more l ids logs d.1 h.1,
  )

  other_ids :
      (l : ExecutionLog) (batch : ℕ) (logs : List ExecutionLog)
      → All (λ x. (x.id == l.id) ≡ false) logs
      → is_one_of (expired_ids cutoff batch logs) l.id ≡ false
  unfolding expired_ids is_one_of
  other_ids l zero [] d = refl
  other_ids l (suc batch) [] d = refl
  other_ids l zero (x ∷ logs) d = refl
  other_ids l (suc batch) (x ∷ logs) d = elim (Bool-cases (is_expired cutoff x)) [
    | inl old ↦ rw old (ground (arith, d.0, other_ids l batch logs d.1))
    | inr young ↦ rw young (other_ids l (suc batch) logs d.1)
  ]

  ids_old :
      (batch : ℕ) (l : ExecutionLog) (logs : List ExecutionLog)
      → is_expired cutoff l ≡ true
      → expired_ids cutoff (suc batch) (l ∷ logs) ≡ l.id ∷ expired_ids cutoff batch logs
  unfolding expired_ids
  ids_old batch l logs old = rw old refl

  ids_young :
      (batch : ℕ) (l : ExecutionLog) (logs : List ExecutionLog)
      → is_expired cutoff l ≡ false
      → expired_ids cutoff batch (l ∷ logs) ≡ expired_ids cutoff batch logs
  unfolding expired_ids
  ids_young batch l logs young = rw young refl

  spare_all : (logs : List ExecutionLog) → All (IsSpared []) logs
  unfolding is_one_of
  spare_all [] = tt
  spare_all (l ∷ logs) = ((λ young. refl), spare_all logs)

  spare_none :
      (batch : ℕ) (logs : List ExecutionLog)
      → batch ≡ 0
      → All (IsSpared (expired_ids cutoff batch logs)) logs
  unfolding expired_ids
  spare_none zero logs h = spare_all logs
  spare_none (suc batch) logs h = absurd (omega (arith, h))

  -- The ids of a round are those of expired rows alone.
  pub expired_ids-spares :
      (logs : List ExecutionLog) (batch : ℕ)
      → IsKeyed logs
      → All (IsSpared (expired_ids cutoff batch logs)) logs
  expired_ids-spares [] batch k = tt
  expired_ids-spares (l ∷ logs) zero k = spare_none 0 (l ∷ logs) refl
  expired_ids-spares (l ∷ logs) (suc batch) k = elim (Bool-cases (is_expired cutoff l)) [
    | inl old ↦
        subst (λ ids. All (IsSpared ids) (l ∷ logs)) (sym (ids_old batch l logs old))
          (
            (λ young. cc),
            spare_more l (expired_ids cutoff batch logs) logs k.0
                (expired_ids-spares logs batch k.1),
          )
    | inr young ↦
        subst (λ ids. All (IsSpared ids) (l ∷ logs)) (sym (ids_young (suc batch) l logs young))
          ((λ _. other_ids l (suc batch) logs k.0), expired_ids-spares logs (suc batch) k.1)
  ]

  pub filter-spared :
      (ids : List (Option ℕ)) (logs : List ExecutionLog)
      → All (IsSpared ids) logs
      → filter (λ l. not (is_expired cutoff l)) (filter (λ l. not (is_one_of ids l.id)) logs)
        ≡ filter (λ l. not (is_expired cutoff l)) logs
  filter-spared ids [] h = refl
  filter-spared ids (l ∷ logs) h = ground (arith, h.0, filter-spared ids logs h.1)

  -- A round without ids has nothing left to delete.
  pub none_expired :
      (batch : ℕ) (logs : List ExecutionLog)
      → is_empty (expired_ids cutoff (suc batch) logs) ≡ true
      → filter (λ l. not (is_expired cutoff l)) logs ≡ logs
  unfolding expired_ids
  none_expired batch [] h = refl
  none_expired batch (l ∷ logs) h = elim (Bool-cases (is_expired cutoff l)) [
    | inl old ↦ cc (rw old at h)
    | inr young ↦ rw young (ap (λ rest. l ∷ rest) (none_expired batch logs (rw young at h)))
  ]

  no_ids : (batch : ℕ) → is_empty (expired_ids cutoff (suc batch) []) ≡ true
  unfolding expired_ids
  no_ids batch = refl

  pub hit :
      (batch : ℕ) (logs : List ExecutionLog)
      → is_empty (expired_ids cutoff (suc batch) logs) ≡ false
      → any (λ l. is_one_of (expired_ids cutoff (suc batch) logs) l.id) logs ≡ true
  unfolding is_one_of
  hit batch [] h = cc (h, no_ids batch)
  hit batch (l ∷ logs) h = elim (Bool-cases (is_expired cutoff l)) [
    | inl old ↦
        subst (λ ids. any (λ x. is_one_of ids x.id) (l ∷ logs) ≡ true)
          (sym (ids_old batch l logs old)) (ground (arith, eq_refl l.id))
    | inr young ↦
        let same = ids_young (suc batch) l logs young in
        subst (λ ids. any (λ x. is_one_of ids x.id) (l ∷ logs) ≡ true) (sym same)
          (ground (arith, hit batch logs (subst (λ ids. is_empty ids ≡ false) same h)))
  ]

  pub length-filter_hit :
      (p : ExecutionLog → Bool) (logs : List ExecutionLog)
      → any p logs ≡ true
      → length (filter (λ l. not (p l)) logs) < length logs
  length-filter_hit p [] h = cc
  length-filter_hit p (l ∷ logs) h =
      ground (arith, length-filter_hit p logs, length-filter (λ x. not (p x)) logs)
