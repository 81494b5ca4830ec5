-- ===== src/Scheduler/Known.antt =====
-- What `RuleScheduleSynchronizer` knows after a synchronisation.
use early_warning_system.Prelude.{
  ℕ, ◌≡◌, ◌≤◌, refl, sym, ◌∙◌, ap, true, ◌&&◌, Option, none, some, List, [], ◌∷◌, Text, any, get,
  put, get-put, get-remove, eq_iff, is_some, arith, ◌==◌, nat_eq, text_eq, text_beq_iff,
  if◌then◌else◌, Result, ok, raise, Bool-cases, Option-cases, Result-cases, inl, inr,
}
use early_warning_system.Models.{AlertRule}
use early_warning_system.Errors.{Error}
use early_warning_system.Scheduler.{
  Job, Jobs, Known, SyncState, job_id_of, scheduled, desired_from, fail, remove_rule, remove_rules,
  schedule_job, store_signature, sync_job, sync_rule, sync_rules, obsolete, sync_state, sync, knows,
}

-- Each key stands once.
abbrev pub IsUnique : List (ℕ × AlertRule) → Type 0
IsUnique [] = Unit
IsUnique ((k, r) ∷ d) = (get k d ≡ none) × IsUnique d

put-IsUnique :
    (k : ℕ) (r : AlertRule) (d : List (ℕ × AlertRule)) → IsUnique d → IsUnique (put k r d)
put-IsUnique k r [] u = (refl, tt)
put-IsUnique k r ((j, q) ∷ d) u = elim (Bool-cases (j == k)) [
  | inl same ↦ rw same u
  | inr other ↦ rw other (get-put k j r d ∙ ground (arith, other, u.0), put-IsUnique k r d u.1)
]

knows-eq : (o : Option Text) (signature : Text) → knows o signature ≡ true → o ≡ some signature
knows-eq none signature h = cc
knows-eq (some t) signature h = ap some ((text_beq_iff t signature).0 h)

module _ {W : Type 0} (jobs : Jobs W) where
  desired_from-IsUnique :
      (rules : List AlertRule) (d : List (ℕ × AlertRule))
      → IsUnique d
      → IsUnique (desired_from jobs rules d)
  unfolding desired_from
  desired_from-IsUnique [] d u = u
  desired_from-IsUnique (rule ∷ rest) d u = elim (Option-cases (scheduled jobs rule)) [
    | inl absent ↦ rw (absent, desired_from) (desired_from-IsUnique rest d u)
    | inr ((id, r), found) ↦
        rw (found, desired_from) (desired_from-IsUnique rest (put id r d) (put-IsUnique id r d u))
  ]

  -- how a loop changes the state: it fails, or it changes what is known as told
  abbrev Turns : SyncState W → SyncState W → (ℕ → Option Text) → Type 0
  Turns s t wanted =
      (s.failed_operations ≤ t.failed_operations)
      × (t.failed_operations ≡ s.failed_operations → (j : ℕ) → get j t.known ≡ wanted j)

  fail-Turns : (s : SyncState W) (w : W) (wanted : ℕ → Option Text) → Turns s (fail jobs s w) wanted
  unfolding fail
  fail-Turns s w wanted = (omega arith, λ h. absurd (omega (arith, h)))

  remove_rule-Turns :
      (s : SyncState W) (id : ℕ)
      → Turns s (remove_rule jobs s id) (λ j. if id == j then none else get j s.known)
  unfolding remove_rule
  remove_rule-Turns s id = elim (Result-cases (jobs.get_job (job_id_of id) s.world).0) [
    | inr (e, failed) ↦ rw (failed, remove_rule) (fail-Turns s _ _)
    | inl (found, answered) ↦ elim (Option-cases found) [
      | inl absent ↦
          rw (answered, absent, remove_rule) ((omega arith), λ h j. get-remove id j s.known)
      | inr (job, present) ↦
          elim (Result-cases
            (jobs.remove_job (job_id_of id) (jobs.get_job (job_id_of id) s.world).1).0) [
              | inr (e, failed) ↦ rw (answered, present, failed, remove_rule) (fail-Turns s _ _)
              | inl (u, removed) ↦
                  rw (answered, present, removed, remove_rule)
                    ((omega arith), λ h j. get-remove id j s.known)
            ]
    ]
  ]

  remove_rules-Turns :
      (ids : List ℕ) (s : SyncState W)
      → Turns s
          (remove_rules jobs s ids)
          (λ j. if any (λ i. i == j) ids then none else get j s.known)
  unfolding remove_rules
  remove_rules-Turns [] s = (omega arith, λ h j. refl)
  remove_rules-Turns (id ∷ ids) s =
      let one = remove_rule-Turns s id in
      let rest = remove_rules-Turns ids (remove_rule jobs s id) in
      (
        omega (arith, one.0, rest.0),
        λ h j. ground (
          arith,
          one.1 (omega (arith, h, one.0, rest.0)) j,
          rest.1 (omega (arith, h, one.0, rest.0)) j,
        ),
      )

  same_key : (s : SyncState W) (i j : ℕ) → i ≡ j → get i s.known ≡ get j s.known
  same_key s i j e = ap (λ k. get k s.known) e

  store_signature-Turns :
      (s : SyncState W) (id : ℕ) (signature : Text) (answer : Result Error (Unit {0}) × W)
      → Turns s
          (store_signature jobs s id signature answer)
          (λ j. if id == j then some signature else get j s.known)
  unfolding store_signature
  store_signature-Turns s id signature (raise e, w) = fail-Turns s w _
  store_signature-Turns s id signature (ok u, w) =
      (omega arith, λ h j. get-put id j signature s.known)

  sync_job-Turns :
      (s : SyncState W) (id : ℕ) (rule : AlertRule) (job : Option Job) (w : W)
      → Turns s
          (sync_job jobs s id rule job w)
          (λ j. if id == j then jobs.cron_signature rule.cron_expression else get j s.known)
  unfolding sync_job
  sync_job-Turns s id rule job w = elim (Option-cases (jobs.cron_signature rule.cron_expression)) [
    | inl invalid ↦ rw (invalid, sync_job) (fail-Turns s w _)
    | inr (signature, valid) ↦ elim (Bool-cases (knows (get id s.known) signature && is_some job)) [
      | inl unchanged ↦
          rw (valid, unchanged, sync_job)
            (
              omega arith,
              λ h j.
                  ground (arith, unchanged, knows-eq (get id s.known) signature, same_key s id j),
            )
      | inr changed ↦
          rw (valid, changed, sync_job)
            (store_signature-Turns s id signature (schedule_job jobs id rule.cron_expression job w))
    ]
  ]

  sync_rule-Turns :
      (s : SyncState W) (id : ℕ) (rule : AlertRule)
      → Turns s
          (sync_rule jobs s id rule)
          (λ j. if id == j then jobs.cron_signature rule.cron_expression else get j s.known)
  unfolding sync_rule
  sync_rule-Turns s id rule = elim (Result-cases (jobs.get_job (job_id_of id) s.world).0) [
    | inr (e, failed) ↦ rw (failed, sync_rule) (fail-Turns s _ _)
    | inl (job, answered) ↦ rw (answered, sync_rule) (sync_job-Turns s id rule job _)
  ]

  -- what is to be known of a rule that is to be scheduled, or else an old value
  abbrev pub signature_of : Option AlertRule → Option Text → Option Text
  signature_of none old = old
  signature_of (some rule) old = jobs.cron_signature rule.cron_expression

  head_signature :
      (id j : ℕ) (rule : AlertRule) (desired : List (ℕ × AlertRule)) (old : Option Text)
      → get id desired ≡ none
      → signature_of
          (get j desired)
          (if id == j then jobs.cron_signature rule.cron_expression else old)
        ≡ signature_of (get j ((id, rule) ∷ desired)) old
  head_signature id j rule desired old absent = elim (Bool-cases (id == j)) [
    | inl same ↦
        let gone = sym (ap (λ k. get k desired) ((eq_iff id j).0 same)) ∙ absent in
        ap (λ o. signature_of o (if id == j then jobs.cron_signature rule.cron_expression else old))
          gone
        ∙ (rw same refl)
    | inr other ↦ rw other refl
  ]

  sync_rules-Turns :
      (desired : List (ℕ × AlertRule)) (s : SyncState W)
      → IsUnique desired
      → Turns s (sync_rules jobs s desired) (λ j. signature_of (get j desired) (get j s.known))
  unfolding sync_rules
  sync_rules-Turns [] s u = (omega arith, λ h j. refl)
  sync_rules-Turns ((id, rule) ∷ desired) s u =
      let one = sync_rule-Turns s id rule in
      let rest = sync_rules-Turns desired (sync_rule jobs s id rule) u.1 in
      (
        omega (arith, one.0, rest.0),
        λ h j.
            let first = one.1 (omega (arith, h, one.0, rest.0)) j in
            let later = rest.1 (omega (arith, h, one.0, rest.0)) j in
            later
            ∙ ap (signature_of (get j desired)) first
            ∙ head_signature id j rule desired (get j s.known) u.0,
      )

  same_desired : (desired : List (ℕ × AlertRule)) (i j : ℕ) → i ≡ j → get i desired ≡ get j desired
  same_desired desired i j e = ap (λ k. get k desired) e

  any-obsolete :
      (known : Known) (desired : List (ℕ × AlertRule)) (j : ℕ)
      → get j desired ≡ none
      → any (λ i. i == j) (obsolete jobs known desired) ≡ is_some (get j known)
  unfolding obsolete
  any-obsolete [] desired j absent = refl
  any-obsolete ((i, c) ∷ known) desired j absent =
      ground
        (arith, absent, any-obsolete known desired j absent, eq_iff i j, same_desired desired i j)

  gone :
      (known : Known) (desired : List (ℕ × AlertRule)) (j : ℕ)
      → get j desired ≡ none
      → (if any (λ i. i == j) (obsolete jobs known desired) then none else get j known) ≡ none
  gone known desired j absent = ground (arith, any-obsolete known desired j absent)

  -- A synchronisation that returns knows exactly the rules that are to be scheduled, each with the
  -- trigger of its cron expression, whatever it knew before and whatever the scheduler had.
  pub known-sync :
      (known : Known) (w : W) (rules : List AlertRule) (j : ℕ)
      → (sync jobs known w rules).0 ≡ ok tt
      → get j (sync jobs known w rules).1 ≡ signature_of (get j (desired_from jobs rules [])) none
  unfolding sync sync_state
  known-sync known w rules j h =
      let desired = desired_from jobs rules [] in
      let s : SyncState W = record { known = known; failed_operations = 0; world = w } in
      let t = remove_rules jobs s (obsolete jobs known desired) in
      let removal = remove_rules-Turns (obsolete jobs known desired) s in
      let update = sync_rules-Turns desired t (desired_from-IsUnique rules [] tt) in
      let none_failed : (sync_rules jobs t desired).failed_operations ≡ 0 = ground (arith, h) in
      let first = removal.1 (omega (arith, none_failed, removal.0, update.0)) j in
      let later = update.1 (omega (arith, none_failed, removal.0, update.0)) j in
      later ∙ elim (Option-cases (get j desired)) [
        | inr (rule, present) ↦
            ap (λ o. signature_of o (get j t.known)) present
            ∙ sym (ap (λ o. signature_of o none) present)
        | inl absent ↦ ap (signature_of (get j desired)) (first ∙ gone known desired j absent)
      ]
