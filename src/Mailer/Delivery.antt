-- ===== src/Mailer/Delivery.antt =====
-- What the result of `SmtpMailer.send` says of the delivery.
use early_warning_system.Prelude.{
  true, not, List, [], ◌∷◌, Text, any, arith, ◌≡◌, ◌≢◌, ◌↔◌, refl, subst, text_eq, text_beq,
  text_beq_iff, Member, Bool-cases, inl, inr, Result, ok, raise,
}
use early_warning_system.Errors.{Error}
use early_warning_system.Mailer.{SmtpClient, sendmail_result}

any-Member : (a : Text) (l : List Text) → (any (λ b. text_beq b a) l ≡ true) ↔ Member a l
any-Member a [] = ((λ h. cc), λ h. absurd h)
any-Member a (b ∷ l) = ground (arith, text_beq_iff b a, any-Member a l)

-- Some address was not refused.
abbrev pub IsPartial : List Text → List Text → Type 0
IsPartial all_recipients refused = (a : Text) × Member a all_recipients × (¬ Member a refused)

some_accepted :
    (all_recipients refused : List Text)
    → any (λ a. not (any (λ b. text_beq b a) refused)) all_recipients ≡ true
    → IsPartial all_recipients refused
some_accepted [] refused h = cc
some_accepted (a ∷ l) refused h = elim (Bool-cases (any (λ b. text_beq b a) refused)) [
  | inl hit ↦ (let (x, m, n) = some_accepted l refused (ground (arith, hit)) in (x, inr m, n))
  | inr miss ↦ (a, inl refl, λ m. cc (miss, (any-Member a refused).1 m))
]

some_accepted_back :
    (all_recipients refused : List Text)
    → IsPartial all_recipients refused
    → any (λ a. not (any (λ b. text_beq b a) refused)) all_recipients ≡ true
some_accepted_back [] refused (x, m, n) = absurd m
some_accepted_back (a ∷ l) refused (x, inl e, n) =
    elim (Bool-cases (any (λ b. text_beq b a) refused)) [
      | inl hit ↦ absurd (n (subst (λ y. Member y refused) e ((any-Member a refused).0 hit)))
      | inr miss ↦ ground (arith, miss)
    ]
some_accepted_back (a ∷ l) refused (x, inr m, n) =
    ground (arith, some_accepted_back l refused (x, m, n))

module _ {W : Type 0} (client : SmtpClient W) (all_recipients : List Text) where
  -- The result of a delivery is a success exactly when the server refused nobody, and a partial
  -- success exactly when it refused somebody and accepted a recipient. A raised exception gives
  -- neither.
  pub sendmail_result_iff :
      (answer : Result Error (List Text))
      → (((sendmail_result client all_recipients answer).success ≡ true) ↔ (answer ≡ ok []))
        × (((sendmail_result client all_recipients answer).partial_success ≡ true) ↔ (
            (refused : List Text) × (answer ≡ ok refused)
            × (refused ≢ [])
            × IsPartial all_recipients refused))
  unfolding sendmail_result
  sendmail_result_iff (raise e) = (((λ h. cc), (λ h. cc)), ((λ h. cc), (λ h. cc (h.1))))
  sendmail_result_iff (ok []) =
      (((λ h. refl), (λ h. refl)), ((λ h. cc), (λ h. absurd (h.2 (ground (arith, h.1))))))
  sendmail_result_iff (ok (a ∷ l)) = (
    ((λ h. cc), (λ h. cc)),
    (
      (λ h. (a ∷ l, refl, (λ e. cc), some_accepted all_recipients (a ∷ l) h)),
      (λ h.
          some_accepted_back all_recipients (a ∷ l)
            (subst (IsPartial all_recipients) {y = a ∷ l} (ground (arith, h.1)) h.3)),
    ),
  )
