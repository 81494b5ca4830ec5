-- ===== src/Settings/Smtp/Rows.antt =====
-- app/routes.py, the SMTP forms: how many rows are enabled in a list of rows that they make.
use early_warning_system.Prelude.{
  ℕ, ◌≡◌, ◌≤◌, refl, Bool, true, false, Option, none, some, List, [], ◌∷◌, ◌++◌, Text, filter,
  count, count-append_cons, update_where, arith, ◌==◌, nat_eq, option_eq, Bool-cases, inl, inr,
}
use early_warning_system.Models.{DateTime, SmtpConfig}
use early_warning_system.Database.{Db}
use early_warning_system.Outside.{Outside}
use early_warning_system.Settings.{Integer, is_checked}
use early_warning_system.Settings.Smtp.{
  SmtpForm, disable_other_smtp_configs, make_room, updated_config,
}

abbrev pub is_on : SmtpConfig → Bool
is_on c = c.enabled

pub none_on :
    (configs : List SmtpConfig) → filter is_on (disable_other_smtp_configs none configs) ≡ []
unfolding disable_other_smtp_configs
none_on [] = refl
none_on (c ∷ configs) = ground (arith, none_on configs)

count-none_on :
    (configs : List SmtpConfig) → count is_on (disable_other_smtp_configs none configs) ≡ 0
unfolding disable_other_smtp_configs
count-none_on [] = refl
count-none_on (c ∷ configs) = ground (arith, count-none_on configs)

pub count_filtered :
    (p : SmtpConfig → Bool) (configs : List SmtpConfig)
    → count is_on (filter p configs) ≤ count is_on configs
count_filtered p [] = omega arith
count_filtered p (c ∷ configs) = ground (arith, count_filtered p configs)

pub filter-append :
    (xs : List SmtpConfig) (c : SmtpConfig)
    → c.enabled ≡ true
    → filter is_on xs ≡ []
    → filter is_on (xs ++ c ∷ []) ≡ c ∷ []
filter-append [] c on h = rw on refl
filter-append (x ∷ xs) c on h = elim (Bool-cases x.enabled) [
  | inl lit ↦ cc (rw lit at h)
  | inr dark ↦ rw dark (filter-append xs c on (rw dark at h))
]

module _ {W : Type 0} (out : Outside W) (parse_int : Text → Option Integer) (encrypt : Text → Text)
    (form : SmtpForm) (db : Db) where
  -- a row that is turned off adds nothing
  update_off :
      (id port timeout : ℕ) (now : DateTime) (configs : List SmtpConfig)
      → is_checked form.enabled ≡ false
      → count is_on (
          update_where
            (λ c. c.id == some id)
            (updated_config out parse_int encrypt form port timeout now)
            configs)
        ≤ count is_on configs
  unfolding updated_config
  update_off id port timeout now [] off = omega arith
  update_off id port timeout now (c ∷ configs) off =
      ground (arith, off, update_off id port timeout now configs off)

  -- a row that is turned on is the only one
  update_on :
      (id port timeout : ℕ) (now : DateTime) (configs : List SmtpConfig)
      → count is_on (
          update_where
            (λ c. c.id == some id)
            (updated_config out parse_int encrypt form port timeout now)
            (disable_other_smtp_configs (some id) configs))
        ≤ count (λ c. c.id == some id) configs
  unfolding disable_other_smtp_configs
  update_on id port timeout now [] = omega arith
  update_on id port timeout now (c ∷ configs) =
      ground (arith, update_on id port timeout now configs)

  make_room-off :
      (keep_id : Option ℕ) (configs : List SmtpConfig)
      → is_checked form.enabled ≡ false
      → make_room form keep_id configs ≡ configs
  unfolding make_room
  make_room-off keep_id configs off = rw off refl

  pub make_room-keep :
      (keep_id : Option ℕ) (configs : List SmtpConfig)
      → is_checked form.enabled ≡ true
      → make_room form keep_id configs ≡ disable_other_smtp_configs keep_id configs
  unfolding make_room
  make_room-keep keep_id configs on = rw on refl

  pub created_single :
      (c : SmtpConfig)
      → c.enabled ≡ is_checked form.enabled
      → count is_on db.smtp_configs ≤ 1
      → count is_on (make_room form none db.smtp_configs ++ c ∷ []) ≤ 1
  created_single c same before = elim (Bool-cases (is_checked form.enabled)) [
    | inl on ↦ rw (make_room-keep none db.smtp_configs on) (
        ground (
          arith,
          count-append_cons is_on (disable_other_smtp_configs none db.smtp_configs) c [],
          count-none_on db.smtp_configs,
        ))
    | inr off ↦
        rw (make_room-off none db.smtp_configs off)
          (ground (arith, same, off, before, count-append_cons is_on db.smtp_configs c []))
  ]

  pub updated_single :
      (id port timeout : ℕ) (now : DateTime)
      → count is_on db.smtp_configs ≤ 1
      → count (λ c. c.id == some id) db.smtp_configs ≤ 1
      → count is_on (
          update_where
            (λ c. c.id == some id)
            (updated_config out parse_int encrypt form port timeout now)
            (make_room form (some id) db.smtp_configs))
        ≤ 1
  updated_single id port timeout now before keyed = elim (Bool-cases (is_checked form.enabled)) [
    | inl on ↦
        rw (make_room-keep (some id) db.smtp_configs on)
          (omega (arith, keyed, update_on id port timeout now db.smtp_configs))
    | inr off ↦
        rw (make_room-off (some id) db.smtp_configs off)
          (omega (arith, before, update_off id port timeout now db.smtp_configs off))
  ]
