-- ===== src/Settings/Smtp/Single.antt =====
-- app/routes.py: the three SMTP forms as one operation, and the rows that they leave.
use early_warning_system.Prelude.{
  ℕ, ◌≡◌, ◌≤◌, refl, true, not, Option, none, some, List, Text, map, count, arith, ◌==◌, nat_eq,
  option_eq, Result, ok, Bool-cases, Option-cases, inl, inr, ◌⊎◌,
}
use early_warning_system.Models.{SmtpConfig}
use early_warning_system.Errors.{Error}
use early_warning_system.Database.{Db, get_smtp_config, above}
use early_warning_system.Outside.{Outside}
use early_warning_system.ExecutionService.Attempt.{get_enabled_smtp_config, single_config}
use early_warning_system.Settings.{Integer, is_checked, ParsedPair, both, neither}
use early_warning_system.Settings.Smtp.Rows.{
  is_on, none_on, count_filtered, filter-append, make_room-keep, created_single, updated_single,
}
use early_warning_system.Settings.Smtp.{
  SmtpForm, SmtpReply, saved, disable_other_smtp_configs, checked_form, new_config, save,
  create_smtp_settings, update_smtp_settings, delete_smtp_settings,
}

-- one of the three forms
pub data SmtpAction : Type 0 where
  create : SmtpForm → SmtpAction
  update : ℕ → SmtpForm → SmtpAction
  delete : ℕ → SmtpAction

pub perform :
    {W : Type 0}
    → Outside W
    → (Text → Option Integer)
    → (Text → Text)
    → SmtpAction
    → Db
    → W
    → Result Error SmtpReply × Db × W
perform out parse_int encrypt (create form) = create_smtp_settings out parse_int encrypt form
perform out parse_int encrypt (update id form) = update_smtp_settings out parse_int encrypt id form
perform out parse_int encrypt (delete id) = delete_smtp_settings out parse_int encrypt id

pub ParsedPair-cases :
    (p : ParsedPair) → ((n : ℕ) × (m : ℕ) × (p ≡ both n m)) ⊎ ((e : Text) × (p ≡ neither e))
ParsedPair-cases (both n m) = inl (n, m, refl)
ParsedPair-cases (neither e) = inr (e, refl)

module _ {W : Type 0} (out : Outside W) (parse_int : Text → Option Integer) (encrypt : Text → Text)
    (db : Db) where
  -- what a commit leaves, if both lists of rows have at most one that is enabled
  save_single :
      (configs : List SmtpConfig) (v : W)
      → count is_on db.smtp_configs ≤ 1
      → count is_on configs ≤ 1
      → count is_on (save out parse_int encrypt configs db v).1.smtp_configs ≤ 1
  unfolding save
  save_single configs v before after = elim (Bool-cases (out.commit v).0) [
    | inl committed ↦ rw (committed, save) after
    | inr failed ↦ rw (failed, save) before
  ]

  deleted :
      (id : ℕ) (w : W)
      → count is_on db.smtp_configs ≤ 1
      → count is_on (delete_smtp_settings out parse_int encrypt id db w).1.smtp_configs ≤ 1
  unfolding delete_smtp_settings
  deleted id w before = elim (Option-cases (get_smtp_config db id)) [
    | inl absent ↦ rw (absent, delete_smtp_settings) before
    | inr (config, found) ↦
        rw (found, delete_smtp_settings)
          (save_single _ _ before
            (omega (arith, before, count_filtered (λ c. not (c.id == some id)) db.smtp_configs)))
  ]

module _ {W : Type 0} (out : Outside W) (parse_int : Text → Option Integer) (encrypt : Text → Text)
    (form : SmtpForm) (db : Db) (w : W) where
  -- If a new SMTP configuration that its form enables is saved by `create_smtp_settings`,
  -- executions use a configuration with the host and the encrypted password of the form, whatever
  -- was enabled before.
  pub get_enabled_smtp_config-create_smtp_settings :
      is_checked form.enabled ≡ true
      → (create_smtp_settings out parse_int encrypt form db w).0 ≡ ok saved
      → (c : SmtpConfig) × (get_enabled_smtp_config
            (create_smtp_settings out parse_int encrypt form db w).1
          ≡ ok c)
        × (c.host ≡ form.host)
        × (c.encrypted_password ≡ encrypt form.password)
  unfolding create_smtp_settings save new_config get_enabled_smtp_config single_config
  get_enabled_smtp_config-create_smtp_settings on done =
      elim (ParsedPair-cases (checked_form parse_int form)) [
        | inr (e, wrong) ↦ cc (rw (wrong, create_smtp_settings) at done)
        | inl (port, timeout, right) ↦
            let w' = (out.now w).1 in
            elim (Bool-cases (out.commit w').0) [
              | inr failed ↦ cc (rw (right, create_smtp_settings, failed) at done)
              | inl committed ↦
                  let c =
                    new_config out parse_int encrypt (above (map (λ x. x.id) db.smtp_configs)) form
                      port timeout (out.now w).0 in
                  let room = make_room-keep out parse_int encrypt form db none db.smtp_configs on in
                  let only =
                    filter-append (disable_other_smtp_configs none db.smtp_configs) c on
                      (none_on db.smtp_configs) in
                  (
                    c,
                    rw (right, create_smtp_settings, committed, room, only, get_enabled_smtp_config)
                        refl,
                    refl,
                    refl,
                  )
            ]
      ]

  created :
      count is_on db.smtp_configs ≤ 1
      → count is_on (create_smtp_settings out parse_int encrypt form db w).1.smtp_configs ≤ 1
  unfolding create_smtp_settings new_config
  created before = elim (ParsedPair-cases (checked_form parse_int form)) [
    | inr (e, wrong) ↦ rw (wrong, create_smtp_settings) before
    | inl (port, timeout, right) ↦
        rw (right, create_smtp_settings)
          (save_single out parse_int encrypt db _ _ before
            (created_single out parse_int encrypt form db _ refl before))
  ]

  updated :
      (id : ℕ)
      → count is_on db.smtp_configs ≤ 1
      → count (λ c. c.id == some id) db.smtp_configs ≤ 1
      → count is_on (update_smtp_settings out parse_int encrypt id form db w).1.smtp_configs ≤ 1
  unfolding update_smtp_settings
  updated id before keyed = elim (Option-cases (get_smtp_config db id)) [
    | inl absent ↦ rw (absent, update_smtp_settings) before
    | inr (config, found) ↦ elim (ParsedPair-cases (checked_form parse_int form)) [
      | inr (e, wrong) ↦ rw (found, update_smtp_settings, wrong) before
      | inl (port, timeout, right) ↦
          rw (found, update_smtp_settings, right)
            (save_single out parse_int encrypt db _ _ before (
              updated_single out parse_int encrypt form db id port timeout (out.now w).0 before
                keyed))
    ]
  ]

-- If at most one configuration is enabled, and the keys of the table are different, then at most one
-- is enabled after creating, updating or deleting one, whatever the form and the commit are.
pub perform-single :
    {W : Type 0} (out : Outside W) (parse_int : Text → Option Integer) (encrypt : Text → Text)
    (action : SmtpAction) (db : Db) (w : W)
    → count is_on db.smtp_configs ≤ 1
    → ((id : ℕ) → count (λ c. c.id == some id) db.smtp_configs ≤ 1)
    → count is_on (perform out parse_int encrypt action db w).1.smtp_configs ≤ 1
unfolding perform
perform-single out parse_int encrypt (create form) db w before keyed =
    created out parse_int encrypt form db w before
perform-single out parse_int encrypt (update id form) db w before keyed =
    updated out parse_int encrypt form db w id before (keyed id)
perform-single out parse_int encrypt (delete id) db w before keyed =
    deleted out parse_int encrypt db id w before
