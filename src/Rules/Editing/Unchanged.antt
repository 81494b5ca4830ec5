-- ===== src/Rules/Editing/Unchanged.antt =====
-- Sending the page of a rule back as it is.
use early_warning_system.Prelude.{
  ℕ, ◌≡◌, ◌≤◌, refl, Bool, true, false, not, ◌&&◌, some, [], ◌++◌, Text, codes, decimal, strip,
  is_empty, arith, ◌==◌, nat_eq, text_eq, option_eq, ok,
}
use mathlib.Core.Path.{ap₂}
use early_warning_system.Models.{SendMode, send_mode_eq, send_mode_beq_iff, AlertRule}
use early_warning_system.Database.{Db}
use early_warning_system.SqlValidator.{SqlGlot}
use early_warning_system.Settings.{
  natural, is_checked, validate_bounded_int, bounded, parse_bounded_int, accepted, parse_both, both,
  parse_rule_limits,
}
use early_warning_system.Rules.{
  RuleTools, values_of, send_mode_of_text, send_mode_text, has_recipient_text,
}
use early_warning_system.Rules.Validation.{
  CheckedForm, validate_rule_form, submitted_rule_form, form_values, existing_source, hours,
}
use early_warning_system.Rules.Sound.{has_source, IsRunnable}
use early_warning_system.Rules.Editing.{on_or_empty, rule_to_form, rule_to_copy_form}

is_checked-on_or_empty : (b : Bool) → is_checked (on_or_empty b) ≡ b
unfolding is_checked on_or_empty
is_checked-on_or_empty true = refl
is_checked-on_or_empty false = refl

mode_back : (m : SendMode) → send_mode_of_text (send_mode_text m) ≡ some m
unfolding send_mode_of_text send_mode_text
mode_back SendMode.summary = refl
mode_back SendMode.per_row = refl

module _ (glot : SqlGlot) (tools : RuleTools)
    (reads : (n : ℕ) → tools.python.parse_int (decimal n) ≡ some (natural n)) where
  bounded_back :
      (n low high : ℕ) (label : Text)
      → low ≤ n
      → n ≤ high
      → parse_bounded_int tools.python.parse_int (decimal n) label low high ≡ accepted n
  unfolding parse_bounded_int bounded validate_bounded_int
  bounded_back n low high label a b = rw (reads n, parse_bounded_int) (ground arith)

  limits_back :
      (t m : ℕ)
      → 1 ≤ t
      → t ≤ 600
      → 1 ≤ m
      → m ≤ 5000
      → parse_rule_limits tools.python.parse_int (decimal t) (decimal m) ≡ both t m
  unfolding parse_rule_limits parse_both
  limits_back t m a b c d =
      ap₂ parse_both (bounded_back t 1 600 _ a b) (bounded_back m 1 5000 _ c d)

  module _ (db : Db) (r : AlertRule) (h : IsRunnable glot tools db.data_sources (values_of r))
      (to : strip r.dynamic_recipient_field ≡ r.dynamic_recipient_field)
      (cc_to : strip r.dynamic_cc_field ≡ r.dynamic_cc_field)
      (key : strip r.suppression_key_field ≡ r.suppression_key_field) where
    source_back : existing_source db (natural r.data_source_id) ≡ some r.data_source_id
    unfolding existing_source has_source values_of
    source_back = rw h.source refl

    allowed :
        ((not (is_empty r.dynamic_recipient_field) && not (r.send_mode == SendMode.per_row))
          ≡ false)
        × ((not (has_recipient_text r.recipients) && is_empty r.dynamic_recipient_field) ≡ false)
        × ((r.suppress_duplicates && is_empty r.suppression_key_field) ≡ false)
        × ((r.suppress_duplicates && (r.suppression_window_hours == 0)) ≡ false)
    unfolding values_of
    allowed = ground (arith, h, send_mode_beq_iff r.send_mode SendMode.per_row)

    -- what `_validate_rule_form` gives of the page
    kept : CheckedForm
    kept = record {
      source_id = r.data_source_id;
      send_mode = r.send_mode;
      query_timeout_seconds = r.query_timeout_seconds;
      max_rows = r.max_rows;
    }

    validate-rule_to_form :
        validate_rule_form glot tools db (submitted_rule_form (rule_to_form r)) ≡ ok kept
    unfolding validate_rule_form submitted_rule_form rule_to_form hours values_of kept
    validate-rule_to_form =
        let (a, b, c, d) = allowed in
        rw
          (
            limits_back r.query_timeout_seconds r.max_rows h.timeout_low h.timeout_high h.rows_low
                h.rows_high,
            h.query,
            mode_back r.send_mode,
            to,
            to,
            a,
            b,
            h.cron,
            reads r.data_source_id,
            source_back,
            is_checked-on_or_empty r.suppress_duplicates,
            key,
            key,
            c,
            d,
          )
          refl

    form_values-rule_to_form : form_values (rule_to_form r) kept r.notes ≡ values_of r
    unfolding rule_to_form form_values values_of hours kept
    form_values-rule_to_form =
        rw
          (
            is_checked-on_or_empty r.enabled,
            is_checked-on_or_empty r.suppress_duplicates,
            to,
            cc_to,
            key,
          )
          refl

    form_values-rule_to_copy_form :
        form_values (rule_to_copy_form r) kept []
        ≡ record (values_of r) { name = r.name ++ codes " 副本"; enabled = true; notes = [] }
    unfolding rule_to_copy_form form_values values_of hours kept is_checked
    form_values-rule_to_copy_form =
        rw (is_checked-on_or_empty r.suppress_duplicates, to, cc_to, key) refl

    -- If a rule can be run, three of its fields have no outer blanks, and reading a number that was
    -- written gives it back, then the page for editing it, sent back as it is, passes the check and
    -- sets every column to what it was; and the page for copying it passes too, and sets the columns
    -- of the new rule to those of the old one but for the name, which is marked, the flag that it is
    -- enabled, which is set, and the notes, which are empty.
    pub rule_to_form-values_of :
        (c : CheckedForm) × (validate_rule_form glot tools db (submitted_rule_form (rule_to_form r))
          ≡ ok c)
        × (form_values (rule_to_form r) c r.notes ≡ values_of r)
        × (validate_rule_form glot tools db (submitted_rule_form (rule_to_copy_form r)) ≡ ok c)
        × (form_values (rule_to_copy_form r) c []
            ≡ record (values_of r) { name = r.name ++ codes " 副本"; enabled = true; notes = [] })
    unfolding rule_to_copy_form submitted_rule_form validate_rule_form
    rule_to_form-values_of = (
      kept, validate-rule_to_form, form_values-rule_to_form, validate-rule_to_form,
      form_values-rule_to_copy_form,
    )
