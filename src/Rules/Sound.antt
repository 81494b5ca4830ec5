-- ===== src/Rules/Sound.antt =====
-- When a rule can be run: its query passes the validator, its cron expression is one, its data source
-- is stored, its limits are in their bounds, and its fields agree with one another.
pub mod Imported
pub mod Actions
mod RulePages
mod SourcePages
pub mod Preserved
use early_warning_system.Prelude.{
  ℕ, ◌≡◌, ◌≤◌, ◌<◌, refl, Bool, true, false, not, ◌&&◌, ◌||◌, Option, none, some, List, [], ◌∷◌,
  ◌++◌, Text, is_empty, strip, strip-strip, is_some, find, All, update_where, arith, ◌==◌, nat_eq,
  option_eq, text_eq, Result, ok, raise, Result-cases, >>=-eq-ok, Bool-cases, Option-cases, inl,
  inr, ◌⊎◌, ltb, leb, if◌then◌else◌, codes,
}
use early_warning_system.Models.{
  SendMode, send_mode_eq, send_mode_beq_iff, AlertRule, SqlDataSource,
}
use early_warning_system.Errors.{Error}
use early_warning_system.Database.{Db, get_data_source}
use early_warning_system.SqlValidator.{SqlGlot, validate_select_sql}
use early_warning_system.Settings.{
  Integer, negative, natural, Parsed, accepted, rejected, bounded, validate_bounded_int,
  parse_bounded_int, parse_both, ParsedPair, both, neither, parse_rule_limits, is_checked,
}
use early_warning_system.Rules.{RuleTools, RuleForm, RuleValues, has_recipient_text}
use early_warning_system.Rules.Validation.{
  CheckedForm, refuse_if, or_refuse, limits_or_error, sql_or_error, existing_source, hours,
  validate_rule_form, submitted_rule_form, form_values,
}

-- whether a source is stored under a key
unfoldable pub has_source : List SqlDataSource → ℕ → Bool
has_source sources id = is_some (find (λ s. s.id == some id) sources)

pub record IsRunnable (glot : SqlGlot) (tools : RuleTools) (sources : List SqlDataSource)
    (v : RuleValues) : Type 0 where
  pub query : validate_select_sql glot v.sql_text ≡ ok tt
  pub cron : tools.is_cron v.cron_expression ≡ true
  pub source : has_source sources v.data_source_id ≡ true
  pub timeout_low : 1 ≤ v.query_timeout_seconds
  pub timeout_high : v.query_timeout_seconds ≤ 600
  pub rows_low : 1 ≤ v.max_rows
  pub rows_high : v.max_rows ≤ 5000
  pub addressed :
      (has_recipient_text v.recipients || not (is_empty v.dynamic_recipient_field)) ≡ true
  pub per_row : is_empty v.dynamic_recipient_field ≡ false → v.send_mode ≡ SendMode.per_row
  pub keyed : v.suppress_duplicates ≡ true → is_empty v.suppression_key_field ≡ false
  pub window : v.suppress_duplicates ≡ true → 0 < v.suppression_window_hours

parse_bounded_int-bounds :
    (parse_int : Text → Option Integer) (value label : Text) (low high n : ℕ)
    → parse_bounded_int parse_int value label low high ≡ accepted n
    → (low ≤ n) × (n ≤ high)
unfolding parse_bounded_int bounded validate_bounded_int
parse_bounded_int-bounds parse_int value label low high n h = ground arith

parse_both-eq-both :
    (p q : Parsed) (n m : ℕ) → parse_both p q ≡ both n m → (p ≡ accepted n) × (q ≡ accepted m)
unfolding parse_both
parse_both-eq-both p q n m h = ground arith

parse_rule_limits-bounds :
    (parse_int : Text → Option Integer) (t r : Text) (n m : ℕ)
    → parse_rule_limits parse_int t r ≡ both n m
    → (1 ≤ n) × (n ≤ 600) × (1 ≤ m) × (m ≤ 5000)
unfolding parse_rule_limits
parse_rule_limits-bounds parse_int t r n m h =
    let (p, q) = parse_both-eq-both _ _ n m h in
    let (a, b) = parse_bounded_int-bounds parse_int t (codes "查询超时") 1 600 n p in
    let (c, d) = parse_bounded_int-bounds parse_int r (codes "最大行数") 1 5000 m q in (a, b, c, d)

existing_source-stored :
    (db : Db) (i : Integer) (id : ℕ)
    → existing_source db i ≡ some id
    → has_source db.data_sources id ≡ true
unfolding existing_source has_source
existing_source-stored db negative id h = cc
existing_source-stored db (natural n) id h = elim (Bool-cases (is_some (get_data_source db n))) [
  | inl there ↦ let e : some n ≡ some id = rw there at h in ground (arith, e, there)
  | inr gone ↦ cc (rw gone at h)
]

module _ (glot : SqlGlot) (tools : RuleTools) (db : Db) (form : RuleForm) where
  validated-source :
      (c : CheckedForm)
      → validate_rule_form glot tools db (submitted_rule_form form) ≡ ok c
      → has_source db.data_sources c.source_id ≡ true
  unfolding validate_rule_form submitted_rule_form
  validated-source c h = elim (Option-cases (tools.python.parse_int form.data_source_id)) [
    | inl unparsed ↦ absurd (ground arith)
    | inr (i, parsed) ↦ ground (arith, existing_source-stored db i c.source_id)
  ]

  pub validate_rule_form-IsRunnable :
      (c : CheckedForm) (notes : Text)
      → validate_rule_form glot tools db (submitted_rule_form form) ≡ ok c
      → IsRunnable glot tools db.data_sources (form_values form c notes)
  unfolding validate_rule_form submitted_rule_form form_values
  validate_rule_form-IsRunnable c notes h = ground (
    arith,
    strip-strip form.dynamic_recipient_field,
    strip-strip form.suppression_key_field,
    parse_rule_limits-bounds tools.python.parse_int form.query_timeout_seconds form.max_rows
        c.query_timeout_seconds c.max_rows,
    send_mode_beq_iff c.send_mode SendMode.per_row,
    validated-source c h,
  )
