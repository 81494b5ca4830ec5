-- ===== src/Rules/Addressed.antt =====
-- The check of a rule's recipients (app/routes.py) against the executor's reading of them
-- (app/executor.py).
use early_warning_system.Prelude.{
  ℕ, ◌≡◌, refl, ◌∙◌, ap, false, not, ◌||◌, List, [], ◌∷◌, Text, codes, any, map, filter, split,
  replace, strip, is_empty, length, arith, ◌==◌, nat_eq, Bool-cases, eq_refl, inl, inr, ok, ◌>>=◌,
}
use early_warning_system.Models.{SendMode, send_mode_eq, AlertRule, SqlDataSource}
use early_warning_system.SqlValidator.{SqlGlot}
use early_warning_system.TemplateRenderer.{Renderer, Row, text, number, row_list, render_summary}
use early_warning_system.Executor.{parse_recipients, message_of, summary_messages, build_messages}
use early_warning_system.Rules.{RuleTools, values_of, has_recipient_text}
use early_warning_system.Rules.Sound.{IsRunnable}

-- Replacing a separator by another and splitting at that one is splitting at both.
split-replace :
    (old sep : ℕ) (s : Text)
    → split (λ c. c == sep) (replace old sep s) ≡ split (λ c. (c == sep) || (c == old)) s
unfolding split replace
split-replace old sep [] = refl
split-replace old sep (c ∷ s) = elim (Bool-cases (c == old)) [
  | inl replaced ↦
      rw (replaced, split-replace old sep s) (ground (arith, eq_refl sep, Bool-cases (c == sep)))
  | inr kept ↦ rw (kept, split-replace old sep s) (ground (arith, Bool-cases (c == sep)))
]

any-filter :
    (parts : List Text)
    → any (λ r. not (is_empty (strip r))) parts
      ≡ not (is_empty (filter (λ r. not (is_empty r)) (map strip parts)))
any-filter [] = refl
any-filter (r ∷ parts) = elim (Bool-cases (is_empty (strip r))) [
  | inl blank ↦ rw blank (any-filter parts)
  | inr filled ↦ rw filled refl
]

-- The test of a recipient text that forms and imported files go through finds a recipient in it
-- exactly when the executor's parser lists one, whatever the text is.
pub has_recipient_text-parse_recipients :
    (value : Text) → has_recipient_text value ≡ not (is_empty (parse_recipients value))
unfolding has_recipient_text parse_recipients
has_recipient_text-parse_recipients value =
    ap (any (λ r. not (is_empty (strip r)))) (split-replace b';' b',' value)
    ∙ any-filter (split (λ c. (c == b',') || (c == b';')) value)

runnable-filled :
    (glot : SqlGlot) (tools : RuleTools) (sources : List SqlDataSource) (rule : AlertRule)
    → IsRunnable glot tools sources (values_of rule)
    → rule.send_mode ≡ SendMode.summary
    → is_empty (parse_recipients rule.recipients) ≡ false
unfolding values_of
runnable-filled glot tools sources rule h mode =
    ground (arith, h, mode, has_recipient_text-parse_recipients rule.recipients)

-- A rule in summary mode that can be run never fails for the want of a recipient: its one message is
-- built, to the recipients of its text, exactly when its templates render.
pub build_messages-runnable :
    (glot : SqlGlot) (tools : RuleTools) (sources : List SqlDataSource) (jinja : Renderer)
    (rule : AlertRule) (rows : List Row)
    → IsRunnable glot tools sources (values_of rule)
    → rule.send_mode ≡ SendMode.summary
    → build_messages jinja rule rows ≡ (
        render_summary jinja rule.subject_template rule.body_template rows (
          (codes "rule_name", text rule.name)
          ∷ (codes "rows", row_list rows)
          ∷ (codes "row_count", number (length rows))
          ∷ [])
        >>= λ rendered. ok (
            message_of
              (parse_recipients rule.recipients)
              (parse_recipients rule.cc_recipients)
              rendered
            ∷ []))
unfolding build_messages summary_messages
build_messages-runnable glot tools sources jinja rule rows h mode =
    rw (mode, build_messages, runnable-filled glot tools sources rule h mode, summary_messages) refl
