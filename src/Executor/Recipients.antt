-- ===== src/Executor/Recipients.antt =====
-- The messages that `_build_messages` makes.
use early_warning_system.Prelude.{
  suc, ◌≡◌, ◌≢◌, refl, List, [], ◌∷◌, Text, All, length, is_empty, if◌then◌else◌, ◌==◌, ok,
  Result-cases, ok-injective, subst, Bool-cases, inl, inr, ap,
}
use early_warning_system.Models.{AlertRule, SendMode, send_mode_eq}
use early_warning_system.Mailer.{EmailMessage}
use early_warning_system.TemplateRenderer.{Row, Context, Renderer, render_summary, render_per_row}
use early_warning_system.Executor.{
  row_recipients, or_list, summary_messages, row_message, row_messages, build_messages,
}

-- Somebody gets the message.
abbrev pub IsAddressed : EmailMessage → Type 0
IsAddressed m = m.recipients ≢ []

module _ (jinja : Renderer) (rule : AlertRule) where
  row_message-IsAddressed :
      (fixed fixed_cc : List Text) (row : Row) (context : Context) (m : EmailMessage)
      → row_message jinja rule fixed fixed_cc row context ≡ ok m
      → IsAddressed m
  unfolding row_message
  row_message-IsAddressed fixed fixed_cc row context m h =
      let recipients = or_list (row_recipients row rule.dynamic_recipient_field) fixed in
      elim (Result-cases
        (render_per_row jinja rule.subject_template rule.body_template row context)) [
          | inr (e, failed) ↦ cc (rw (failed, row_message) at h)
          | inl (rendered, made) ↦ elim (Bool-cases (is_empty recipients)) [
            | inl nobody ↦ cc (rw (made, nobody, row_message) at h)
            | inr somebody ↦
                subst IsAddressed (ok-injective (rw (made, somebody, row_message) at h))
                  (λ e. cc (somebody, ap is_empty e))
          ]
        ]

  row_messages-IsAddressed :
      (fixed fixed_cc : List Text) (rows : List Row) (context : Context) (ms : List EmailMessage)
      → row_messages jinja rule fixed fixed_cc rows context ≡ ok ms
      → All IsAddressed ms × (length ms ≡ length rows)
  unfolding row_messages
  row_messages-IsAddressed fixed fixed_cc [] context ms h =
      subst (λ l. All IsAddressed l × (length l ≡ 0)) (ok-injective h) (tt, refl)
  row_messages-IsAddressed fixed fixed_cc (row ∷ rows) context ms h =
      elim (Result-cases (row_message jinja rule fixed fixed_cc row context)) [
        | inr (e, failed) ↦ cc (rw (failed, row_messages) at h)
        | inl (m, made) ↦
            elim (Result-cases (row_messages jinja rule fixed fixed_cc rows context)) [
              | inr (e, failed) ↦ cc (rw (made, failed, row_messages) at h)
              | inl (rest, later) ↦
                  let first = row_message-IsAddressed fixed fixed_cc row context m made in
                  let more = row_messages-IsAddressed fixed fixed_cc rows context rest later in
                  subst (λ l. All IsAddressed l × (length l ≡ suc (length rows)))
                    (ok-injective (rw (made, later, row_messages) at h))
                    ((first, more.0), ap suc more.1)
            ]
      ]

  summary_messages-IsAddressed :
      (recipients cc_list : List Text) (rows : List Row) (context : Context)
      (ms : List EmailMessage)
      → summary_messages jinja rule recipients cc_list rows context ≡ ok ms
      → All IsAddressed ms × (length ms ≡ 1)
  unfolding summary_messages
  summary_messages-IsAddressed recipients cc_list rows context ms h =
      elim (Bool-cases (is_empty recipients)) [
        | inl nobody ↦ cc (rw (nobody, summary_messages) at h)
        | inr somebody ↦
            elim (Result-cases
              (render_summary jinja rule.subject_template rule.body_template rows context)) [
                | inr (e, failed) ↦ cc (rw (somebody, failed, summary_messages) at h)
                | inl (rendered, made) ↦
                    subst (λ l. All IsAddressed l × (length l ≡ 1))
                      (ok-injective (rw (somebody, made, summary_messages) at h))
                      (((λ e. cc (somebody, ap is_empty e)), tt), refl)
              ]
      ]

  -- Every message that is built has a recipient. In summary mode there is one message, in the mode
  -- for each row there are as many as rows.
  pub build_messages-IsAddressed :
      (rows : List Row) (ms : List EmailMessage)
      → build_messages jinja rule rows ≡ ok ms
      → All IsAddressed ms
        × (length ms ≡ (if rule.send_mode == SendMode.summary then 1 else length rows))
  unfolding build_messages
  build_messages-IsAddressed rows ms h = elim (Bool-cases (rule.send_mode == SendMode.summary)) [
    | inl one ↦ rw one (summary_messages-IsAddressed _ _ rows _ ms (rw (one, build_messages) at h))
    | inr each ↦ rw each (row_messages-IsAddressed _ _ rows _ ms (rw (each, build_messages) at h))
  ]
