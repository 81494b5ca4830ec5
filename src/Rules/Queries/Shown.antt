-- ===== src/Rules/Queries/Shown.antt =====
-- app/routes.py: what the check and the preview of a query send, and what they show.
use early_warning_system.Prelude.{
  ◌≡◌, ◌≤◌, refl, Option, List, [], ◌∷◌, Text, length, raise, Result-cases, Bool-cases, inl, inr,
  subst, is_empty, codes,
}
use early_warning_system.Errors.{Error}
use early_warning_system.Database.{Db}
use early_warning_system.Outside.{Outside}
use early_warning_system.TemplateRenderer.{Row}
use early_warning_system.SqlValidator.{validate_select_sql}
use early_warning_system.SqlValidator.ReadOnly.{Passed}
use early_warning_system.SqlClient.{query}
use early_warning_system.SqlClient.Limits.{query-Passed}
use early_warning_system.ExecutionService.Attempt.{build_connection}
use early_warning_system.Settings.{Integer, parse_bounded_int}
use early_warning_system.Rules.Queries.{
  accepted_or_error, shown, shown_rows, source_for_sql, with_client, validate_rule_sql,
  preview_arguments, preview_rule_sql,
}

module _ {W : Type 0} (out : Outside W) (parse_int : Text → Option Integer) where
  shown-rows :
      (found rows : List Row) (message : Text) (columns : List Text)
      → shown_rows found ≡ shown message columns rows
      → found ≡ rows
  unfolding shown_rows
  shown-rows [] rows message columns h = cc
  shown-rows (row ∷ rest) rows message columns h = cc

  -- A preview that shows rows has passed the validator, and shows at most five.
  pub preview_rule_sql-Passed :
      (id sql timeout : Text) (db : Db) (w : W) (message : Text) (columns : List Text)
      (rows : List Row)
      → (preview_rule_sql out parse_int id sql timeout db w).0 ≡ shown message columns rows
      → Passed out.glot sql × (length rows ≤ 5)
  unfolding preview_rule_sql with_client
  preview_rule_sql-Passed id sql timeout db w message columns rows h =
      elim (Result-cases (preview_arguments out parse_int db id sql timeout)) [
        | inr (error, wrong) ↦ cc (rw (wrong, preview_rule_sql) at h)
        | inl ((t, source), right) ↦ elim (Result-cases (out.decrypt source.encrypted_password)) [
          | inr (e, locked) ↦ cc (rw (right, locked, preview_rule_sql, with_client) at h)
          | inl (password, opened) ↦
              let c = build_connection source password in
              elim (Result-cases (query out.glot out.run c sql t 5 w).0) [
                | inr (e, failed) ↦
                    cc (rw (right, opened, failed, preview_rule_sql, with_client) at h)
                | inl (found, answered) ↦
                    let k = rw (right, opened, answered, preview_rule_sql, with_client) at h in
                    let same = shown-rows found rows message columns k in
                    subst (λ r. Passed out.glot sql × (length r ≤ 5)) same
                      (query-Passed out.glot out.run c sql t 5 w found answered)
              ]
        ]
      ]

  source_for_sql-refused :
      (id sql : Text) (db : Db) (e : Error)
      → validate_select_sql out.glot sql ≡ raise e
      → (m : Text) × (source_for_sql out parse_int db id sql ≡ raise m)
  unfolding source_for_sql
  source_for_sql-refused id sql db e h = elim (Bool-cases (is_empty id)) [
    | inl unchosen ↦ rw unchosen (_, refl)
    | inr chosen ↦ rw (chosen, h) (_, refl)
  ]

  preview_arguments-refused :
      (id sql timeout : Text) (db : Db) (e : Error)
      → validate_select_sql out.glot sql ≡ raise e
      → (m : Text) × (preview_arguments out parse_int db id sql timeout ≡ raise m)
  unfolding preview_arguments
  preview_arguments-refused id sql timeout db e h =
      let (m, wrong) = source_for_sql-refused id sql db e h in
      elim (Result-cases
        (accepted_or_error (parse_bounded_int parse_int timeout (codes "查询超时") 1 600))) [
          | inr (error, unparsed) ↦ rw unparsed (error, refl)
          | inl (t, parsed) ↦ rw (parsed, wrong) (m, refl)
        ]

  -- If the validator refuses a text, then its check and its preview are refused without a call of the
  -- server: the outside world stays as it was.
  pub rule_sql-refused :
      (id sql timeout : Text) (db : Db) (w : W) (e : Error)
      → validate_select_sql out.glot sql ≡ raise e
      → ((validate_rule_sql out parse_int id sql db w).1 ≡ w)
        × ((preview_rule_sql out parse_int id sql timeout db w).1 ≡ w)
  unfolding validate_rule_sql preview_rule_sql
  rule_sql-refused id sql timeout db w e h =
      let (m, checked) = source_for_sql-refused id sql db e h in
      let (n, previewed) = preview_arguments-refused id sql timeout db e h in
      (rw (checked, validate_rule_sql) refl, rw (previewed, preview_rule_sql) refl)
