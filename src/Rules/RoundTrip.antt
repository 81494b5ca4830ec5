-- ===== src/Rules/RoundTrip.antt =====
-- app/routes.py: the export of the rules, given to the import.
use early_warning_system.Prelude.{
  zero, Option, some, true, ◌++◌, take, sym, ◌∙◌, ℕ, suc, ◌≡◌, ◌≤◌, refl, false, List, [], ◌∷◌,
  Text, map, length, ap, All, arith, nat_eq, text_eq, ok, ltb,
}
use mathlib.Core.List.{append-nil, append_assoc}
use early_warning_system.Models.{DateTime, send_mode_eq, AlertRule}
use early_warning_system.Outside.{Outside}
use early_warning_system.Database.{Db}
use early_warning_system.SqlValidator.{SqlGlot}
use early_warning_system.Rules.Values.{Json, object, get_field, items, array_of, equals_one}
use early_warning_system.Rules.{RuleTools, RuleValues, values_of, new_rule}
use early_warning_system.Rules.Import.{
  index_sources, build_imported_value, build_from, build_list, is_version_one, build_imported_rules,
  max_imported_rules, max_rule_import_bytes,
}
use early_warning_system.Rules.Transfer.{
  exported_rule, active_rules, rule_export_payload, add_rules, store_imported, import_payload,
  import_rules_json, read_bounded, imported,
}
use early_warning_system.Rules.Exportable.{IsExportable}
use early_warning_system.Rules.Exportable.Entry.{build-exported_rule}

module _ (glot : SqlGlot) (tools : RuleTools) (db : Db) where
  items-array_of : (js : List Json) → items (array_of js) ≡ js
  unfolding items array_of
  items-array_of [] = refl
  items-array_of (j ∷ js) = ap (λ rest. j ∷ rest) (items-array_of js)

  build-exported_rules :
      (index : ℕ) (rules : List AlertRule)
      → All (IsExportable glot tools db) rules
      → build_from glot tools
          (index_sources db.data_sources [])
          index
          (map (λ r. object (exported_rule db r)) rules)
        ≡ ok (map values_of rules)
  unfolding build_from build_imported_value
  build-exported_rules index [] h = refl
  build-exported_rules index (r ∷ rules) h =
      rw (build-exported_rule glot tools db index r h.0, build-exported_rules (suc index) rules h.1)
        refl

  length-exported :
      (rules : List AlertRule)
      → length (map (λ r. object (exported_rule db r)) rules) ≡ length rules
  length-exported [] = refl
  length-exported (r ∷ rules) = ap suc (length-exported rules)

  build_imported_rules-rule_export_payload :
      (newest_first : List AlertRule → List AlertRule) (exported_at : Text)
      → length (active_rules newest_first db) ≤ 500
      → All (IsExportable glot tools db) (active_rules newest_first db)
      → build_imported_rules glot tools db (rule_export_payload newest_first exported_at db)
        ≡ ok (map values_of (active_rules newest_first db))
  unfolding rule_export_payload build_imported_rules is_version_one equals_one get_field build_list
  build_imported_rules-rule_export_payload newest_first exported_at few h =
      let rules = active_rules newest_first db in
      let small : ltb max_imported_rules (length rules) ≡ false = ground (arith, few) in
      rw
        (
          items-array_of (map (λ r. object (exported_rule db r)) rules),
          length-exported rules,
          small,
        )
        (build-exported_rules 1 rules h)

take-short : (n : ℕ) (l : List ℕ) → length l ≤ n → take n l ≡ l
take-short zero [] h = refl
take-short (suc n) [] h = refl
take-short zero (x ∷ l) h = absurd (omega (arith, h))
take-short (suc n) (x ∷ l) h = ap (λ t. x ∷ t) (take-short n l (omega (arith, h)))

module _ {W : Type 0} (out : Outside W) (tools : RuleTools) where
  new_rule-values_of :
      (id : ℕ) (v : RuleValues) (created_at updated_at : DateTime)
      → values_of (new_rule id v created_at updated_at) ≡ v
  unfolding new_rule values_of
  new_rule-values_of id v created_at updated_at = refl

  values_of-append :
      (rules : List AlertRule) (r : AlertRule)
      → map values_of (rules ++ r ∷ []) ≡ map values_of rules ++ values_of r ∷ []
  values_of-append [] r = refl
  values_of-append (s ∷ rules) r = ap (λ vs. values_of s ∷ vs) (values_of-append rules r)

  length-values_of : (rules : List AlertRule) → length (map values_of rules) ≡ length rules
  length-values_of [] = refl
  length-values_of (r ∷ rules) = ap suc (length-values_of rules)

  add_rules-values_of :
      (values : List RuleValues) (rules : List AlertRule) (w : W)
      → map values_of (add_rules out tools values rules w).0 ≡ map values_of rules ++ values
  unfolding add_rules
  add_rules-values_of [] rules w = sym (append-nil (map values_of rules))
  add_rules-values_of (v ∷ rest) rules w =
      add_rules-values_of rest _ _
      ∙ ap (λ vs. vs ++ rest)
          (values_of-append rules _
            ∙ ap (λ u. map values_of rules ++ u ∷ []) (new_rule-values_of _ v _ _))
      ∙ append_assoc (map values_of rules) (v ∷ []) rest

  -- If at most 500 rules are exported, each of them can be run and has a positive window, texts
  -- without outer blanks and a data source that its name leads to, and `json.loads` reads a file of
  -- at most 1 MiB as the exported value, then an import of that file, with a database that commits,
  -- reports the number of the rules and appends them in their order, each with the columns that it
  -- was exported with; only the ids and the times are new.
  pub import_rules_json-rule_export_payload :
      (load : List ℕ → Option Json) (file : List ℕ) (newest_first : List AlertRule → List AlertRule)
      (exported_at : Text) (db : Db) (w : W)
      → length file ≤ 1048576
      → load file ≡ some (rule_export_payload newest_first exported_at db)
      → length (active_rules newest_first db) ≤ 500
      → All (IsExportable out.glot tools db) (active_rules newest_first db)
      → ((v : W) → (out.commit v).0 ≡ true)
      → ((import_rules_json out tools load file db w).0
          ≡ ok (imported (length (active_rules newest_first db))))
        × (map values_of (import_rules_json out tools load file db w).1.rules
            ≡ map values_of db.rules ++ map values_of (active_rules newest_first db))
  unfolding import_rules_json read_bounded import_payload store_imported
  import_rules_json-rule_export_payload load file newest_first exported_at db w small read few h
        commits =
      let short : ltb max_rule_import_bytes (length file) ≡ false = ground (arith, small) in
      let whole = take-short (suc max_rule_import_bytes) file (omega (arith, small)) in
      let built =
        build_imported_rules-rule_export_payload out.glot tools db newest_first exported_at few h in
      rw
        (
          import_rules_json,
          whole,
          short,
          read,
          import_payload,
          built,
          store_imported,
          commits,
          length-values_of (active_rules newest_first db),
        )
        (refl, add_rules-values_of (map values_of (active_rules newest_first db)) db.rules w)
