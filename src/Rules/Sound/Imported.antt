-- ===== src/Rules/Sound/Imported.antt =====
-- Whether a rule can be run that the import builds of a dictionary.
use early_warning_system.Prelude.{
  ℕ, suc, ◌≡◌, ◌≤◌, ◌<◌, refl, true, Option, none, some, List, [], ◌∷◌, Text, get, put, get-put,
  subst, All, arith, nat_eq, option_eq, option_beq_iff, text_eq, ok, Result-cases, ok-injective,
  Bool-cases, inl, inr, ltb, codes, length,
}
use early_warning_system.Models.{SendMode, send_mode_eq, send_mode_beq_iff, SqlDataSource}
use early_warning_system.Database.{Db}
use early_warning_system.SqlValidator.{SqlGlot}
use early_warning_system.Settings.{natural, validate_bounded_int}
use early_warning_system.Rules.{RuleTools, RuleValues}
use early_warning_system.Rules.Values.{
  Json, JsonDict, object, null, boolean, integer, real, text, int_of, get_field, get_field_or,
  IntResult, array, items,
}
use early_warning_system.Rules.Import.{
  required_import_text, positive_int, positive_import_int, bounded_natural, bounded_int,
  bounded_import_int, index_sources, id_of_source, build_imported_rule, build_imported_value,
  build_from, build_list, build_imported_rules, is_version_one, max_imported_rules,
}
use early_warning_system.Rules.Sound.{has_source, IsRunnable}

-- the key of a row leads to a stored row
abbrev IsKeyIn : List SqlDataSource → SqlDataSource → Type 0
IsKeyIn sources s = (id : ℕ) → s.id ≡ some id → has_source sources id ≡ true

has_source-cons :
    (s : SqlDataSource) (sources : List SqlDataSource) (id : ℕ)
    → has_source sources id ≡ true
    → has_source (s ∷ sources) id ≡ true
unfolding has_source
has_source-cons s sources id h = ground arith

keys_weaken :
    (s : SqlDataSource) (sources rest : List SqlDataSource)
    → All (IsKeyIn sources) rest
    → All (IsKeyIn (s ∷ sources)) rest
keys_weaken s sources [] h = tt
keys_weaken s sources (t ∷ rest) h =
    ((λ id e. has_source-cons s sources id (h.0 id e)), keys_weaken s sources rest h.1)

key_here : (s : SqlDataSource) (sources : List SqlDataSource) → IsKeyIn (s ∷ sources) s
unfolding has_source
key_here s sources id e = ground (arith, option_beq_iff s.id (some id))

keys_stored : (sources : List SqlDataSource) → All (IsKeyIn sources) sources
keys_stored [] = tt
keys_stored (s ∷ sources) =
    (key_here s sources, keys_weaken s sources sources (keys_stored sources))

-- every entry of a dictionary leads to a stored row
abbrev Leads : List SqlDataSource → List (Text × SqlDataSource) → Type 0
Leads sources d =
    (name : Text) (id : ℕ) → id_of_source (get name d) ≡ some id → has_source sources id ≡ true

Leads-put :
    (sources : List SqlDataSource) (s : SqlDataSource) (d : List (Text × SqlDataSource))
    → IsKeyIn sources s
    → Leads sources d
    → Leads sources (put s.name s d)
unfolding id_of_source
Leads-put sources s d key leads name id e =
    ground (arith, get-put s.name name s d, key id, leads name id)

index_sources-Leads :
    (sources rest : List SqlDataSource) (d : List (Text × SqlDataSource))
    → All (IsKeyIn sources) rest
    → Leads sources d
    → Leads sources (index_sources rest d)
unfolding index_sources
index_sources-Leads sources [] d keys leads = leads
index_sources-Leads sources (s ∷ rest) d keys leads =
    index_sources-Leads sources rest (put s.name s d) keys.1 (Leads-put sources s d keys.0 leads)

Leads-empty : (sources : List SqlDataSource) → Leads sources []
unfolding id_of_source
Leads-empty sources name id e = cc

positive_int-pos :
    (index : ℕ) (label : Text) (r : IntResult) (n : ℕ) → positive_int index label r ≡ ok n → 0 < n
unfolding positive_int
positive_int-pos index label r n h = ground arith

bounded_int-bounds :
    (index : ℕ) (label : Text) (high : ℕ) (r : IntResult) (n : ℕ)
    → bounded_int index label high r ≡ ok n
    → (1 ≤ n) × (n ≤ high)
unfolding bounded_int bounded_natural validate_bounded_int
bounded_int-bounds index label high r n h = ground arith

module _ (glot : SqlGlot) (tools : RuleTools) (sources : List SqlDataSource)
    (d : List (Text × SqlDataSource)) (leads : Leads sources d) where
  imported-source :
      (index : ℕ) (dict : JsonDict) (v : RuleValues)
      → build_imported_rule glot tools d index dict ≡ ok v
      → has_source sources v.data_source_id ≡ true
  unfolding build_imported_rule
  imported-source index dict v h =
      elim (Result-cases
        (required_import_text tools.python dict (codes "data_source_name") index (codes "数据源名称"))) [
          | inr (e, failed) ↦ absurd (ground arith)
          | inl (name, given) ↦ ground (arith, leads name v.data_source_id)
        ]

  build_imported_rule-IsRunnable :
      (index : ℕ) (dict : JsonDict) (v : RuleValues)
      → build_imported_rule glot tools d index dict ≡ ok v
      → IsRunnable glot tools sources v
  unfolding build_imported_rule positive_import_int bounded_import_int
  build_imported_rule-IsRunnable index dict v h = ground (
    arith,
    imported-source index dict v h,
    send_mode_beq_iff v.send_mode SendMode.per_row,
    bounded_int-bounds index (codes "查询超时时间") 600
        (int_of tools.python
          (get_field_or (codes "query_timeout_seconds") (integer (natural 30)) dict))
        v.query_timeout_seconds,
    bounded_int-bounds index (codes "最大返回行数") 5000
        (int_of tools.python (get_field_or (codes "max_rows") (integer (natural 500)) dict))
        v.max_rows,
    positive_int-pos index (codes "重复抑制窗口")
        (int_of tools.python
          (get_field_or (codes "suppression_window_hours") (integer (natural 24)) dict))
        v.suppression_window_hours,
  )

  build_imported_value-IsRunnable :
      (index : ℕ) (j : Json) (v : RuleValues)
      → build_imported_value glot tools d index j ≡ ok v
      → IsRunnable glot tools sources v
  unfolding build_imported_value
  build_imported_value-IsRunnable index (object dict) v h =
      build_imported_rule-IsRunnable index dict v h
  build_imported_value-IsRunnable index null v h = cc
  build_imported_value-IsRunnable index (boolean b) v h = cc
  build_imported_value-IsRunnable index (integer i) v h = cc
  build_imported_value-IsRunnable index (real r) v h = cc
  build_imported_value-IsRunnable index (text t) v h = cc
  build_imported_value-IsRunnable index (array a) v h = cc

  build_from-IsRunnable :
      (index : ℕ) (js : List Json) (vs : List RuleValues)
      → build_from glot tools d index js ≡ ok vs
      → All (IsRunnable glot tools sources) vs × (length vs ≡ length js)
  unfolding build_from
  build_from-IsRunnable index [] vs h =
      subst (λ l. All (IsRunnable glot tools sources) l × (length l ≡ 0)) (ok-injective h)
        (tt, refl)
  build_from-IsRunnable index (j ∷ js) vs h =
      elim (Result-cases (build_imported_value glot tools d index j)) [
        | inr (e, failed) ↦ cc (rw (failed, build_from) at h)
        | inl (v, made) ↦ elim (Result-cases (build_from glot tools d (suc index) js)) [
          | inr (e, failed) ↦ cc (rw (made, failed, build_from) at h)
          | inl (rest, built) ↦
              let (good, long) = build_from-IsRunnable (suc index) js rest built in
              subst (λ l. All (IsRunnable glot tools sources) l × (length l ≡ suc (length js)))
                (ok-injective (rw (made, built, build_from) at h))
                ((build_imported_value-IsRunnable index j v made, good), omega (arith, long))
        ]
      ]

module _ (glot : SqlGlot) (tools : RuleTools) (db : Db) where
  build_list-IsRunnable :
      (o : Option Json) (vs : List RuleValues)
      → build_list glot tools db o ≡ ok vs
      → All (IsRunnable glot tools db.data_sources) vs
  unfolding build_list
  build_list-IsRunnable (some (array a)) vs h =
      elim (Bool-cases (ltb max_imported_rules (length (items a)))) [
        | inl many ↦ cc (rw many at h)
        | inr few ↦
            (build_from-IsRunnable glot tools db.data_sources (index_sources db.data_sources [])
              (index_sources-Leads db.data_sources db.data_sources [] (keys_stored db.data_sources)
                (Leads-empty db.data_sources))
              1 (items a) vs (rw few at h)).0
      ]
  build_list-IsRunnable none vs h = cc
  build_list-IsRunnable (some null) vs h = cc
  build_list-IsRunnable (some (boolean b)) vs h = cc
  build_list-IsRunnable (some (integer i)) vs h = cc
  build_list-IsRunnable (some (real r)) vs h = cc
  build_list-IsRunnable (some (text t)) vs h = cc
  build_list-IsRunnable (some (object d)) vs h = cc

  pub build_imported_rules-IsRunnable :
      (payload : Json) (vs : List RuleValues)
      → build_imported_rules glot tools db payload ≡ ok vs
      → All (IsRunnable glot tools db.data_sources) vs
  unfolding build_imported_rules
  build_imported_rules-IsRunnable (object d) vs h =
      elim (Bool-cases (is_version_one glot tools (get_field (codes "version") d))) [
        | inl one ↦ build_list-IsRunnable (get_field (codes "rules") d) vs (rw one at h)
        | inr other ↦ cc (rw other at h)
      ]
  build_imported_rules-IsRunnable null vs h = cc
  build_imported_rules-IsRunnable (boolean b) vs h = cc
  build_imported_rules-IsRunnable (integer i) vs h = cc
  build_imported_rules-IsRunnable (real r) vs h = cc
  build_imported_rules-IsRunnable (text t) vs h = cc
  build_imported_rules-IsRunnable (array a) vs h = cc
