-- ===== src/ExecutionService/Suppression.antt =====
-- What `filter_rows` of `_build_suppression_filter` keeps of the queried rows.
use early_warning_system.Prelude.{
  ◌+◌, ◌≡◌, refl, sym, subst, ◌∙◌, eq_refl, length-append, Bool, true, false, ◌||◌, List, [], ◌∷◌,
  ◌++◌, Text, All, any, length, is_empty, arith, ◌==◌, text_eq, text_beq_iff, if◌then◌else◌,
  option_eq, Bool-cases, inl, inr,
}
use mathlib.Core.List.{append-nil, append_assoc}
use early_warning_system.Models.{DateTime, AlertRule, AlertSuppression}
use early_warning_system.TemplateRenderer.{Row}
use early_warning_system.ExecutionService.Attempt.{
  FilterState, row_suppression_key, is_recent, filter_row, filter_rows, no_keys,
}

abbrev pub has : Text → List Text → Bool
has key keys = any (λ k. k == key) keys

-- Each key is unlike those after it.
abbrev pub IsDistinct : List Text → Type 0
IsDistinct [] = Unit
IsDistinct (k ∷ keys) = (has k keys ≡ false) × IsDistinct keys

module _ (suppressions : List AlertSuppression) (rule : AlertRule) (cutoff : DateTime) where
  abbrev key_of : Row → Text
  key_of row = row_suppression_key row rule.suppression_key_field

  -- the keys of the rows that have one
  abbrev pub row_keys : List Row → List Text
  row_keys [] = []
  row_keys (row ∷ rows) =
      let rest = row_keys rows in if is_empty (key_of row) then rest else key_of row ∷ rest

  -- A row that has no key, whose key was stored lately, or whose key one of two lists has.
  abbrev pub IsCovered : List Text → List Text → Row → Type 0
  IsCovered seen keys row =
      (is_empty (key_of row)
        || (is_recent suppressions rule cutoff (key_of row)
            || (has (key_of row) seen || has (key_of row) keys)))
      ≡ true

  -- What a run from the keys `seen` keeps of the rows.
  pub record IsFiltered (s : FilterState) (rows kept : List Row) (s' : FilterState) : Type 0 where
    pub stored : s'.new_keys ≡ s.new_keys ++ row_keys kept
    pub fresh :
        All
          (λ k. (has k s.seen_in_run ≡ false) × (is_recent suppressions rule cutoff k ≡ false))
          (row_keys kept)
    pub distinct : IsDistinct (row_keys kept)
    pub complete : All (IsCovered s.seen_in_run (row_keys kept)) rows
    pub balanced : length kept + length s'.suppressed_keys ≡ length rows + length s.suppressed_keys

  keys_blank :
      (row : Row) (kept : List Row)
      → is_empty (key_of row) ≡ true
      → row_keys (row ∷ kept) ≡ row_keys kept
  keys_blank row kept blank = rw blank refl

  keys_keyed :
      (row : Row) (kept : List Row)
      → is_empty (key_of row) ≡ false
      → row_keys (row ∷ kept) ≡ key_of row ∷ row_keys kept
  keys_keyed row kept keyed = rw keyed refl

  keep_blank :
      (s s' : FilterState) (row : Row) (rows kept : List Row)
      → is_empty (key_of row) ≡ true
      → IsFiltered s rows kept s'
      → IsFiltered s (row ∷ rows) (row ∷ kept) s'
  keep_blank s s' row rows kept blank h = record {
    stored = rw blank h.stored;
    fresh = rw blank h.fresh;
    distinct = rw blank h.distinct;
    complete = (
      rw blank refl,
      subst (λ keys. All (IsCovered s.seen_in_run keys) rows) (sym (keys_blank row kept blank))
          h.complete,
    );
    balanced = omega (arith, h.balanced);
  }

  drop_seen :
      (s s' : FilterState) (row : Row) (rows kept : List Row)
      → (has (key_of row) s.seen_in_run || is_recent suppressions rule cutoff (key_of row)) ≡ true
      → IsFiltered
          (record s { suppressed_keys = s.suppressed_keys ++ key_of row ∷ [] })
          rows
          kept
          s'
      → IsFiltered s (row ∷ rows) kept s'
  drop_seen s s' row rows kept dropped h = record {
    stored = h.stored;
    fresh = h.fresh;
    distinct = h.distinct;
    complete = (ground (arith, dropped), h.complete);
    balanced = omega (arith, h.balanced, length-append s.suppressed_keys (key_of row ∷ []));
  }

  keys_fresh :
      (key : Text) (seen keys : List Text)
      → All
          (λ k. (has k (key ∷ seen) ≡ false) × (is_recent suppressions rule cutoff k ≡ false))
          keys
      → (has key keys ≡ false)
        × All (λ k. (has k seen ≡ false) × (is_recent suppressions rule cutoff k ≡ false)) keys
  keys_fresh key seen [] h = (refl, tt)
  keys_fresh key seen (k ∷ keys) h =
      let rest = keys_fresh key seen keys h.1 in
      (
        ground (arith, h.0.0, rest.0, text_beq_iff k key, text_beq_iff key k),
        ((ground (arith, h.0.0), h.0.1), rest.1),
      )

  rows_complete :
      (key : Text) (seen keys : List Text) (rows : List Row)
      → All (IsCovered (key ∷ seen) keys) rows
      → All (IsCovered seen (key ∷ keys)) rows
  rows_complete key seen keys [] h = tt
  rows_complete key seen keys (row ∷ rows) h =
      (ground (arith, h.0), rows_complete key seen keys rows h.1)

  keep_new :
      (s s' : FilterState) (row : Row) (rows kept : List Row)
      → is_empty (key_of row) ≡ false
      → (has (key_of row) s.seen_in_run || is_recent suppressions rule cutoff (key_of row)) ≡ false
      → IsFiltered
          (record s {
            seen_in_run = key_of row ∷ s.seen_in_run;
            new_keys = s.new_keys ++ key_of row ∷ [];
          })
          rows
          kept
          s'
      → IsFiltered s (row ∷ rows) (row ∷ kept) s'
  keep_new s s' row rows kept keyed new h =
      let rest = keys_fresh (key_of row) s.seen_in_run (row_keys kept) h.fresh in
      record {
        stored = rw keyed (h.stored ∙ append_assoc s.new_keys (key_of row ∷ []) (row_keys kept));
        fresh = rw keyed ((ground (arith, new), ground (arith, new)), rest.1);
        distinct = rw keyed (rest.0, h.distinct);
        complete =
            subst (λ keys. All (IsCovered s.seen_in_run keys) (row ∷ rows))
              (sym (keys_keyed row kept keyed))
              (
                ground (arith, eq_refl (key_of row)),
                rows_complete (key_of row) s.seen_in_run (row_keys kept) rows h.complete,
              );
        balanced = omega (arith, h.balanced);
      }

  filter_rows-IsFiltered_from :
      (s : FilterState) (rows : List Row)
      → IsFiltered s rows
          (filter_rows suppressions rule cutoff s rows).0
          (filter_rows suppressions rule cutoff s rows).1
  unfolding filter_rows filter_row
  filter_rows-IsFiltered_from s [] = record {
    stored = sym (append-nil s.new_keys);
    fresh = tt;
    distinct = tt;
    complete = tt;
    balanced = refl;
  }
  filter_rows-IsFiltered_from s (row ∷ rows) = elim (Bool-cases (is_empty (key_of row))) [
    | inl blank ↦
        rw (blank, filter_rows, filter_row)
          (keep_blank s _ row rows _ blank (filter_rows-IsFiltered_from s rows))
    | inr keyed ↦
        elim (Bool-cases
          (has (key_of row) s.seen_in_run || is_recent suppressions rule cutoff (key_of row))) [
            | inl dropped ↦
                rw (keyed, dropped, filter_rows, filter_row)
                  (drop_seen s _ row rows _ dropped (
                    filter_rows-IsFiltered_from
                      (record s { suppressed_keys = s.suppressed_keys ++ key_of row ∷ [] }) rows))
            | inr new ↦
                rw (keyed, new, filter_rows, filter_row)
                  (keep_new s _ row rows _ keyed new (
                    filter_rows-IsFiltered_from
                      (record s {
                        seen_in_run = key_of row ∷ s.seen_in_run;
                        new_keys = s.new_keys ++ key_of row ∷ [];
                      })
                      rows))
          ]
  ]

  -- The filter keeps, from no keys on: the keys of the kept rows that have one are the new keys, in
  -- order, each once and none of them stored since the cutoff; a row has no key, a key stored since
  -- the cutoff or the key of a kept row; the kept rows and the suppressed keys together are as many
  -- as the rows.
  pub filter_rows-IsFiltered :
      (rows : List Row)
      → IsFiltered no_keys rows
          (filter_rows suppressions rule cutoff no_keys rows).0
          (filter_rows suppressions rule cutoff no_keys rows).1
  filter_rows-IsFiltered rows = filter_rows-IsFiltered_from no_keys rows
