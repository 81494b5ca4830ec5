-- ===== src/Redaction/Progress.antt =====
-- The loop over the sensitive keys ends.
use early_warning_system.Prelude.{
  ℕ, zero, suc, ◌+◌, ◌-◌, max, min, ◌≡◌, ◌≢◌, ◌≤◌, ◌<◌, refl, none, some, Text, length, arith,
  nat_eq, Option-cases, inl, inr, ◌⊎◌,
}
use early_warning_system.Redaction.{
  is_in, whitespace, skip_while, ValueStart, assigned, absent, starts, mapping_value_start,
  structured_value_end, KeySearch, replacement, redact_rounds, redact_sensitive_mapping_values,
  structured_value_scan_limit,
}
use early_warning_system.Redaction.Bounds.{skip_while-bounds}

-- A match is not empty, and lies in the text from the position on.
abbrev pub IsSearch : KeySearch → Text → Type 0
IsSearch search text =
    (position match_start match_end : ℕ)
    → search text position ≡ some (match_start, match_end)
    → (position ≤ match_start) × (match_start < match_end) × (match_end ≤ length text)

mapping_value_start-behind :
    (text : Text) (key_end scan_end value_start : ℕ)
    → mapping_value_start text key_end scan_end ≡ starts value_start
    → key_end ≤ value_start
unfolding mapping_value_start
mapping_value_start-behind text key_end scan_end value_start h =
    let first = skip_while-bounds (is_in whitespace) text (scan_end - key_end) key_end in
    let position = skip_while (is_in whitespace) text (scan_end - key_end) key_end in
    let second =
      skip_while-bounds (is_in whitespace) text (scan_end - suc position) (suc position) in
    ground (arith, first.0, second.0, h)

ValueStart-cases : (v : ValueStart) → (v ≡ assigned) ⊎ ((v ≡ absent) ⊎ ((n : ℕ) × (v ≡ starts n)))
ValueStart-cases assigned = inl refl
ValueStart-cases absent = inr (inl refl)
ValueStart-cases (starts n) = inr (inr (n, refl))

module _ (search : KeySearch) (text : Text) (is_search : IsSearch search text) where
  redact_rounds-ends :
      (rounds cursor position : ℕ)
      → suc (length text) - position < rounds
      → redact_rounds search text rounds cursor position ≢ none
  unfolding redact_rounds replacement
  redact_rounds-ends zero cursor position h = absurd (omega (arith, h))
  redact_rounds-ends (suc rounds) cursor position h = elim (Option-cases (search text position)) [
    | inl done ↦ rw (done, redact_rounds) (λ e. cc)
    | inr ((a, b), found) ↦
        let (after, proper, inside) = is_search position a b found in
        let scan_end = min (length text) (a + structured_value_scan_limit) in
        elim (ValueStart-cases (mapping_value_start text b scan_end)) [
          | inl skipped ↦
              rw (found, skipped, redact_rounds)
                (redact_rounds-ends rounds cursor b (omega (arith, h, after, proper, inside)))
          | inr (inl all) ↦ rw (found, all, redact_rounds) (λ e. cc)
          | inr (inr (value_start, value)) ↦
              let behind = mapping_value_start-behind text b scan_end value_start value in
              let value_end = max (structured_value_end text value_start scan_end) value_start in
              let later =
                redact_rounds-ends rounds value_end value_end
                  (omega (arith, h, after, proper, inside, behind)) in
              elim (Option-cases (redact_rounds search text rounds value_end value_end)) [
                | inl out ↦ absurd (later out)
                | inr (rest, ended) ↦ rw (found, value, ended, redact_rounds) (λ e. cc)
              ]
        ]
  ]

  -- If the search finds no empty match and none before the position that it starts from, the loop
  -- ends: two rounds more than the text has positions are enough.
  pub redact_sensitive_mapping_values-ends : redact_sensitive_mapping_values search text ≢ none
  unfolding redact_sensitive_mapping_values
  redact_sensitive_mapping_values-ends =
      redact_rounds-ends (suc (suc (length text))) 0 0 (omega arith)
