-- ===== src/ExecutionService/Seen.antt =====
-- What `_persist_suppression_state` stores of the keys of a run.
use early_warning_system.Prelude.{
  ℕ, ◌≡◌, refl, eq_refl, Option, none, some, List, [], ◌∷◌, Text, arith, ◌==◌, text_eq,
  text_beq_iff, if◌then◌else◌, option_eq, option_beq_iff,
}
use early_warning_system.Models.{DateTime, AlertSuppression}
use early_warning_system.ExecutionService.Attempt.{get_suppression_record}
use early_warning_system.ExecutionService.Persist.{store_key, store_keys}
use early_warning_system.ExecutionService.Suppression.{has}

abbrev pub seen_at : Option AlertSuppression → Option DateTime
seen_at none = none
seen_at (some s) = some s.last_seen_at

module _ (rule_id : Option ℕ) (now : DateTime) where
  -- when the row of a key was last written
  abbrev pub last_seen : List AlertSuppression → Text → Option DateTime
  last_seen rows key = seen_at (get_suppression_record rows rule_id key)

  last_seen-store_key :
      (key other : Text) (rows : List AlertSuppression)
      → last_seen (store_key rule_id now key rows) other
        ≡ (if key == other then some now else last_seen rows other)
  unfolding store_key get_suppression_record
  last_seen-store_key key other [] = ground (arith, eq_refl rule_id)
  last_seen-store_key key other (s ∷ rows) = ground (
    arith,
    last_seen-store_key key other rows,
    text_beq_iff s.suppression_key key,
    text_beq_iff s.suppression_key other,
    text_beq_iff key other,
    option_beq_iff s.rule_id rule_id,
  )

  -- After `_persist_suppression_state`, each key of the run was last seen at the run's time, and no
  -- other key's time changed.
  pub last_seen-store_keys :
      (keys : List Text) (rows : List AlertSuppression) (other : Text)
      → last_seen (store_keys rule_id now keys rows) other
        ≡ (if has other keys then some now else last_seen rows other)
  unfolding store_keys
  last_seen-store_keys [] rows other = refl
  last_seen-store_keys (key ∷ keys) rows other = ground (
    arith,
    last_seen-store_keys keys (store_key rule_id now key rows) other,
    last_seen-store_key key other rows,
  )
