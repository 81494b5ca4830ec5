-- ===== src/Tests/Redacting.antt =====
-- Runs of app/error_reporting.py.
use early_warning_system.Prelude.{◌≢◌, none, some, Text, codes, arith, ltb, if◌then◌else◌}
use early_warning_system.Redaction.{KeySearch, redact_sensitive_mapping_values}
use early_warning_system.Redaction.Progress.{IsSearch, redact_sensitive_mapping_values-ends}

abbrev line : Text
line = codes "{pwd: [1, 2], a: 3}"

-- finds the key of the line
abbrev search : KeySearch
search = λ text position. if ltb 1 position then none else some (1, 4)

search-IsSearch : IsSearch search line
search-IsSearch position match_start match_end h = ground (arith, h)

redact_sensitive_mapping_values-ends_example : redact_sensitive_mapping_values search line ≢ none
redact_sensitive_mapping_values-ends_example =
    redact_sensitive_mapping_values-ends search line search-IsSearch
