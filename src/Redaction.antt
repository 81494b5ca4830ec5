-- ===== src/Redaction.antt =====
-- app/error_reporting.py: taking secrets out of a text that is logged. The scanners go through the
-- text by index; a loop is given how many positions are left before its end. The regular expression
-- for a sensitive key is a parameter: where it next matches from a position on.
pub mod Bounds
pub mod Progress
use early_warning_system.Prelude.{
  ℕ, zero, suc, ◌+◌, ◌-◌, min, max, Bool, true, false, not, ◌&&◌, ◌||◌, Option, none, some, List,
  [], ◌∷◌, ◌++◌, Text, codes, any, length, take, drop, is_empty, ◌==◌, nat_eq, ltb, leb,
  if◌then◌else◌,
}

abbrev pub structured_value_scan_limit : ℕ
structured_value_scan_limit = 32768

abbrev pub structured_value_depth_limit : ℕ
structured_value_depth_limit = 64

-- `text[i]`, and 0 behind its end
unfoldable pub char_at : Text → ℕ → ℕ
char_at [] i = 0
char_at (c ∷ s) zero = c
char_at (c ∷ s) (suc i) = char_at s i

abbrev pub is_in : Text → ℕ → Bool
is_in chars c = any (λ d. d == c) chars

abbrev pub whitespace : Text
whitespace = codes " \t\r\n"

abbrev pub delimiters : Text
delimiters = codes ",}]"

-- `while position < end and text[position] in chars`
unfoldable pub skip_while : (ℕ → Bool) → Text → ℕ → ℕ → ℕ
skip_while p text zero position = position
skip_while p text (suc left) position =
    let later = skip_while p text left (suc position) in
    if p (char_at text position) then later else position

-- what `_mapping_value_start` returns: -1, `None` or a position
pub data ValueStart : Type 0 where
  assigned : ValueStart
  absent : ValueStart
  starts : ℕ → ValueStart

-- `_mapping_value_start`
unfoldable pub mapping_value_start : Text → ℕ → ℕ → ValueStart
mapping_value_start text key_end scan_end =
    let position = skip_while (is_in whitespace) text (scan_end - key_end) key_end in
    if ltb position scan_end && (char_at text position == b'=')
    then assigned
    else if leb scan_end position || not (char_at text position == b':')
    then absent
    else starts (skip_while (is_in whitespace) text (scan_end - suc position) (suc position))

-- the rest of `_consume_trailing_fragment` from a character that is neither blank nor a delimiter on
unfoldable pub consume_word : Text → ℕ → ℕ → ℕ
consume_word text left position =
    let stop = skip_while (λ c. not (is_in (delimiters ++ codes "\r\n") c)) text left position in
    if ltb stop (position + left) && is_in delimiters (char_at text stop) then stop else length text

-- `_consume_trailing_fragment`
unfoldable pub consume_trailing_fragment : Text → ℕ → ℕ → ℕ
consume_trailing_fragment text zero position = length text
consume_trailing_fragment text (suc left) position =
    let later = consume_trailing_fragment text left (suc position) in
    if is_in delimiters (char_at text position)
    then position
    else if is_in whitespace (char_at text position)
    then later
    else consume_word text (suc left) position

-- the variables of the loop over a bracketed value; no quote is `none`
pub record ScanState : Type 0 where
  pub stack : List ℕ
  pub quote : Option ℕ
  pub escaped : Bool

-- what one character does: the scan gives up, the value is closed, or it goes on
pub data ScanStep : Type 0 where
  give_up : ScanStep
  closed : ScanStep
  go_on : ScanState → ScanStep

-- inside a quoted string
unfoldable pub scan_quoted : ScanState → ℕ → ℕ → ScanStep
scan_quoted s q c =
    if is_in (codes "\r\n") c
    then give_up
    else if s.escaped
    then go_on (record s { escaped = false })
    else if c == 92
    then go_on (record s { escaped = true })
    else if c == q
    then go_on (record s { quote = none })
    else go_on s

-- a closing bracket
unfoldable pub scan_closing : ScanState → List ℕ → ℕ → ScanStep
scan_closing s [] c = give_up
scan_closing s (expected ∷ rest) c =
    if not (c == expected)
    then give_up
    else if is_empty rest
    then closed
    else go_on (record s { stack = rest })

-- outside of quoted strings
unfoldable pub scan_plain : ScanState → ℕ → ScanStep
unfolding scan_closing
scan_plain s c =
    if is_in (codes "'\"") c
    then go_on (record s { quote = some c })
    else if is_in (codes "[{") c
    then (if leb structured_value_depth_limit (length s.stack)
        then give_up
        else go_on (record s { stack = (if c == b'[' then b']' else b'}') ∷ s.stack }))
    else if is_in (codes "]}") c
    then scan_closing s s.stack c
    else go_on s

unfoldable pub scan_step : ScanState → ℕ → ScanStep
scan_step s c = elim s.quote [ none ↦ scan_plain s c | some q ↦ scan_quoted s q c ]

-- the loop over a bracketed value
unfoldable pub bracketed_end : Text → ℕ → ℕ → ScanState → ℕ
bracketed_end text zero position s = length text
bracketed_end text (suc left) position s = elim (scan_step s (char_at text position)) [
  | give_up ↦ length text
  | closed ↦ consume_trailing_fragment text left (suc position)
  | go_on t ↦ bracketed_end text left (suc position) t
]

-- the loop over a quoted value: as inside a quoted string, but the closing quote ends the value
unfoldable pub quoted_end : Text → ℕ → ℕ → ℕ → Bool → ℕ
quoted_end text q zero position escaped = length text
quoted_end text q (suc left) position escaped =
    let c = char_at text position in
    let inside = quoted_end text q left (suc position) (not escaped && (c == 92)) in
    if is_in (codes "\r\n") c
    then length text
    else if not escaped && not (c == 92) && (c == q)
    then consume_trailing_fragment text left (suc position)
    else inside

-- a value without quotes or brackets
unfoldable pub plain_end : Text → ℕ → ℕ → ℕ
plain_end text left position =
    let stop = skip_while (λ c. not (is_in delimiters c)) text left position in
    if ltb stop (position + left) then stop else length text

-- `_structured_value_end`
unfoldable pub structured_value_end : Text → ℕ → ℕ → ℕ
structured_value_end text start scan_end =
    if leb scan_end start
    then length text
    else let first = char_at text start in
      let left = scan_end - suc start in
      if is_in (codes "[{") first
      then bracketed_end text left (suc start) (record {
        stack = (if first == b'[' then b']' else b'}') ∷ [];
        quote = none;
        escaped = false;
      })
      else if is_in (codes "'\"") first
      then quoted_end text first left (suc start) false
      else plain_end text (scan_end - start) start

-- where `SENSITIVE_MAPPING_KEY.search` matches next: the start and the end of the match
abbrev pub KeySearch : Type 0
KeySearch = Text → ℕ → Option (ℕ × ℕ)

-- `text[a:b]`
abbrev pub slice : ℕ → ℕ → Text → Text
slice a b text = take (b - a) (drop a text)

abbrev pub redacted : Text
redacted = codes "[REDACTED]"

-- what one match does in `_redact_sensitive_mapping_values`: it goes on behind the match, it
-- replaces all that is left, or it replaces a value from its start to its end
pub data Replacement : Type 0 where
  skip_match : Replacement
  replace_rest : Replacement
  replace_value : ℕ → ℕ → Replacement

unfoldable pub replacement : Text → ℕ → ℕ → Replacement
replacement text match_start match_end =
    let scan_end = min (length text) (match_start + structured_value_scan_limit) in
    elim (mapping_value_start text match_end scan_end) [
      | assigned ↦ skip_match
      | absent ↦ replace_rest
      | starts value_start ↦
          replace_value value_start
            (max (structured_value_end text value_start scan_end) value_start)
    ]

module _ (search : KeySearch) (text : Text) where
  -- the loop of `_redact_sensitive_mapping_values`, at most so many matches; `none` is running out
  unfoldable pub redact_rounds : ℕ → ℕ → ℕ → Option Text
  redact_rounds zero cursor search_position = none
  redact_rounds (suc rounds) cursor search_position = elim (search text search_position) [
    | none ↦ some (drop cursor text)
    | some (match_start, match_end) ↦ elim (replacement text match_start match_end) [
      | skip_match ↦ redact_rounds rounds cursor match_end
      | replace_rest ↦ some (slice cursor match_end text ++ redacted)
      | replace_value value_start value_end ↦ elim (redact_rounds rounds value_end value_end) [
        | none ↦ none
        | some rest ↦ some (slice cursor value_start text ++ (redacted ++ rest))
      ]
    ]
  ]

  -- `_redact_sensitive_mapping_values`, with a match for each position and one more
  unfoldable pub redact_sensitive_mapping_values : Option Text
  redact_sensitive_mapping_values = redact_rounds (suc (suc (length text))) 0 0
