-- ===== src/Redaction/Bounds.antt =====
-- Where the scan of a sensitive value ends.
use early_warning_system.Prelude.{
  ℕ, zero, suc, ◌+◌, ◌-◌, ◌≡◌, ◌≤◌, ◌<◌, ◌⊎◌, refl, Bool, true, false, not, ◌&&◌, ◌++◌, Text, codes,
  length, arith, ◌==◌, nat_eq, ltb, leb, Bool-cases, inl, inr,
}
use early_warning_system.Redaction.{
  char_at, is_in, whitespace, delimiters, skip_while, consume_word, consume_trailing_fragment,
  ScanState, ScanStep, give_up, closed, go_on, scan_step, bracketed_end, quoted_end, plain_end,
  structured_value_end,
}

-- The end of the text, or a delimiter at a position or behind it.
abbrev pub IsEnd : Text → ℕ → ℕ → Type 0
IsEnd text from e =
    (e ≡ length text)
    ⊎ ((from ≤ e) × (e < length text) × (is_in delimiters (char_at text e) ≡ true))

IsEnd-mono : (text : Text) (from to e : ℕ) → from ≤ to → IsEnd text to e → IsEnd text from e
IsEnd-mono text from to e le (inl whole) = inl whole
IsEnd-mono text from to e le (inr (a, b, c)) = inr (omega (arith, le, a), b, c)

pub skip_while-bounds :
    (p : ℕ → Bool) (text : Text) (left position : ℕ)
    → (position ≤ skip_while p text left position)
      × (skip_while p text left position ≤ position + left)
unfolding skip_while
skip_while-bounds p text zero position = (omega arith, omega arith)
skip_while-bounds p text (suc left) position =
    let rest = skip_while-bounds p text left (suc position) in
    elim (Bool-cases (p (char_at text position))) [
      | inl go ↦ rw (go, skip_while) (omega (arith, rest.0), omega (arith, rest.1))
      | inr stop ↦ rw (stop, skip_while) (omega arith, omega arith)
    ]

skip_while-stop :
    (p : ℕ → Bool) (text : Text) (left position : ℕ)
    → skip_while p text left position < position + left
    → p (char_at text (skip_while p text left position)) ≡ false
unfolding skip_while
skip_while-stop p text zero position h = absurd (omega (arith, h))
skip_while-stop p text (suc left) position h = elim (Bool-cases (p (char_at text position))) [
  | inl go ↦
      rw (go, skip_while)
        (skip_while-stop p text left (suc position) (omega (arith, rw (go, skip_while) at h)))
  | inr stop ↦ rw (stop, skip_while) stop
]

consume_word-IsEnd :
    (text : Text) (left position : ℕ)
    → position + left ≤ length text
    → IsEnd text position (consume_word text left position)
unfolding consume_word
consume_word-IsEnd text left position le =
    let p : ℕ → Bool = λ c. not (is_in (delimiters ++ codes "\r\n") c) in
    let stop = skip_while p text left position in
    let bounds = skip_while-bounds p text left position in
    elim (Bool-cases (ltb stop (position + left) && is_in delimiters (char_at text stop))) [
      | inl found ↦
          rw (found, consume_word)
            (inr (bounds.0, ground (arith, found, le), ground (arith, found)))
      | inr missing ↦ rw (missing, consume_word) (inl refl)
    ]

consume_trailing_fragment-IsEnd :
    (text : Text) (left position : ℕ)
    → position + left ≤ length text
    → IsEnd text position (consume_trailing_fragment text left position)
unfolding consume_trailing_fragment
consume_trailing_fragment-IsEnd text zero position le = inl refl
consume_trailing_fragment-IsEnd text (suc left) position le =
    elim (Bool-cases (is_in delimiters (char_at text position))) [
      | inl found ↦
          rw (found, consume_trailing_fragment) (inr (omega arith, omega (arith, le), found))
      | inr other ↦ elim (Bool-cases (is_in whitespace (char_at text position))) [
        | inl blank ↦
            rw (other, blank, consume_trailing_fragment)
              (IsEnd-mono text position (suc position) _ (omega arith)
                (consume_trailing_fragment-IsEnd text left (suc position) (omega (arith, le))))
        | inr word ↦
            rw (other, word, consume_trailing_fragment)
              (consume_word-IsEnd text (suc left) position le)
      ]
    ]

ScanStep-cases : (s : ScanStep) → (s ≡ give_up) ⊎ ((s ≡ closed) ⊎ ((t : ScanState) × (s ≡ go_on t)))
ScanStep-cases give_up = inl refl
ScanStep-cases closed = inr (inl refl)
ScanStep-cases (go_on t) = inr (inr (t, refl))

bracketed_end-IsEnd :
    (text : Text) (left position : ℕ) (s : ScanState)
    → position + left ≤ length text
    → IsEnd text position (bracketed_end text left position s)
unfolding bracketed_end
bracketed_end-IsEnd text zero position s le = inl refl
bracketed_end-IsEnd text (suc left) position s le =
    elim (ScanStep-cases (scan_step s (char_at text position))) [
      | inl failed ↦ rw (failed, bracketed_end) (inl refl)
      | inr (inl ended) ↦
          rw (ended, bracketed_end)
            (IsEnd-mono text position (suc position) _ (omega arith)
              (consume_trailing_fragment-IsEnd text left (suc position) (omega (arith, le))))
      | inr (inr (t, goes)) ↦
          rw (goes, bracketed_end)
            (IsEnd-mono text position (suc position) _ (omega arith)
              (bracketed_end-IsEnd text left (suc position) t (omega (arith, le))))
    ]

quoted_end-IsEnd :
    (text : Text) (q left position : ℕ) (escaped : Bool)
    → position + left ≤ length text
    → IsEnd text position (quoted_end text q left position escaped)
unfolding quoted_end
quoted_end-IsEnd text q zero position escaped le = inl refl
quoted_end-IsEnd text q (suc left) position escaped le =
    let c = char_at text position in
    elim (Bool-cases (is_in (codes "\r\n") c)) [
      | inl broken ↦ rw (broken, quoted_end) (inl refl)
      | inr whole ↦ elim (Bool-cases (not escaped && not (c == 92) && (c == q))) [
        | inl ended ↦
            rw (whole, ended, quoted_end)
              (IsEnd-mono text position (suc position) _ (omega arith)
                (consume_trailing_fragment-IsEnd text left (suc position) (omega (arith, le))))
        | inr inside ↦
            rw (whole, inside, quoted_end)
              (IsEnd-mono text position (suc position) _ (omega arith)
                (quoted_end-IsEnd text q left (suc position) _ (omega (arith, le))))
      ]
    ]

of_not : (b : Bool) → not b ≡ false → b ≡ true
of_not b h = ground arith

plain_end-IsEnd :
    (text : Text) (left position : ℕ)
    → position + left ≤ length text
    → IsEnd text position (plain_end text left position)
unfolding plain_end
plain_end-IsEnd text left position le =
    let p : ℕ → Bool = λ c. not (is_in delimiters c) in
    let stop = skip_while p text left position in
    let bounds = skip_while-bounds p text left position in
    elim (Bool-cases (ltb stop (position + left))) [
      | inl found ↦
          let h : stop < position + left = ground (arith, found) in
          rw (found, plain_end)
            (inr
              (bounds.0, omega (arith, h, le), of_not _ (skip_while-stop p text left position h)))
      | inr missing ↦ rw (missing, plain_end) (inl refl)
    ]

-- Wherever the scan starts and however far it may go inside the text, it ends at the end of the
-- text or at a delimiter not before its start.
pub structured_value_end-IsEnd :
    (text : Text) (start scan_end : ℕ)
    → scan_end ≤ length text
    → IsEnd text start (structured_value_end text start scan_end)
unfolding structured_value_end
structured_value_end-IsEnd text start scan_end le = elim (Bool-cases (leb scan_end start)) [
  | inl empty ↦ rw (empty, structured_value_end) (inl refl)
  | inr sized ↦ elim (Bool-cases (is_in (codes "[{") (char_at text start))) [
    | inl bracket ↦
        rw (sized, bracket, structured_value_end)
          (IsEnd-mono text start (suc start) _ (omega arith) (
            bracketed_end-IsEnd text (scan_end - suc start) (suc start) _
              (ground (arith, le, sized))))
    | inr other ↦ elim (Bool-cases (is_in (codes "'\"") (char_at text start))) [
      | inl quote ↦
          rw (sized, other, quote, structured_value_end)
            (IsEnd-mono text start (suc start) _ (omega arith) (
              quoted_end-IsEnd text _ (scan_end - suc start) (suc start) false
                (ground (arith, le, sized))))
      | inr plain ↦
          rw (sized, other, plain, structured_value_end)
            (plain_end-IsEnd text (scan_end - start) start (ground (arith, le, sized)))
    ]
  ]
]
