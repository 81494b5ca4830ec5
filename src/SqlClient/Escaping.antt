-- ===== src/SqlClient/Escaping.antt =====
-- `odbc_brace_escape`, read back by the rules of ODBC.
use early_warning_system.Prelude.{
  ℕ, Bool, true, false, Option, none, some, [], ◌∷◌, ◌++◌, Text, ◌≡◌, refl, ◌==◌, nat_eq,
  if◌then◌else◌, Bool-cases, inl, inr,
}
use mathlib.Core.List.{append_assoc}
use early_warning_system.SqlClient.{double_braces, odbc_brace_escape}

abbrev pub with_front : ℕ → Option (Text × Text) → Option (Text × Text)
with_front c none = none
with_front c (some (v, rest)) = some (c ∷ v, rest)

-- How ODBC reads the inside of a braced value, after a single closing brace or not: two of them are
-- a brace of the value, one is its end. Back come the value and what stands behind it.
pub read_inside : Bool → Text → Option (Text × Text)
read_inside false [] = none
read_inside true [] = some ([], [])
read_inside false (c ∷ s) =
    let ended = read_inside true s in
    let goes_on = with_front c (read_inside false s) in if c == b'}' then ended else goes_on
read_inside true (c ∷ s) =
    let goes_on = with_front c (read_inside false s) in
    if c == b'}' then goes_on else some ([], c ∷ s)

pub read_braced : Text → Option (Text × Text)
read_braced [] = none
read_braced (c ∷ s) = let inside = read_inside false s in if c == b'{' then inside else none

read_inside-double_braces :
    (value rest : Text)
    → read_inside false (double_braces value ++ (b'}' ∷ b';' ∷ rest)) ≡ some (value, b';' ∷ rest)
unfolding read_inside double_braces
read_inside-double_braces [] rest = refl
read_inside-double_braces (c ∷ value) rest = elim (Bool-cases (c == b'}')) [
  | inl brace ↦ rw brace (rw (brace, read_inside-double_braces value rest) refl)
  | inr plain ↦ rw plain (rw (plain, read_inside-double_braces value rest) refl)
]

-- Whatever a value contains, braces and semicolons too, reading the escaped value by the rules of
-- ODBC gives that value back and stops at the semicolon behind it.
pub read_braced-odbc_brace_escape :
    (value rest : Text)
    → read_braced (odbc_brace_escape value ++ (b';' ∷ rest)) ≡ some (value, b';' ∷ rest)
unfolding read_braced odbc_brace_escape
read_braced-odbc_brace_escape value rest = rw append_assoc (read_inside-double_braces value rest)
