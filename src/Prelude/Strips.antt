-- ===== src/Prelude/Strips.antt =====
-- `str.strip`, called twice.
use Prim.Native.Nat.{ℕ}
use mathlib.Core.Bool.{false}
use mathlib.Core.List.{[], ◌∷◌}
use mathlib.Core.Path.{◌≡◌, refl, ◌∙◌, ap}
use mathlib.Core.Logic.{inl, inr}
use native.Mathlib.Omega.{arith}
use early_warning_system.Prelude.Tests.{if◌then◌else◌, Bool-cases}
use early_warning_system.Prelude.Texts.{Text, is_space, lstrip, rstrip, strip}

rstrip-rstrip : (s : Text) → rstrip (rstrip s) ≡ rstrip s
unfolding rstrip
rstrip-rstrip [] = refl
rstrip-rstrip (c ∷ s) = ground (arith, rstrip-rstrip s)

-- the text begins with no blank
abbrev IsFlush : Text → Type 0
IsFlush [] = Unit
IsFlush (c ∷ s) = is_space c ≡ false

lstrip-IsFlush : (s : Text) → IsFlush (lstrip s)
unfolding lstrip
lstrip-IsFlush [] = tt
lstrip-IsFlush (c ∷ s) = elim (Bool-cases (is_space c)) [
  | inl blank ↦ rw blank (lstrip-IsFlush s)
  | inr other ↦ rw other other
]

kept :
    (c : ℕ) (rest : Text)
    → is_space c ≡ false
    → IsFlush (elim rest [ [] ↦ if is_space c then [] else c ∷ [] | (d ∷ t) ↦ c ∷ d ∷ t ])
kept c [] h = rw h h
kept c (d ∷ t) h = h

rstrip-IsFlush : (s : Text) → IsFlush s → IsFlush (rstrip s)
unfolding rstrip
rstrip-IsFlush [] h = tt
rstrip-IsFlush (c ∷ s) h = kept c (rstrip s) h

lstrip_of_IsFlush : (s : Text) → IsFlush s → lstrip s ≡ s
unfolding lstrip
lstrip_of_IsFlush [] h = refl
lstrip_of_IsFlush (c ∷ s) h = rw h

pub strip-strip : (s : Text) → strip (strip s) ≡ strip s
unfolding strip
strip-strip s =
    ap rstrip (lstrip_of_IsFlush (strip s) (rstrip-IsFlush (lstrip s) (lstrip-IsFlush s)))
    ∙ rstrip-rstrip (lstrip s)
