-- ===== src/Rules/Values.antt =====
-- The values of Python's `json`, as the import of rules reads them. A float is its `repr`; what
-- `int`, `str` and the comparisons make of it is a parameter.
use early_warning_system.Prelude.{
  Bool, true, false, not, Option, none, some, List, [], ◌∷◌, Text, is_empty, ◌==◌, nat_eq, text_eq,
  if◌then◌else◌,
}
use early_warning_system.Models.{DateTime}
use early_warning_system.Settings.{Integer, negative, natural}

mutual
  pub data Json : Type 0 where
    null : Json
    boolean : Bool → Json
    integer : Integer → Json
    real : Text → Json
    text : Text → Json
    array : JsonList → Json
    object : JsonDict → Json

  pub data JsonList : Type 0 where
    nil : JsonList
    cons : Json → JsonList → JsonList

  pub data JsonDict : Type 0 where
    end : JsonDict
    field : Text → Json → JsonDict → JsonDict

-- what `int(value)` does: return, raise a `TypeError` or a `ValueError`, or raise an `OverflowError`
pub data IntResult : Type 0 where
  int : Integer → IntResult
  no_int : IntResult
  too_large : IntResult

pub record Python : Type 0 where
  pub parse_int : Text → Option Integer
  -- `int` of a float: an infinity raises an `OverflowError`, and a NaN a `ValueError`
  pub truncate : Text → IntResult
  pub is_one : Text → Bool
  pub is_zero : Text → Bool
  -- `str` of a value that is no string
  pub str : Json → Text
  pub isoformat : DateTime → Text
  pub dumps : JsonDict → Text
  pub loads : Text → Option Json

-- `d.get(key)`
unfoldable pub get_field : Text → JsonDict → Option Json
get_field key end = none
get_field key (field k v rest) =
    let later = get_field key rest in if k == key then some v else later

-- `d.get(key, default)`
unfoldable pub get_field_or : Text → Json → JsonDict → Json
get_field_or key default d = elim (get_field key d) [ none ↦ default | some v ↦ v ]

unfoldable pub items : JsonList → List Json
items nil = []
items (cons v rest) = v ∷ items rest

unfoldable pub array_of : List Json → JsonList
array_of [] = nil
array_of (v ∷ rest) = cons v (array_of rest)

abbrev pub option_int : Option Integer → IntResult
option_int none = no_int
option_int (some i) = int i

-- `int(value)`
unfoldable pub int_of : Python → Json → IntResult
int_of py null = no_int
int_of py (boolean true) = int (natural 1)
int_of py (boolean false) = int (natural 0)
int_of py (integer i) = int i
int_of py (real r) = py.truncate r
int_of py (text t) = option_int (py.parse_int t)
int_of py (array _) = no_int
int_of py (object _) = no_int

-- `value == 1`
unfoldable pub equals_one : Python → Json → Bool
equals_one py null = false
equals_one py (boolean b) = b
equals_one py (integer negative) = false
equals_one py (integer (natural n)) = n == 1
equals_one py (real r) = py.is_one r
equals_one py (text _) = false
equals_one py (array _) = false
equals_one py (object _) = false

-- `bool(value)`
unfoldable pub truth : Python → Json → Bool
truth py null = false
truth py (boolean b) = b
truth py (integer negative) = true
truth py (integer (natural n)) = not (n == 0)
truth py (real r) = not (py.is_zero r)
truth py (text t) = not (is_empty t)
truth py (array nil) = false
truth py (array (cons _ _)) = true
truth py (object end) = false
truth py (object (field _ _ _)) = true

-- `value if isinstance(value, str) else str(value)`
unfoldable pub text_or_str : Python → Json → Text
text_or_str py (text t) = t
text_or_str py null = py.str null
text_or_str py (boolean b) = py.str (boolean b)
text_or_str py (integer i) = py.str (integer i)
text_or_str py (real r) = py.str (real r)
text_or_str py (array a) = py.str (array a)
text_or_str py (object d) = py.str (object d)
