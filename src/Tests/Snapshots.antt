-- ===== src/Tests/Snapshots.antt =====
-- Runs of the versions of app/routes.py, with a text form of JSON: a program for a stack, two numbers
-- for each step.
use early_warning_system.Prelude.{
  ℕ, ◌≤◌, codes, map, length, arith, ◌==◌, nat_eq, if◌then◌else◌, ◌≡◌, refl, ◌∙◌, ap, true, false,
  Option, none, some, List, [], ◌∷◌, ◌++◌, Text, ok,
}
use early_warning_system.Settings.{negative, natural}
use early_warning_system.Rules.Values.{
  Json, null, boolean, integer, real, text, array, object, JsonList, nil, cons, JsonDict, end,
  field, array_of,
}
use early_warning_system.Rules.{RuleTools, values_of, send_mode_text}
use early_warning_system.Rules.RoundTrip.{import_rules_json-rule_export_payload}
use early_warning_system.Rules.Transfer.{
  active_rules, rule_export_payload, exported_rule, source_name, import_rules_json, imported,
}
use early_warning_system.Rules.Sound.Actions.{PageTools}
use early_warning_system.Tests.World.{out}
use early_warning_system.Tests.Managing.{python, tools, db, pages, rules-few, rules-IsExportable}

data Item : Type 0 where
  word : Text → Item
  value : Json → Item
  values : JsonList → Item
  fields : JsonDict → Item

data Step : Type 0 where
  do_null do_false do_true do_negative do_real do_text do_array do_object do_nil do_cons do_end
        do_field open_text letter_of number_of :
      Step

unfoldable code : Step → ℕ
code do_null = 0
code do_false = 1
code do_true = 2
code do_negative = 3
code do_real = 4
code do_text = 5
code do_array = 6
code do_object = 7
code do_nil = 8
code do_cons = 9
code do_end = 10
code do_field = 11
code open_text = 12
code letter_of = 13
code number_of = 14

unfoldable step_of : ℕ → Step
step_of c =
    if c == 0
    then do_null
    else if c == 1
    then do_false
    else if c == 2
    then do_true
    else if c == 3
    then do_negative
    else if c == 4
    then do_real
    else if c == 5
    then do_text
    else if c == 6
    then do_array
    else if c == 7
    then do_object
    else if c == 8
    then do_nil
    else if c == 9
    then do_cons
    else if c == 10
    then do_end
    else if c == 11
    then do_field
    else if c == 12
    then open_text
    else if c == 13
    then letter_of
    else number_of

unfoldable write_text : Text → List ℕ → List ℕ
write_text [] rest = code open_text ∷ 0 ∷ rest
write_text (c ∷ t) rest = write_text t (code letter_of ∷ c ∷ rest)

unfoldable mutual
  write : Json → List ℕ → List ℕ
  write null rest = code do_null ∷ 0 ∷ rest
  write (boolean false) rest = code do_false ∷ 0 ∷ rest
  write (boolean true) rest = code do_true ∷ 0 ∷ rest
  write (integer negative) rest = code do_negative ∷ 0 ∷ rest
  write (integer (natural n)) rest = code number_of ∷ n ∷ rest
  write (real t) rest = write_text t (code do_real ∷ 0 ∷ rest)
  write (text t) rest = write_text t (code do_text ∷ 0 ∷ rest)
  write (array l) rest = write_list l (code do_array ∷ 0 ∷ rest)
  write (object d) rest = write_dict d (code do_object ∷ 0 ∷ rest)

  write_list : JsonList → List ℕ → List ℕ
  write_list nil rest = code do_nil ∷ 0 ∷ rest
  write_list (cons v l) rest = write_list l (write v (code do_cons ∷ 0 ∷ rest))

  write_dict : JsonDict → List ℕ → List ℕ
  write_dict end rest = code do_end ∷ 0 ∷ rest
  write_dict (field k v d) rest = write_dict d (write_text k (write v (code do_field ∷ 0 ∷ rest)))

unfoldable step : Step → ℕ → List Item → List Item
step do_null n st = value null ∷ st
step do_false n st = value (boolean false) ∷ st
step do_true n st = value (boolean true) ∷ st
step do_negative n st = value (integer negative) ∷ st
step do_real n (word t ∷ st) = value (real t) ∷ st
step do_text n (word t ∷ st) = value (text t) ∷ st
step do_array n (values l ∷ st) = value (array l) ∷ st
step do_object n (fields d ∷ st) = value (object d) ∷ st
step do_nil n st = values nil ∷ st
step do_cons n (value v ∷ values l ∷ st) = values (cons v l) ∷ st
step do_end n st = fields end ∷ st
step do_field n (value v ∷ word k ∷ fields d ∷ st) = fields (field k v d) ∷ st
step open_text n st = word [] ∷ st
step letter_of c (word t ∷ st) = word (c ∷ t) ∷ st
step number_of n st = value (integer (natural n)) ∷ st
step _ n st = st

unfoldable read : List ℕ → List Item → List Item
read [] st = st
read (a ∷ []) st = st
read (a ∷ n ∷ rest) st = read rest (step (step_of a) n st)

read-write_text :
    (t : Text) (rest : List ℕ) (st : List Item)
    → read (write_text t rest) st ≡ read rest (word t ∷ st)
unfolding read write_text code step_of step
read-write_text [] rest st = refl
read-write_text (c ∷ t) rest st = read-write_text t (code letter_of ∷ c ∷ rest) st

mutual
  unfolding read write write_list write_dict code step_of step

  read-write :
      (v : Json) (rest : List ℕ) (st : List Item)
      → read (write v rest) st ≡ read rest (value v ∷ st)
  read-write null rest st = refl
  read-write (boolean false) rest st = refl
  read-write (boolean true) rest st = refl
  read-write (integer negative) rest st = refl
  read-write (integer (natural n)) rest st = refl
  read-write (real t) rest st = read-write_text t _ st
  read-write (text t) rest st = read-write_text t _ st
  read-write (array l) rest st = read-write_list l _ st
  read-write (object d) rest st = read-write_dict d _ st

  read-write_list :
      (l : JsonList) (rest : List ℕ) (st : List Item)
      → read (write_list l rest) st ≡ read rest (values l ∷ st)
  read-write_list nil rest st = refl
  read-write_list (cons v l) rest st = read-write_list l _ st ∙ read-write v _ (values l ∷ st)

  read-write_dict :
      (d : JsonDict) (rest : List ℕ) (st : List Item)
      → read (write_dict d rest) st ≡ read rest (fields d ∷ st)
  read-write_dict end rest st = refl
  read-write_dict (field k v d) rest st =
      read-write_dict d _ st
      ∙ read-write_text k _ (fields d ∷ st)
      ∙ read-write v _ (word k ∷ fields d ∷ st)

unfoldable dumps : JsonDict → Text
dumps d = write_dict d []

unfoldable top : List Item → Option Json
top (fields d ∷ []) = some (object d)
top st = none

unfoldable loads : Text → Option Json
loads t = top (read t [])

abbrev storing : RuleTools
storing = record tools { python = record python { dumps = dumps; loads = loads } }

-- `pages` with this form of JSON
abbrev kept : PageTools
kept = record pages { rule_tools = storing }

abbrev payload : Json
payload = rule_export_payload (λ rules. rules) (codes "now") db

abbrev file : List ℕ
file = write payload []

unfoldable top_value : List Item → Option Json
top_value (value v ∷ []) = some v
top_value st = none

unfoldable load : List ℕ → Option Json
load t = top_value (read t [])

load-file : load file ≡ some payload
unfolding load read top_value
load-file = ap top_value (read-write payload [] [])

file-small : length file ≤ 1048576
unfolding write write_list write_dict write_text rule_export_payload active_rules exported_rule
    source_name array_of send_mode_text code
file-small = omega arith

import_rules_json-rule_export_payload_example :
    ((import_rules_json out tools load file db 0).0
      ≡ ok (imported (length (active_rules (λ rules. rules) db))))
    × (map values_of (import_rules_json out tools load file db 0).1.rules
        ≡ map values_of db.rules ++ map values_of (active_rules (λ rules. rules) db))
import_rules_json-rule_export_payload_example =
    import_rules_json-rule_export_payload out tools load file (λ rules. rules) (codes "now") db 0
      file-small load-file rules-few rules-IsExportable (λ w. refl)
