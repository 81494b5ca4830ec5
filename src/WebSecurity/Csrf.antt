-- ===== src/WebSecurity/Csrf.antt =====
-- app/web_security.py: the CSRF token. The random token of `secrets.token_urlsafe` is an argument.
pub mod Laws
use early_warning_system.Prelude.{
  ℕ, Bool, true, false, ◌&&◌, ◌||◌, not, Option, none, some, List, [], ◌∷◌, Text, codes, all, any,
  map, is_empty, ◌==◌, text_eq, ◌-◌, ltb, leb, if◌then◌else◌,
}
use early_warning_system.WebSecurity.Session.{SessionValue, str, WebSession}

-- a non-empty string
unfoldable pub text_value : Option SessionValue → Option Text
text_value (some (str [])) = none
text_value (some (str (c ∷ s))) = some (c ∷ s)
text_value _ = none

-- `ensure_csrf_token`
unfoldable pub ensure_csrf_token : Text → WebSession → Text × WebSession
ensure_csrf_token random s = elim (text_value s.csrf_token) [
  | some token ↦ (token, s)
  | none ↦ (random, record s { csrf_token = some (str random) })
]

-- `rotate_csrf_token`
unfoldable pub rotate_csrf_token : Text → WebSession → Text × WebSession
rotate_csrf_token random s = (random, record s { csrf_token = some (str random) })

-- `_ascii_bytes`
unfoldable pub ascii_bytes : Option SessionValue → Option Text
unfolding text_value
ascii_bytes v = elim (text_value v) [
  | none ↦ none
  | some s ↦ if all (λ c. ltb c 128) s then some s else none
]

-- `str.upper` of an HTTP method, which is ASCII
unfoldable pub upper : Text → Text
upper = map (λ c. if leb b'a' c && leb c b'z' then c - 32 else c)

abbrev pub unsafe_methods : List Text
unsafe_methods = codes "POST" ∷ codes "PUT" ∷ codes "PATCH" ∷ codes "DELETE" ∷ []

-- `method.upper() in UNSAFE_METHODS`
unfoldable pub is_unsafe : Text → Bool
unfolding upper
is_unsafe method = any (λ m. upper method == m) unsafe_methods

-- the comparison of `require_csrf`
unfoldable pub tokens_match : Option SessionValue → Option SessionValue → Bool
unfolding ascii_bytes
tokens_match expected provided = elim (ascii_bytes expected) [
  | none ↦ false
  | some e ↦ elim (ascii_bytes provided) [ none ↦ false | some p ↦ e == p ]
]

-- `require_csrf`: whether the request goes on; otherwise it is answered with 403. The form field is
-- `none` where the form cannot be parsed or has no such field.
unfoldable pub require_csrf : Text → WebSession → Option SessionValue → Bool
require_csrf method s provided =
    if not (is_unsafe method) then true else tokens_match s.csrf_token provided
