-- ===== src/WebSecurity/Csrf/Laws.antt =====
-- When `require_csrf` lets a request pass.
use early_warning_system.Prelude.{
  true, Option, none, some, [], ◌∷◌, Text, arith, all, ◌≡◌, ◌≢◌, ◌↔◌, ◌<◌, refl, All, text_eq,
  text_beq_iff, ltb, Option-cases, inl, inr,
}
use early_warning_system.WebSecurity.Session.{SessionValue, str, WebSession}
use early_warning_system.WebSecurity.Csrf.{
  text_value, ascii_bytes, is_unsafe, tokens_match, require_csrf,
}

-- A token that a form can carry: some ASCII characters.
abbrev pub IsToken : Text → Type 0
IsToken t = (t ≢ []) × All (λ c. c < 128) t

all_ascii : (t : Text) → (all (λ c. ltb c 128) t ≡ true) ↔ All (λ c. c < 128) t
all_ascii [] = ((λ h. tt), λ h. refl)
all_ascii (c ∷ t) = ground (arith, all_ascii t)

ascii_bytes-str :
    (v : Option SessionValue) (t : Text)
    → (ascii_bytes v ≡ some t) ↔ ((v ≡ some (str t)) × IsToken t)
unfolding ascii_bytes text_value
ascii_bytes-str none t = ground arith
ascii_bytes-str (some (SessionValue.int n)) t = ground arith
ascii_bytes-str (some (SessionValue.bool b)) t = ground arith
ascii_bytes-str (some SessionValue.other) t = ground arith
ascii_bytes-str (some (str [])) t = ground arith
ascii_bytes-str (some (str (c ∷ s))) t = ground (arith, all_ascii (c ∷ s), all_ascii t)

-- Two values that name one token.
abbrev pub SameToken : Option SessionValue → Option SessionValue → Type 0
SameToken expected provided =
    (t : Text) × (expected ≡ some (str t)) × (provided ≡ some (str t)) × IsToken t

tokens_match_sound : (v w : Option SessionValue) → tokens_match v w ≡ true → SameToken v w
unfolding tokens_match
tokens_match_sound v w h = elim (Option-cases (ascii_bytes v)) [
  | inl missing ↦ cc (rw (missing, tokens_match) at h)
  | inr (t, e) ↦ elim (Option-cases (ascii_bytes w)) [
    | inl missing ↦ cc (rw (e, missing, tokens_match) at h)
    | inr (u, p) ↦
        let same = (text_beq_iff t u).0 (rw (e, p, tokens_match) at h) in
        let (ev, tok) = (ascii_bytes-str v t).0 e in
        (t, ev, rw same ((ascii_bytes-str w u).0 p).0, tok)
  ]
]

tokens_match_complete : (v w : Option SessionValue) → SameToken v w → tokens_match v w ≡ true
unfolding tokens_match
tokens_match_complete v w (t, e, p, tok) =
    rw ((ascii_bytes-str v t).1 (e, tok), (ascii_bytes-str w t).1 (p, tok), tokens_match)
      ((text_beq_iff t t).1 refl)

-- A request with an unsafe method passes exactly when its form has the session's token, and that
-- token is a string of at least one character, all ASCII.
pub require_csrf_iff :
    (method : Text) (s : WebSession) (provided : Option SessionValue)
    → is_unsafe method ≡ true
    → (require_csrf method s provided ≡ true) ↔ SameToken s.csrf_token provided
unfolding require_csrf
require_csrf_iff method s provided unsafe =
    rw (unsafe, require_csrf)
      ((tokens_match_sound s.csrf_token provided, tokens_match_complete s.csrf_token provided))
