-- ===== src/SqlValidator/ReadOnly.antt =====
-- What a text that passes `validate_select_sql` is.
use early_warning_system.Prelude.{
  ℕ, suc, ◌+◌, ◌<◌, ◌≡◌, ◌≢◌, ◌↔◌, refl, true, false, not, some, List, [], ◌∷◌, Text, All, filter,
  length, is_empty, strip, arith, nat_eq, ok, Option-cases, Bool-cases, inl, inr, ap,
}
use early_warning_system.SqlValidator.{
  Token, Node, unsafe, cte, anonymous, identifier, plain, Statement, SqlGlot, external_functions,
  statement_keywords, contains, begins_query, is_terminator, terminators, misplaced_terminator,
  check_node, check_nodes, check_single, check_statements, check_tokens, validate_select_sql,
}

-- A node that cannot change anything.
abbrev pub IsReadOnly : (Text → Text) → Node → Type 0
IsReadOnly upper unsafe = ⊥
IsReadOnly upper (cte is_query) = is_query ≡ true
IsReadOnly upper (anonymous name) = contains external_functions (upper name) ≡ false
IsReadOnly upper (identifier quoted name) =
    quoted ≡ false → contains statement_keywords (upper name) ≡ false
IsReadOnly upper plain = Unit

check_node-IsReadOnly :
    (upper : Text → Text) (n : Node) → (check_node upper n ≡ ok tt) ↔ IsReadOnly upper n
unfolding check_node
check_node-IsReadOnly upper unsafe = ((λ h. cc), λ h. absurd h)
check_node-IsReadOnly upper (cte true) = ((λ h. refl), λ h. refl)
check_node-IsReadOnly upper (cte false) = ((λ h. cc), λ h. cc)
check_node-IsReadOnly upper (anonymous name) = ground arith
check_node-IsReadOnly upper (identifier quoted name) = ground arith
check_node-IsReadOnly upper plain = ((λ h. tt), λ h. refl)

check_nodes-IsReadOnly :
    (upper : Text → Text) (ns : List Node)
    → (check_nodes upper ns ≡ ok tt) ↔ All (IsReadOnly upper) ns
unfolding check_nodes
check_nodes-IsReadOnly upper [] = ((λ h. tt), λ h. refl)
check_nodes-IsReadOnly upper (n ∷ ns) =
    ground (arith, check_node-IsReadOnly upper n, check_nodes-IsReadOnly upper ns)

-- One statement besides semicolons, a query, every node of which is read only.
abbrev pub IsSingleQuery : (Text → Text) → List Statement → Type 0
IsSingleQuery upper statements =
    (s : Statement) × (filter (λ t. not t.is_semicolon) statements ≡ s ∷ [])
    × (s.is_query ≡ true)
    × All (IsReadOnly upper) s.nodes

single_sound :
    (upper : Text → Text) (l : List Statement)
    → check_single upper l ≡ ok tt
    → (s : Statement) × (l ≡ s ∷ []) × (s.is_query ≡ true) × All (IsReadOnly upper) s.nodes
unfolding check_single
single_sound upper [] h = cc
single_sound upper (s ∷ []) h = elim (Bool-cases s.is_query) [
  | inl q ↦ (s, refl, q, (check_nodes-IsReadOnly upper s.nodes).0 (rw q at h))
  | inr q ↦ cc (rw q at h)
]
single_sound upper (s ∷ t ∷ l) h = cc

-- A semicolon is nowhere but at the end.
abbrev pub OnlyLast : List Token → Type 0
OnlyLast [] = Unit
OnlyLast (t ∷ []) = Unit
OnlyLast (t ∷ u ∷ rest) = (is_terminator t ≡ false) × OnlyLast (u ∷ rest)

misplaced-cons : (i n : ℕ) (later : List ℕ) → suc i < n → misplaced_terminator (i ∷ later) n ≡ true
unfolding misplaced_terminator
misplaced-cons i n [] h = ground arith
misplaced-cons i n (j ∷ later) h = refl

terminators-OnlyLast :
    (i n : ℕ) (tokens : List Token)
    → n ≡ i + length tokens
    → misplaced_terminator (terminators i tokens) n ≡ false
    → OnlyLast tokens
unfolding terminators
terminators-OnlyLast i n [] e h = tt
terminators-OnlyLast i n (t ∷ []) e h = tt
terminators-OnlyLast i n (t ∷ u ∷ rest) e h = elim (Bool-cases (is_terminator t)) [
  | inl ends ↦ cc (
    rw (ends, terminators) at h,
    misplaced-cons i n (terminators (suc i) (u ∷ rest)) (omega arith),
  )
  | inr goes_on ↦ (
    goes_on,
    terminators-OnlyLast (suc i) n (u ∷ rest) (omega arith) (rw (goes_on, terminators) at h),
  )
]

-- What `validate_select_sql` has established of a text that it lets pass.
pub record Passed (glot : SqlGlot) (sql : Text) : Type 0 where
  pub tokens : List Token
  pub statements : List Statement
  pub not_blank : strip sql ≢ []
  pub tokenized : glot.tokenize (strip sql) ≡ some tokens
  pub begins : begins_query tokens ≡ true
  pub one_terminator : OnlyLast tokens
  pub parsed : glot.parse tokens (strip sql) ≡ some statements
  pub single : IsSingleQuery glot.upper statements

tokens-Passed :
    (glot : SqlGlot) (sql : Text) (tokens : List Token)
    → strip sql ≢ []
    → glot.tokenize (strip sql) ≡ some tokens
    → check_tokens glot (strip sql) tokens ≡ ok tt
    → Passed glot sql
unfolding check_tokens check_statements
tokens-Passed glot sql tokens blank e h = elim (Bool-cases (begins_query tokens)) [
  | inr no_query ↦ cc (rw (no_query, check_tokens) at h)
  | inl query ↦ elim (Bool-cases (misplaced_terminator (terminators 0 tokens) (length tokens))) [
    | inl misplaced ↦ cc (rw (query, misplaced, check_tokens) at h)
    | inr placed ↦ elim (Option-cases (glot.parse tokens (strip sql))) [
      | inl failed ↦ cc (rw (query, placed, failed, check_tokens) at h)
      | inr (statements, p) ↦ record {
        tokens = tokens;
        statements = statements;
        not_blank = blank;
        tokenized = e;
        begins = query;
        one_terminator = terminators-OnlyLast 0 (length tokens) tokens (omega arith) placed;
        parsed = p;
        single =
            single_sound glot.upper (filter (λ s. not s.is_semicolon) statements)
              (rw (query, placed, p, check_tokens) at h);
      }
    ]
  ]
]

-- A text passes only if it is not blank, its tokens begin with SELECT or WITH and have at most one
-- semicolon, the last token, and it parses to one statement besides semicolons: a query that has no
-- node which changes data or state, no WITH part that is not a query, no external data function and
-- no unquoted identifier spelled like a statement's keyword.
pub validate_select_sql-Passed :
    (glot : SqlGlot) (sql : Text) → validate_select_sql glot sql ≡ ok tt → Passed glot sql
unfolding validate_select_sql
validate_select_sql-Passed glot sql h = elim (Bool-cases (is_empty (strip sql))) [
  | inl blank ↦ cc (rw (blank, validate_select_sql) at h)
  | inr full ↦ elim (Option-cases (glot.tokenize (strip sql))) [
    | inl failed ↦ cc (rw (full, failed, validate_select_sql) at h)
    | inr (tokens, e) ↦
        tokens-Passed glot sql tokens (λ b. cc (full, ap is_empty b)) e
          (rw (full, e, validate_select_sql) at h)
  ]
]
