-- ===== src/SqlValidator.antt =====
-- app/sql_validator.py. sqlglot's tokenizer and parser are parameters; a parsed statement is what
-- the program reads of it: whether it is a lone semicolon, whether it is a query, and the nodes of
-- `walk()` in order. `str.upper` is a parameter too.
pub mod ReadOnly
use early_warning_system.Prelude.{
  ℕ, Bool, true, false, not, ◌&&◌, ◌||◌, Option, none, some, List, [], ◌∷◌, Text, codes, any,
  filter, length, is_empty, strip, ◌==◌, text_eq, nat_eq, ltb, if◌then◌else◌, Result, ok, raise,
  ◌-◌, suc,
}
use early_warning_system.Errors.{Error, sql_validation_error}

-- `TokenType`, as far as it is told apart
pub data Token : Type 0 where
  select with_ semicolon other : Token

pub data Node : Type 0 where
  -- an instance of `_UNSAFE_NODES`
  unsafe : Node
  -- `exp.CTE`, and whether its unnested body is a query
  cte : Bool → Node
  -- `exp.Anonymous`, a function that sqlglot does not know, by its name
  anonymous : Text → Node
  -- `exp.Identifier`: quoted or not, and its name
  identifier : Bool → Text → Node
  plain : Node

pub record Statement : Type 0 where
  pub is_semicolon : Bool
  pub is_query : Bool
  pub nodes : List Node

-- `none` is a `ParseError`, a `TokenError` or a `RecursionError`
pub record SqlGlot : Type 0 where
  pub tokenize : Text → Option (List Token)
  pub parse : List Token → Text → Option (List Statement)
  pub upper : Text → Text

abbrev pub external_functions : List Text
external_functions = codes "OPENQUERY" ∷ codes "OPENROWSET" ∷ codes "OPENDATASOURCE" ∷ []

abbrev pub statement_keywords : List Text
statement_keywords =
    codes "ALTER"
    ∷ codes "CREATE"
    ∷ codes "DELETE"
    ∷ codes "DROP"
    ∷ codes "EXEC"
    ∷ codes "EXECUTE"
    ∷ codes "INSERT"
    ∷ codes "MERGE"
    ∷ codes "TRUNCATE"
    ∷ codes "UPDATE"
    ∷ codes "GRANT"
    ∷ codes "DENY"
    ∷ codes "REVOKE"
    ∷ codes "DBCC"
    ∷ codes "WAITFOR"
    ∷ []

unfoldable pub contains : List Text → Text → Bool
contains names s = any (λ n. n == s) names

abbrev pub begins_query : List Token → Bool
begins_query [] = false
begins_query (Token.select ∷ _) = true
begins_query (Token.with_ ∷ _) = true
begins_query (Token.semicolon ∷ _) = false
begins_query (Token.other ∷ _) = false

abbrev pub is_terminator : Token → Bool
is_terminator Token.semicolon = true
is_terminator _ = false

-- the indices of the terminators
unfoldable pub terminators : ℕ → List Token → List ℕ
terminators i [] = []
terminators i (t ∷ rest) =
    let later = terminators (suc i) rest in if is_terminator t then i ∷ later else later

-- `len(terminators) > 1 or (terminators and terminators[0] != len(tokens) - 1)`
unfoldable pub misplaced_terminator : List ℕ → ℕ → Bool
misplaced_terminator [] n = false
misplaced_terminator (i ∷ []) n = not (i == n - 1)
misplaced_terminator (i ∷ j ∷ rest) n = true

-- one round of the loop over `walk()`
unfoldable pub check_node : (Text → Text) → Node → Result Error (Unit {0})
check_node upper unsafe = raise (sql_validation_error (codes "只允许只读 SELECT 查询，不允许修改数据或数据库状态"))
check_node upper (cte is_query) =
    if not is_query then raise (sql_validation_error (codes "WITH 子查询必须是只读 SELECT 查询")) else ok tt
check_node upper (anonymous name) =
    if contains external_functions (upper name)
    then raise (sql_validation_error (codes "不允许外部数据源查询函数"))
    else ok tt
check_node upper (identifier quoted name) =
    if not quoted && contains statement_keywords (upper name)
    then raise (sql_validation_error (codes "语句关键字作为标识符时必须使用方括号或双引号"))
    else ok tt
check_node upper plain = ok tt

unfoldable pub check_nodes : (Text → Text) → List Node → Result Error (Unit {0})
check_nodes upper [] = ok tt
check_nodes upper (n ∷ rest) =
    let later = check_nodes upper rest in
    elim (check_node upper n) [ ok _ ↦ later | raise e ↦ raise e ]

unfoldable pub check_single : (Text → Text) → List Statement → Result Error (Unit {0})
check_single upper (s ∷ []) =
    if not s.is_query
    then raise (sql_validation_error (codes "只允许单条 SELECT 查询"))
    else check_nodes upper s.nodes
check_single upper _ = raise (sql_validation_error (codes "只允许单条 SELECT 查询"))

unfoldable pub check_statements : (Text → Text) → List Statement → Result Error (Unit {0})
unfolding check_single
check_statements upper statements = check_single upper (filter (λ s. not s.is_semicolon) statements)

abbrev pub unparsable : Error
unparsable = sql_validation_error (codes "SQL 无法安全解析，请检查语法或不支持的查询结构")

unfoldable pub check_tokens : SqlGlot → Text → List Token → Result Error (Unit {0})
check_tokens glot normalized tokens =
    if not (begins_query tokens)
    then raise (sql_validation_error (codes "只允许 SELECT 查询"))
    else if misplaced_terminator (terminators 0 tokens) (length tokens)
    then raise (sql_validation_error (codes "只允许单条 SELECT 查询"))
    else elim (glot.parse tokens normalized) [
      | none ↦ raise unparsable
      | some statements ↦ check_statements glot.upper statements
    ]

-- `validate_select_sql`, and `validate_select_only_sql`, which calls it
unfoldable pub validate_select_sql : SqlGlot → Text → Result Error (Unit {0})
validate_select_sql glot sql =
    let normalized = strip sql in
    if is_empty normalized
    then raise (sql_validation_error (codes "SQL 不能为空"))
    else elim (glot.tokenize normalized) [
      | none ↦ raise unparsable
      | some tokens ↦ check_tokens glot normalized tokens
    ]
