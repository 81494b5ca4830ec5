-- ===== src/Settings/Sources.antt =====
-- app/routes.py: creating, updating and deleting a SQL Server data source.
pub mod Names
pub mod Unique
use early_warning_system.Prelude.{
  ℕ, Bool, true, false, not, Option, none, some, List, [], ◌∷◌, ◌++◌, Text, codes, map, filter,
  find, update_where, is_empty, join, ◌==◌, nat_eq, text_eq, option_eq, if◌then◌else◌, Result, ok,
  raise,
}
use early_warning_system.Models.{DateTime, SqlDataSource, AlertRule}
use early_warning_system.Errors.{Error}
use early_warning_system.Database.{Db, get_data_source, above}
use early_warning_system.Outside.{Outside}
use early_warning_system.ExecutionLock.{database_error}
use early_warning_system.Settings.{
  Integer, is_checked, ParsedPair, both, neither, parse_sql_connection_values,
}

pub record SourceForm : Type 0 where
  pub name : Text
  pub host : Text
  pub port : Text
  pub database : Text
  pub username : Text
  pub password : Text
  pub enabled : Option Text
  pub connect_timeout_seconds : Text
  pub odbc_driver : Text
  pub server_override : Text
  pub encrypt : Text
  pub trust_server_certificate : Option Text
  pub extra_params : Text

-- the answers of the pages
pub data SourceReply : Type 0 where
  not_found : SourceReply
  refused : Text → SourceReply
  saved : SourceReply

abbrev pub name_taken : Text
name_taken = codes "数据源名称已存在"

-- `select(SqlDataSource).where(SqlDataSource.name == name)`, its first row
unfoldable pub source_named : List SqlDataSource → Text → Option SqlDataSource
source_named sources name = find (λ s. s.name == name) sources

-- the field of a form that `create_sql_server_settings` defaults and `update_sql_server_settings`
-- takes from the row
abbrev pub text_or : Option Text → Text → Text
text_or none default = default
text_or (some t) default = t

-- the rules that name a source
unfoldable pub referring : ℕ → List AlertRule → List AlertRule
referring source_id = filter (λ r. r.data_source_id == source_id)

module _ {W : Type 0} (out : Outside W) (parse_int : Text → Option Integer)
    (encrypt : Text → Text) where
  -- the new row of `create_sql_server_settings`
  unfoldable pub new_source : ℕ → SourceForm → ℕ → ℕ → DateTime → DateTime → SqlDataSource
  new_source id form port timeout created_at updated_at = record {
    id = some id;
    name = form.name;
    host = form.host;
    port = port;
    database = form.database;
    username = form.username;
    encrypted_password = encrypt form.password;
    enabled = is_checked form.enabled;
    connect_timeout_seconds = timeout;
    odbc_driver = form.odbc_driver;
    server_override = form.server_override;
    encrypt = form.encrypt;
    trust_server_certificate = text_or form.trust_server_certificate (codes "no");
    extra_params = form.extra_params;
    created_at = created_at;
    updated_at = updated_at;
  }

  -- the row of `update_sql_server_settings`; an empty password keeps the old one
  unfoldable pub updated_source : SourceForm → ℕ → ℕ → DateTime → SqlDataSource → SqlDataSource
  updated_source form port timeout now s = record s {
    name = form.name;
    host = form.host;
    port = port;
    database = form.database;
    username = form.username;
    encrypted_password =
        if not (is_empty form.password) then encrypt form.password else s.encrypted_password;
    enabled = is_checked form.enabled;
    connect_timeout_seconds = timeout;
    odbc_driver = form.odbc_driver;
    server_override = form.server_override;
    encrypt = form.encrypt;
    trust_server_certificate = text_or form.trust_server_certificate s.trust_server_certificate;
    extra_params = form.extra_params;
    updated_at = now;
  }

  -- a commit of the changed rows
  unfoldable pub save : List SqlDataSource → Db → W → Result Error SourceReply × Db × W
  save sources db w =
      let (committed, w') = out.commit w in
      if committed
      then (ok saved, record db { data_sources = sources }, w')
      else (raise database_error, db, w')

  -- `create_sql_server_settings`
  unfoldable pub create_sql_server_settings :
      SourceForm → Db → W → Result Error SourceReply × Db × W
  create_sql_server_settings form db w =
      elim (parse_sql_connection_values parse_int form.port form.connect_timeout_seconds) [
        | neither error ↦ (ok (refused error), db, w)
        | both port timeout ↦ elim (source_named db.data_sources form.name) [
          | some existing ↦ (ok (refused name_taken), db, w)
          | none ↦
              let (created_at, w₁) = out.now w in
              let (updated_at, w₂) = out.now w₁ in
              let source =
                new_source (above (map (λ s. s.id) db.data_sources)) form port timeout created_at
                  updated_at in
              save (db.data_sources ++ source ∷ []) db w₂
        ]
      ]

  -- whether the name of a form is that of another row
  unfoldable pub is_taken : Option SqlDataSource → Option ℕ → Bool
  is_taken none id = false
  is_taken (some existing) id = not (existing.id == id)

  -- `update_sql_server_settings`
  unfoldable pub update_sql_server_settings :
      ℕ → SourceForm → Db → W → Result Error SourceReply × Db × W
  update_sql_server_settings source_id form db w = elim (get_data_source db source_id) [
    | none ↦ (ok not_found, db, w)
    | some source ↦
        elim (parse_sql_connection_values parse_int form.port form.connect_timeout_seconds) [
          | neither error ↦ (ok (refused error), db, w)
          | both port timeout ↦
              let (now, w') = out.now w in
              if is_taken (source_named db.data_sources form.name) source.id
              then (ok (refused name_taken), db, w)
              else save
                  (update_where (λ s. s.id == some source_id) (updated_source form port timeout now)
                    db.data_sources)
                  db w'
        ]
  ]

  -- `delete_sql_server_settings`; the rules that refer to the source are listed by name
  unfoldable pub delete_sql_server_settings :
      (List AlertRule → List AlertRule) → ℕ → Db → W → Result Error SourceReply × Db × W
  delete_sql_server_settings by_name source_id db w = elim (get_data_source db source_id) [
    | none ↦ (ok not_found, db, w)
    | some source ↦
        if not (is_empty (referring source_id db.rules))
        then (
          ok (
              refused (
                codes "数据源正在被规则引用："
                ++ join (codes "、") (map (λ r. r.name) (by_name (referring source_id db.rules))))),
          db,
          w,
        )
        else save (filter (λ s. not (s.id == some source_id)) db.data_sources) db w
  ]
