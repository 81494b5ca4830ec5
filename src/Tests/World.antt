-- ===== src/Tests/World.antt =====
-- The data of the runs: a database with one rule, and an outside world that counts its time and
-- always answers.
use early_warning_system.Prelude.{ℕ, ◌+◌, true, false, none, some, List, [], ◌∷◌, Text, codes, ok}
use early_warning_system.Models.{
  AdminUser, SqlDataSource, SmtpConfig, AlertRule, AlertSuppression, SendMode,
}
use early_warning_system.Mailer.{SmtpClient}
use early_warning_system.TemplateRenderer.{Renderer, Row, Cell}
use early_warning_system.SqlValidator.{SqlGlot, Token, Node, Statement}
use early_warning_system.SqlClient.{Driver, Cursor, Connection}
use early_warning_system.Outside.{Outside}

abbrev pub select_one : Text
select_one = codes "SELECT 1"

abbrev pub parsed : Statement
parsed = record {
  is_semicolon = false;
  is_query = true;
  nodes = Node.plain ∷ Node.identifier true (codes "DROP") ∷ Node.cte true ∷ [];
}

abbrev pub glot : SqlGlot
glot = record {
  tokenize = λ t. some (Token.select ∷ Token.other ∷ []);
  parse = λ ts t. some (parsed ∷ []);
  upper = λ t. t;
}

abbrev pub jinja : Renderer
jinja = λ autoescape template context. ok template

abbrev pub cursor : Cursor
cursor = record {
  columns = codes "id" ∷ codes "mail" ∷ [];
  fetched =
      (Cell.value (codes "7") ∷ Cell.value (codes "a@b.c") ∷ [])
      ∷ (Cell.value (codes "8") ∷ Cell.null ∷ [])
      ∷ [];
}

abbrev pub run : Driver ℕ
run = λ connection sql timeout w. (ok cursor, w + 1)

-- a server that refuses one address
abbrev pub client : SmtpClient ℕ
client = record {
  open_client = λ w. (ok tt, w);
  sendmail = λ sender recipients mime w. (ok (codes "no@b.c" ∷ []), w + 1);
  has_quit = true;
  quit = λ w. (ok tt, w);
  has_close = true;
  close = λ w. (ok tt, w);
}

abbrev pub connection : Connection
connection = record {
  host = codes "db";
  port = 1433;
  database = codes "sales";
  username = codes "reader";
  password = codes "p}w;d";
  connect_timeout_seconds = 5;
  odbc_driver = codes "ODBC Driver 18 for SQL Server";
  server_override = [];
  encrypt = codes "yes";
  trust_server_certificate = codes "no";
  extra_params = [];
}

abbrev pub rule : AlertRule
rule = record {
  id = some 1;
  name = codes "stock";
  data_source_id = 1;
  sql_text = select_one;
  cron_expression = codes "* * * * *";
  recipients = codes "x@b.c,no@b.c";
  cc_recipients = [];
  subject_template = codes "low";
  body_template = codes "body";
  send_mode = SendMode.per_row;
  query_timeout_seconds = 30;
  max_rows = 10;
  enabled = true;
  notes = [];
  dynamic_recipient_field = [];
  dynamic_cc_field = [];
  suppress_duplicates = true;
  suppression_key_field = codes "id";
  suppression_window_hours = 1;
  created_at = 0;
  archived_at = none;
  updated_at = 0;
}

abbrev pub source : SqlDataSource
source = record {
  id = some 1;
  name = codes "sales";
  host = codes "db";
  port = 1433;
  database = codes "sales";
  username = codes "reader";
  encrypted_password = codes "secret";
  enabled = true;
  connect_timeout_seconds = 5;
  odbc_driver = codes "ODBC Driver 18 for SQL Server";
  server_override = [];
  encrypt = codes "yes";
  trust_server_certificate = codes "no";
  extra_params = [];
  created_at = 0;
  updated_at = 0;
}

abbrev pub smtp_config : SmtpConfig
smtp_config = record {
  id = some 1;
  host = codes "mail";
  port = 25;
  username = codes "robot";
  encrypted_password = codes "secret";
  sender = codes "robot@b.c";
  use_tls = true;
  use_ssl = false;
  timeout_seconds = 10;
  enabled = true;
  updated_at = 0;
}

-- the key 8 was seen at the start
abbrev pub suppressions : List AlertSuppression
suppressions =
    (record {
      rule_id = some 1;
      suppression_key = codes "8";
      first_seen_at = 0;
      last_seen_at = 7200000000;
      hit_count = 1;
    })
    ∷ []

abbrev pub admin : AdminUser
admin = record {
  id = some 3;
  username = codes "root";
  password_hash = codes "hash";
  session_version = 2;
  created_at = 0;
}

abbrev pub rows : List Row
rows =
    ((codes "id", Cell.value (codes "7")) ∷ [])
    ∷ ((codes "id", Cell.value (codes "8")) ∷ [])
    ∷ ((codes "id", Cell.value (codes " 7 ")) ∷ [])
    ∷ ((codes "id", Cell.null) ∷ [])
    ∷ []

abbrev pub out : Outside ℕ
out = record {
  now = λ w. (7200000000 + w, w + 1);
  token = λ w. (codes "token", w);
  sleep = λ n w. w + n;
  commit = λ w. (true, w);
  glot = glot;
  jinja = jinja;
  decrypt = λ t. ok t;
  run = run;
  smtp = λ config password. client;
}
