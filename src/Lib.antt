-- ===== src/Lib.antt =====
-- Early-Warning-System: an application that runs SQL queries on a schedule and mails the rows that
-- they find. This library models its core in a cubical type theory and proves what makes it correct.
--
-- The parts and the files that model them:
--   Models          app/models.py: the tables as records. An id is `none` until the row is stored.
--   Database        the tables as lists of rows in the order of their keys. An SQL statement is read
--                   as the list operation that it denotes; a commit can fail.
--   Outside         the clock, random tokens, sleeping, commits and the libraries, as functions of a
--                   state `W` of the outside world.
--   Errors          the exceptions that cross components, with their names and public texts.
--   SqlValidator    app/sql_validator.py: `validate_select_sql` over sqlglot's tokens and nodes.
--   SqlClient       app/sql_client.py: the connection string, `query` and `validate_syntax`.
--   TemplateRenderer  app/template_renderer.py: the two ways of rendering and the HTML table.
--   Mailer          app/mailer.py: `SmtpMailer.send`.
--   Executor        app/executor.py: `RuleExecutor.execute`, over the validator, a SQL client, a
--                   renderer and a mailer; its row filter carries a state.
--   ExecutionLock   app/execution_lock.py: the lease of a rule. `Holders` lets processes interleave.
--   ExecutionService  app/execution_service.py: `execute_rule_by_id` takes the lease, makes attempts
--                   (Attempt, with the suppression filter) and stores the result (Persist).
--   LogService      app/log_service.py: pages, filters, the cleanup of old logs, and the CSV export
--                   (Batches), which goes through a table by keyset.
--   WorkerHealth    app/worker_health.py and app/health.py: the heartbeat and the readiness.
--   Scheduler       app/scheduler.py: `build_scheduler` and `RuleScheduleSynchronizer`.
--   Worker          app/worker.py: `run_sync_loop` over the calls that it makes, `sync_rules_once` over
--                   Scheduler, and the callback of a job.
--   Redaction       app/error_reporting.py: taking secrets out of texts.
--   WebSecurity     app/web_security.py: `LoginRateLimiter`, whose states are objects in a heap, and
--                   the CSRF token. `Limiter/Threads` lets requests interleave.
--   Auth            app/auth.py: admin sessions and the login, over the limiter and the token.
--   Settings        app/routes.py and app/admin_cli.py, in part: the bounded integers of forms, the
--                   change of a password (Password), over the sessions of Auth, the SMTP
--                   configurations (Smtp), of which ExecutionService uses the enabled one, and the
--                   data sources (Sources).
--   Rules           app/routes.py, in part: the form of a rule (Validation), creating, updating and
--                   archiving rules with their versions (Pages), the filled forms (Editing), the
--                   import of rules (Import) and their export (Transfer), and the pages that ask a
--                   server or run a rule (Queries). JSON values are in Values. `Sound/Actions` puts
--                   these pages and those of Sources together as the steps of an admin.
--   Tests           runs on concrete data, at which the theorems are applied.
--
-- How state is modelled: an operation takes the state and returns it changed. A call that can raise
-- returns a `Result`. The blocks of the limiter under its lock, and the statements of a lease, are
-- atomic steps of a relation; a proof about every reachable state goes by induction on the steps.
--
-- Numbers: a datetime is the number of microseconds since the least one, without an upper bound; a
-- time of the limiter's clock is in microseconds too; the integers of a session are not negative. A
-- duration in milliseconds is divided exactly, where the code multiplies a float and cuts it, which
-- can give one less. A negative suppression window that is stored while suppression is off is 0 here.
-- Rows of one timestamp keep one order from page to page, which the database need not promise.
--
-- Loops: structural where the code goes through a list or counts down. The cleanup of old logs is
-- given a round for each log and one more, the replacement of secrets two rounds more than the text
-- has positions, and the batches of an export a round for each row and one more: every round but the
-- last deletes a log, moves on in the text or passes a row. The worker's endless loop is given a number
-- of rounds, which is any.
--
-- Third-party code is a parameter: sqlglot, Jinja2, pyodbc, smtplib, Fernet, bcrypt, SHA-256,
-- APScheduler, regular expressions, json, csv.writer. What a theorem needs of one of them is among its
-- hypotheses.
--
-- Not modelled: the rest of app/routes.py, which is the test of an SMTP configuration and the pages
-- that only show; app/main.py, app/dashboard.py, app/settings.py and
-- app/db.py; logging, which has no effect on results; the response headers.
-- app/crypto.py and app/security.py only call libraries.
pub mod Prelude
pub mod Models
pub mod Errors
pub mod Mailer
pub mod TemplateRenderer
pub mod SqlValidator
pub mod SqlClient
pub mod Database
pub mod Outside
pub mod Executor
pub mod ExecutionLock
pub mod ExecutionService
pub mod LogService
pub mod WorkerHealth
pub mod Scheduler
pub mod Redaction
pub mod WebSecurity
pub mod Auth
pub mod Settings
pub mod Rules
pub mod Worker
mod Tests
