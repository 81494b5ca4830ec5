-- ===== src/Outside.antt =====
-- What the program calls and does not implement, on a state `W` of the outside world: the clock,
-- random tokens, sleeping, whether a database commit goes through, sqlglot, Jinja2, Fernet, the
-- ODBC driver and the SMTP server.
use early_warning_system.Prelude.{ℕ, Bool, Text, Result}
use early_warning_system.Models.{DateTime, SmtpConfig}
use early_warning_system.Errors.{Error}
use early_warning_system.Mailer.{SmtpClient}
use early_warning_system.TemplateRenderer.{Renderer}
use early_warning_system.SqlValidator.{SqlGlot}
use early_warning_system.SqlClient.{Driver}

pub record Outside (W : Type 0) : Type 0 where
  pub now : W → DateTime × W
  pub token : W → Text × W
  pub sleep : ℕ → W → W
  pub commit : W → Bool × W
  pub glot : SqlGlot
  pub jinja : Renderer
  -- `SecretCipher.decrypt`
  pub decrypt : Text → Result Error Text
  pub run : Driver W
  -- the client that `build_smtp_mailer` opens for a configuration and its password
  pub smtp : SmtpConfig → Text → SmtpClient W
