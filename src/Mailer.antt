-- ===== src/Mailer.antt =====
-- app/mailer.py. The SMTP client is a parameter: what connecting, `sendmail` and the closing calls
-- do. `sendmail` answers with the refused addresses.
pub mod Delivery
use early_warning_system.Prelude.{
  ◌&&◌, ℕ, Bool, true, false, not, Option, none, some, List, [], ◌∷◌, ◌++◌, Text, codes, any,
  is_empty, join, ◌==◌, text_eq, nat_eq, ◌||◌, if◌then◌else◌, Result, ok, raise,
}
use early_warning_system.Errors.{Error, value_error, public_error_summary}

abbrev pub smtp_send_failure : Text
smtp_send_failure = codes "SMTP 发送失败，请检查服务器、端口、加密方式和账号配置"

abbrev pub smtp_partial_failure : Text
smtp_partial_failure = codes "SMTP 部分收件人被拒收，请检查邮箱地址及服务器策略"

pub record EmailMessage : Type 0 where
  pub recipients : List Text
  pub cc_recipients : List Text
  pub subject : Text
  pub html_body : Text

pub record MailSendResult : Type 0 where
  pub success : Bool
  pub error_message : Text
  pub partial_success : Bool

abbrev pub sent : MailSendResult
sent = record { success = true; error_message = []; partial_success = false }

-- the headers of the message and its HTML part
pub record Mime : Type 0 where
  pub from_header : Text
  pub to_header : Text
  pub cc_header : Option Text
  pub subject_header : Text
  pub html_part : Text

-- whether `str.splitlines` ends a line at a character
unfoldable pub ends_line : ℕ → Bool
ends_line c = any (λ e. e == c) (10 ∷ 11 ∷ 12 ∷ 13 ∷ 28 ∷ 29 ∷ 30 ∷ 133 ∷ 8232 ∷ 8233 ∷ [])

-- whether a line follows the end of one; CR and LF end one line together
unfoldable pub has_next_line : ℕ → Text → Bool
has_next_line c [] = false
has_next_line c (d ∷ []) = not ((c == 13) && (d == 10))
has_next_line c (d ∷ e ∷ s) = true

-- `len(value.splitlines()) > 1`, where `email.policy` refuses a header
unfoldable pub has_line_break : Text → Bool
unfolding ends_line has_next_line
has_line_break [] = false
has_line_break (c ∷ s) =
    let later = has_line_break s in if ends_line c then has_next_line c s else later

unfoldable pub mime_of : Text → EmailMessage → Result Error Mime
unfolding has_line_break
mime_of sender message =
    let to_header = join (codes ", ") message.recipients in
    let cc_header = join (codes ", ") message.cc_recipients in
    if has_line_break sender
      || has_line_break to_header
      || has_line_break cc_header
      || has_line_break message.subject
    then raise
        (value_error (codes "Header values may not contain linefeed or carriage return characters"))
    else ok (record {
      from_header = sender;
      to_header = to_header;
      cc_header = if not (is_empty message.cc_recipients) then some cc_header else none;
      subject_header = message.subject;
      html_part = message.html_body;
    })

-- what an SMTP server and `smtplib` do, on the state of the outside world
pub record SmtpClient (W : Type 0) : Type 0 where
  pub open_client : W → Result Error (Unit {0}) × W
  pub sendmail : Text → List Text → Mime → W → Result Error (List Text) × W
  pub has_quit : Bool
  pub quit : W → Result Error (Unit {0}) × W
  pub has_close : Bool
  pub close : W → Result Error (Unit {0}) × W

module _ {W : Type 0} (client : SmtpClient W) where
  unfoldable pub close_quietly : W → W
  close_quietly w = if client.has_close then (client.close w).1 else w

  -- `_close_client`
  unfoldable pub close_client : W → W
  unfolding close_quietly
  close_client w =
      if client.has_quit
      then (let (r, w') = client.quit w in elim r [ ok _ ↦ w' | raise _ ↦ close_quietly w' ])
      else close_quietly w

  unfoldable pub refused_result : List Text → List Text → MailSendResult
  refused_result all_recipients refused =
      let partial_success = any (λ a. not (any (λ b. b == a) refused)) all_recipients in
      record {
        success = false;
        error_message = if partial_success then smtp_partial_failure else smtp_send_failure;
        partial_success = partial_success;
      }

  unfoldable pub failure_result : Error → MailSendResult
  failure_result e = record {
    success = false;
    error_message = public_error_summary e smtp_send_failure;
    partial_success = false;
  }

  unfoldable pub sendmail_result : List Text → Result Error (List Text) → MailSendResult
  unfolding refused_result failure_result
  sendmail_result all_recipients (raise e) = failure_result e
  sendmail_result all_recipients (ok refused) =
      if not (is_empty refused) then refused_result all_recipients refused else sent

  -- the `try` of `send`, and its `finally`
  unfoldable pub deliver : Text → List Text → Mime → W → MailSendResult × W
  unfolding sendmail_result failure_result
  deliver sender all_recipients mime w =
      let (opened, w') = client.open_client w in
      elim opened [
        | raise e ↦ (failure_result e, w')
        | ok _ ↦
            let (answer, w'') = client.sendmail sender all_recipients mime w' in
            (sendmail_result all_recipients answer, close_client w'')
      ]

  -- `SmtpMailer.send`: only building the message can raise
  unfoldable pub send : Text → EmailMessage → W → Result Error MailSendResult × W
  send sender message w = elim (mime_of sender message) [
    | raise e ↦ (raise e, w)
    | ok mime ↦
        let (r, w') = deliver sender (message.recipients ++ message.cc_recipients) mime w in
        (ok r, w')
  ]
