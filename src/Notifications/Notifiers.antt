-- ===== src/Notifications/Notifiers.antt =====
-- src/reconcile/notifications/resend_notifier.py, smtp_notifier.py, mock_notifier.py and factory.py.
-- What the libraries do to the state of the provider is given.
use Prim.Native.String.{String}
use Prim.Native.String as S
use retail_reconciliation_ag.Prelude.{
  ℕ, zero, suc, List, [], ◌∷◌, Option, none, some, Bool, false, contains, nat_eq, string_eq, ◌==◌,
  text, repr, Result, ok, raise, value_error, if◌then◌else◌, not, ◌&&◌, ◌||◌, leb, length,
}
use retail_reconciliation_ag.Domain.Enums.{sent}
use retail_reconciliation_ag.Domain.Reading.{codes}
use retail_reconciliation_ag.Notifications.Service.{
  SendRequest, send_result, Attempt, returned, transient, permanent, crashed,
}

-- An attribute of an exception: it is not there or counts as false, is a positive number, or is
-- anything else.
pub data Attribute : Type 0 where
  falsy other_value : Attribute
  number : ℕ → Attribute

-- What the SDK of Resend raises, with its text.
pub record SdkError : Type 0 where
  pub status_code : Attribute
  pub code : Attribute
  pub shown : String

pub data SdkAnswer : Type 0 where
  accepted : Option String → SdkAnswer
  rejected : SdkError → SdkAnswer

pub record SendParams : Type 0 where
  pub from_ : String
  pub to : List String
  pub subject : String
  pub text_ : String

abbrev pub permanent_statuses : List ℕ
permanent_statuses = 400 ∷ 401 ∷ 403 ∷ 404 ∷ 422 ∷ []

-- `a or b`
abbrev pub first_truthy : Attribute → Attribute → Attribute
first_truthy falsy b = b
first_truthy other_value b = other_value
first_truthy (number n) b = number n

abbrev pub transient_error : SdkError → Attempt
transient_error e = transient (text ("Resend transient error: " ∷ e.shown ∷ []))

abbrev pub classify_status : Attribute → SdkError → Attempt
classify_status (number status) e =
    if contains permanent_statuses status
    then permanent (text ("Resend permanent error (" ∷ repr status ∷ "): " ∷ e.shown ∷ []))
    else transient_error e
classify_status falsy e = transient_error e
classify_status other_value e = transient_error e

-- `_classify`
unfoldable pub classify : SdkError → Attempt
unfolding text repr
classify e = classify_status (first_truthy e.status_code e.code) e

abbrev pub of_answer : SdkAnswer → Attempt
of_answer (accepted provider_id) =
    returned (record (send_result sent) { provider_id = provider_id })
of_answer (rejected e) = classify e

-- `ResendNotifier.send`, for the sender of the notifier.
unfoldable pub resend_send :
    {N : Type 0} → (SendParams → N → SdkAnswer × N) → String → SendRequest → N → Attempt × N
unfolding classify
resend_send sdk sender request n =
    let (answer, n') =
      sdk
        (record {
          from_ = sender;
          to = request.to ∷ [];
          subject = request.subject;
          text_ = request.body;
        })
        n in
    (of_answer answer, n')

-- What a session with the SMTP server raises: `SMTPAuthenticationError`, another `SMTPException` or
-- `OSError`, or anything else.
pub data SmtpAnswer : Type 0 where
  went_well : SmtpAnswer
  authentication failure unexpected : String → SmtpAnswer

-- The steps of a session, and its end.
pub record Smtp (N : Type 0) : Type 0 where
  pub connect : String → ℕ → N → SmtpAnswer × N
  pub starttls : N → SmtpAnswer × N
  pub login : String → String → N → SmtpAnswer × N
  pub send_message : SendParams → N → SmtpAnswer × N
  pub quit : N → N

pub record SmtpSettings : Type 0 where
  pub host : String
  pub port : ℕ
  pub user : String
  pub password : String
  pub sender : String

abbrev pub and_next : {N : Type 0} → SmtpAnswer × N → (N → SmtpAnswer × N) → SmtpAnswer × N
and_next (went_well, n) next = next n
and_next (authentication e, n) next = (authentication e, n)
and_next (failure e, n) next = (failure e, n)
and_next (unexpected e, n) next = (unexpected e, n)

-- Leaving the `with` block.
abbrev pub closed : {N : Type 0} → (N → N) → SmtpAnswer × N → SmtpAnswer × N
closed quit (answer, n) = (answer, quit n)

-- The handlers of `SmtpNotifier.send`.
abbrev pub of_session : SmtpAnswer → Attempt
of_session went_well = returned (send_result sent)
of_session (authentication e) = permanent (text ("SMTP authentication failed: " ∷ e ∷ []))
of_session (failure e) = transient (text ("SMTP send failed: " ∷ e ∷ []))
of_session (unexpected e) = crashed e

-- The `with` block, once the server has answered.
unfoldable pub session : {N : Type 0} → Smtp N → SmtpSettings → SendParams → N → SmtpAnswer × N
session smtp s message n = closed smtp.quit (
    and_next (smtp.starttls n) (λ n.
      let logged_in = smtp.login s.user s.password n in
      and_next (if s.user == "" then (went_well, n) else logged_in) (smtp.send_message message)))

abbrev pub is_line_break : ℕ → Bool
is_line_break c = contains (10 ∷ 11 ∷ 12 ∷ 13 ∷ 28 ∷ 29 ∷ 30 ∷ 133 ∷ 8232 ∷ 8233 ∷ []) c

-- What follows a line break has a line of its own.
abbrev pub has_line : ℕ → List ℕ → Bool
has_line c [] = false
has_line c (d ∷ ds) = not (c == 13 && d == 10 && leb (length ds) 0)

-- `len(value.splitlines()) > 1`, for which a header of an `EmailMessage` raises.
unfoldable pub has_lines : List ℕ → Bool
has_lines [] = false
has_lines (c ∷ cs) = let rest = has_lines cs in if is_line_break c then has_line c cs else rest

abbrev pub bad_headers : SendParams → SendRequest → Bool
bad_headers message request =
    has_lines (codes message.from_)
    || has_lines (codes request.to)
    || has_lines (codes request.subject)

-- `SmtpNotifier.send`; a missing sender is the user.
unfoldable pub smtp_send : {N : Type 0} → Smtp N → SmtpSettings → SendRequest → N → Attempt × N
unfolding session text has_lines
smtp_send smtp s request n =
    let message : SendParams = record {
      from_ = if s.sender == "" then s.user else s.sender;
      to = request.to ∷ [];
      subject = request.subject;
      text_ = request.body;
    } in
    let (answer, n') = and_next (smtp.connect s.host s.port n) (session smtp s message) in
    if bad_headers message request
    then (crashed "Header values may not contain linefeed or carriage return characters", n)
    else (of_session answer, n')

-- `s[:n]`
unfoldable pub prefix_of : ℕ → String → String
prefix_of zero s = S.[]
prefix_of (suc n) S.[] = S.[]
prefix_of (suc n) (S.◌∷◌ c s) = S.◌∷◌ c (prefix_of n s)

abbrev pub of_write : SendRequest → Option String → Attempt
of_write request none = returned (record (send_result sent) {
  provider_id = some (text ("mock-" ∷ prefix_of 12 request.mismatch_key ∷ []));
})
of_write request (some e) = crashed e

-- `MockNotifier.send`: `write` adds the line for a request to the outbox, or gives what that raises.
unfoldable pub mock_send :
    {N : Type 0} → (SendRequest → N → Option String × N) → SendRequest → N → Attempt × N
unfolding prefix_of text
mock_send write request n = let (e, n') = write request n in (of_write request e, n')

-- `settings.notifier`
pub data NotifierName : Type 0 where
  mock resend smtp_ : NotifierName

-- The settings and the libraries of the three notifiers.
pub record NotifierSettings (N : Type 0) : Type 0 where
  pub notifier : NotifierName
  pub write_line : SendRequest → N → Option String × N
  pub resend_api_key : String
  pub resend_from : String
  pub resend_sdk : SendParams → N → SdkAnswer × N
  pub smtp_library : Smtp N
  pub smtp_settings : SmtpSettings

abbrev pub notifier_for :
    {N : Type 0} → NotifierSettings N → NotifierName → Result (SendRequest → N → Attempt × N)
notifier_for s mock = ok (mock_send s.write_line)
notifier_for s resend =
    if s.resend_api_key == ""
    then raise value_error
    else ok (resend_send s.resend_sdk s.resend_from)
notifier_for s smtp_ = ok (smtp_send s.smtp_library s.smtp_settings)

-- `build_notifier`, by its method `send`.
unfoldable pub build_notifier :
    {N : Type 0} → NotifierSettings N → Result (SendRequest → N → Attempt × N)
unfolding mock_send resend_send smtp_send
build_notifier s = notifier_for s s.notifier
