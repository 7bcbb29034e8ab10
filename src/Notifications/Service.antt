-- ===== src/Notifications/Service.antt =====
-- src/reconcile/notifications/base.py, retry.py and service.py
use retail_reconciliation_ag.Prelude.{
  ℕ, String, Option, none, some, Bool, true, false, Result, ok, raise, other, if◌then◌else◌,
}
use retail_reconciliation_ag.Prelude.Effects.{Exec}
use retail_reconciliation_ag.Domain.Enums.{RecipientRole, NotificationStatus, failed, skipped}
use retail_reconciliation_ag.Audit.Tables.{Database}
use retail_reconciliation_ag.Audit.Idempotency.{already_notified, record_notification}

-- `request.channel` is left at its default.
pub record SendRequest : Type 0 where
  pub to : String
  pub subject : String
  pub body : String
  pub recipient_role : RecipientRole
  pub mismatch_key : String
  pub run_id : String

pub record SendResult : Type 0 where
  pub status : NotificationStatus
  pub provider_id : Option String
  pub error : Option String
  pub reason : Option String

abbrev pub send_result : NotificationStatus → SendResult
send_result status = record { status = status; provider_id = none; error = none; reason = none }

-- How a call of the notifier ends: it returns, or raises `CircuitBreakerError`,
-- `TransientNotifyError`, another `NotifyError`, or anything else.
pub data Attempt : Type 0 where
  returned : SendResult → Attempt
  circuit_open : Attempt
  transient permanent crashed : String → Attempt

-- `retry_on=TransientNotifyError`
abbrev pub is_transient : Attempt → Bool
is_transient (transient text) = true
is_transient _ = false

-- The libraries around the provider, over a state `N` of the provider and of the breaker:
-- `breaker_call send request` is pybreaker's `call`; `retrying attempts retry_on func` is tenacity's
-- `Retrying` with `stop_after_attempt` and `reraise`; `send` is the notifier.
pub record Transport (N : Type 0) : Type 0 where
  pub send : SendRequest → N → Attempt × N
  pub breaker_call : (SendRequest → N → Attempt × N) → SendRequest → N → Attempt × N
  pub retrying : ℕ → (Attempt → Bool) → (N → Attempt × N) → N → Attempt × N
  pub email_retry_attempts : ℕ

-- The two handlers of `_send`.
unfoldable pub handle_attempt : Attempt → Result SendResult
handle_attempt (returned result) = ok result
handle_attempt circuit_open = ok (record (send_result skipped) { reason = some "circuit_open" })
handle_attempt (transient text) = ok (record (send_result failed) { error = some text })
handle_attempt (permanent text) = ok (record (send_result failed) { error = some text })
handle_attempt (crashed text) = raise (other text)

-- The tables, and the state of the provider and of the breaker.
pub record Mailbox (N : Type 0) : Type 0 where
  pub db : Database
  pub provider : N

module _ {N : Type 0} (t : Transport N) where
  -- `call_with_retry`
  unfoldable pub call_with_retry : (N → Attempt × N) → N → Attempt × N
  call_with_retry func = t.retrying t.email_retry_attempts is_transient func

  unfoldable pub send_with_retry : SendRequest → N → Result SendResult × N
  unfolding handle_attempt call_with_retry
  send_with_retry request provider =
      let (attempt, provider') = call_with_retry (t.breaker_call t.send request) provider in
      (handle_attempt attempt, provider')

  -- What follows `_send` in `dispatch`.
  unfoldable pub record_result :
      String → String → RecipientRole → String → Result SendResult → Exec (Mailbox N) SendResult
  record_result run_id mismatch_key role email (ok result) mailbox = (
    ok result,
    record mailbox {
      db = record_notification run_id mismatch_key role email result.status result.error mailbox.db;
    },
  )
  record_result run_id mismatch_key role email (raise e) mailbox = (raise e, mailbox)

  unfoldable pub dispatch :
      String → String → RecipientRole → String → String → String → Exec (Mailbox N) SendResult
  unfolding record_result send_with_retry
  dispatch run_id mismatch_key role email subject body mailbox =
      let request : SendRequest = record {
        to = email;
        subject = subject;
        body = body;
        recipient_role = role;
        mismatch_key = mismatch_key;
        run_id = run_id;
      } in
      let (result, provider) = send_with_retry request mailbox.provider in
      if already_notified mailbox.db mismatch_key email
      then (ok (record (send_result skipped) { reason = some "duplicate" }), mailbox)
      else record_result run_id mismatch_key role email result
          (record mailbox { provider = provider })
