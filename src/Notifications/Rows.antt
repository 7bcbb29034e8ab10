-- ===== src/Notifications/Rows.antt =====
-- The notification table has one row for a key and an address, and a dispatch leaves the other tables
-- alone (src/reconcile/notifications/service.py, src/reconcile/audit/idempotency.py).
use retail_reconciliation_ag.Prelude.{
  String, List, [], ◌∷◌, Bool, true, false, ◌||◌, Result, ok, raise, ◌≡◌, refl, arith, string_eq,
  ◌∙◌, inl, inr, Bool-cases,
}
use retail_reconciliation_ag.Domain.Enums.{
  RecipientRole, notification_status_enum, notification_status_eq, recipient_role_enum,
}
use retail_reconciliation_ag.Audit.Tables.{NotificationLog}
use retail_reconciliation_ag.Audit.Idempotency.{
  already_notified, is_for, record_row, record_notification,
}
use retail_reconciliation_ag.Notifications.Service.{
  SendResult, Transport, Mailbox, record_result, dispatch,
}
use retail_reconciliation_ag.Notifications.Delivery.{Call, run_call, is_for-eq, is_for-keys}

-- Some row is for the key and the address.
unfoldable pub any_for : String → String → List NotificationLog → Bool
unfolding is_for
any_for key email [] = false
any_for key email (row ∷ rows) = is_for key email row || any_for key email rows

-- `uq_notification_recipient`: no two rows have the same key and address.
abbrev pub HasOneRowEach : List NotificationLog → Type 0
HasOneRowEach [] = Unit
HasOneRowEach (row ∷ rows) =
    (any_for row.mismatch_key row.recipient_email rows ≡ false) × HasOneRowEach rows

or_self_left : (a b : Bool) → (a || b) ≡ ((a || b) || a)
or_self_left a b = ground arith

or_assoc_lem : (a b c : Bool) → (a || (b || c)) ≡ ((a || b) || c)
or_assoc_lem a b c = ground arith

any_for-record_row :
    (key email : String) (new : NotificationLog) (rows : List NotificationLog)
    → any_for key email (record_row new rows) ≡ (any_for key email rows || is_for key email new)
unfolding any_for record_row
any_for-record_row key email new [] = ground arith
any_for-record_row key email new (row ∷ rows) =
    elim (Bool-cases (is_for new.mismatch_key new.recipient_email row)) [
      | inl same ↦
          rw (same, is_for-eq key email new row same)
            (or_self_left (is_for key email new) (any_for key email rows))
      | inr other ↦
          rw (other, any_for-record_row key email new rows)
            (or_assoc_lem (is_for key email row) (any_for key email rows) (is_for key email new))
    ]

is_for_comm :
    (new row : NotificationLog)
    → is_for new.mismatch_key new.recipient_email row
      ≡ is_for row.mismatch_key row.recipient_email new
unfolding is_for
is_for_comm new row = ground arith

any_for-eq :
    (new row : NotificationLog) (rows : List NotificationLog)
    → is_for new.mismatch_key new.recipient_email row ≡ true
    → any_for new.mismatch_key new.recipient_email rows
      ≡ any_for row.mismatch_key row.recipient_email rows
any_for-eq new row rows h =
    let keys : (row.mismatch_key ≡ new.mismatch_key) × (row.recipient_email ≡ new.recipient_email) =
      is_for-keys new.mismatch_key new.recipient_email row h in
    cc

record_row-HasOneRowEach :
    (new : NotificationLog) (rows : List NotificationLog)
    → HasOneRowEach rows
    → HasOneRowEach (record_row new rows)
unfolding record_row
record_row-HasOneRowEach new [] h = (unfold any_for in refl, tt)
record_row-HasOneRowEach new (row ∷ rows) h =
    elim (Bool-cases (is_for new.mismatch_key new.recipient_email row)) [
      | inl same ↦ rw same (any_for-eq new row rows same ∙ h.0, h.1)
      | inr other ↦ rw other (
        any_for-record_row row.mismatch_key row.recipient_email new rows
            ∙ ground (arith, h.0, is_for_comm new row),
        record_row-HasOneRowEach new rows h.1,
      )
    ]

module _ {N : Type 0} (t : Transport N) where
  record_result-HasOneRowEach :
      (run_id key : String) (role : RecipientRole) (email : String) (result : Result SendResult)
      → (mailbox : Mailbox N) → HasOneRowEach mailbox.db.notification_log
      → HasOneRowEach (record_result t run_id key role email result mailbox).1.db.notification_log
  unfolding record_result record_notification
  record_result-HasOneRowEach run_id key role email (ok result) mailbox h =
      record_row-HasOneRowEach _ mailbox.db.notification_log h
  record_result-HasOneRowEach run_id key role email (raise e) mailbox h = h

  record_result-run_log :
      (run_id key : String) (role : RecipientRole) (email : String) (result : Result SendResult)
      → (mailbox : Mailbox N)
      → (record_result t run_id key role email result mailbox).1.db.run_log ≡ mailbox.db.run_log
  unfolding record_result record_notification
  record_result-run_log run_id key role email (ok result) mailbox = refl
  record_result-run_log run_id key role email (raise e) mailbox = refl

  -- A call of `dispatch` keeps the notification table at one row for a key and address.
  pub run_call-HasOneRowEach :
      (c : Call) (mailbox : Mailbox N)
      → HasOneRowEach mailbox.db.notification_log
      → HasOneRowEach (run_call t c mailbox).1.db.notification_log
  unfolding run_call dispatch
  run_call-HasOneRowEach c mailbox h =
      elim (Bool-cases (already_notified mailbox.db c.mismatch_key c.email)) [
        | inl same ↦ rw same h
        | inr other ↦ rw other (record_result-HasOneRowEach _ _ _ _ _ _ h)
      ]

  pub run_call-run_log :
      (c : Call) (mailbox : Mailbox N) → (run_call t c mailbox).1.db.run_log ≡ mailbox.db.run_log
  unfolding run_call dispatch
  run_call-run_log c mailbox =
      elim (Bool-cases (already_notified mailbox.db c.mismatch_key c.email)) [
        | inl same ↦ rw same refl
        | inr other ↦ rw other (record_result-run_log _ _ _ _ _ _)
      ]
