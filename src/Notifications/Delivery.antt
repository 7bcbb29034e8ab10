-- ===== src/Notifications/Delivery.antt =====
-- No notification is delivered twice (src/reconcile/notifications/service.py,
-- src/reconcile/audit/idempotency.py).
use retail_reconciliation_ag.Prelude.{
  String, List, [], ◌∷◌, some, Bool, true, false, ◌||◌, Result, ok, ◌==◌, ◌≡◌, refl, arith,
  string_eq, ◌∙◌, inl, inr, Bool-cases,
}
use retail_reconciliation_ag.Domain.Enums.{
  RecipientRole, NotificationStatus, value, sent, failed, skipped, notification_status_enum,
  notification_status_eq, recipient_role_enum,
}
use retail_reconciliation_ag.Audit.Tables.{NotificationLog}
use retail_reconciliation_ag.Audit.Idempotency.{
  already_notified, any_sent, is_for, record_row, record_notification,
}
use retail_reconciliation_ag.Notifications.Service.{
  SendResult, send_result, Transport, Mailbox, record_result, dispatch,
}

-- The row a new one replaces is for the same keys.
pub is_for-eq :
    (key email : String) (new row : NotificationLog)
    → is_for new.mismatch_key new.recipient_email row ≡ true
    → is_for key email row ≡ is_for key email new
unfolding is_for
is_for-eq key email new row h = ground arith

pub is_for-keys :
    (key email : String) (new : NotificationLog)
    → is_for key email new ≡ true
    → (new.mismatch_key ≡ key) × (new.recipient_email ≡ email)
unfolding is_for
is_for-keys key email new h = (ground arith, ground arith)

is_for_self : (row : NotificationLog) → is_for row.mismatch_key row.recipient_email row ≡ true
unfolding is_for
is_for_self row = ground arith

-- A row for another key or address changes nothing for this one.
any_sent-record_row_ne :
    (key email : String) (new : NotificationLog) (rows : List NotificationLog)
    → is_for key email new ≡ false
    → any_sent key email (record_row new rows) ≡ any_sent key email rows
unfolding any_sent record_row
any_sent-record_row_ne key email new [] h = ground arith
any_sent-record_row_ne key email new (row ∷ rows) h =
    ground (arith, any_sent-record_row_ne key email new rows h, is_for-eq key email new row)

-- A row for its own key and address decides alone, if no delivery is recorded yet.
any_sent-record_row_self :
    (new : NotificationLog) (rows : List NotificationLog)
    → any_sent new.mismatch_key new.recipient_email rows ≡ false
    → any_sent new.mismatch_key new.recipient_email (record_row new rows)
      ≡ (new.status == value sent)
unfolding any_sent record_row
any_sent-record_row_self new [] h = ground (arith, is_for_self new)
any_sent-record_row_self new (row ∷ rows) h =
    ground (arith, any_sent-record_row_self new rows, is_for_self new)

value-sent : (status : NotificationStatus) → (value status == value sent) ≡ (status == sent)
value-sent sent = refl
value-sent failed = refl
value-sent skipped = refl

any_sent-eq :
    (key email : String) (new : NotificationLog) (rows : List NotificationLog)
    → is_for key email new ≡ true
    → any_sent key email rows ≡ any_sent new.mismatch_key new.recipient_email rows
any_sent-eq key email new rows h =
    let keys : (new.mismatch_key ≡ key) × (new.recipient_email ≡ email) =
      is_for-keys key email new h in
    cc

-- A recorded delivery stays recorded, whatever row is recorded next for another key.
keeps_record :
    (key email : String) (new : NotificationLog) (rows : List NotificationLog)
    → any_sent key email rows ≡ true
    → any_sent new.mismatch_key new.recipient_email rows ≡ false
    → any_sent key email (record_row new rows) ≡ true
keeps_record key email new rows h k = elim (Bool-cases (is_for key email new)) [
  | inl same ↦ ground (arith, any_sent-eq key email new rows same)
  | inr differs ↦ any_sent-record_row_ne key email new rows differs ∙ h
]

-- The arguments of a call of `dispatch`.
pub record Call : Type 0 where
  pub run_id : String
  pub mismatch_key : String
  pub role : RecipientRole
  pub email : String
  pub subject : String
  pub body : String

or_true : (a b : Bool) → b ≡ true → (a || b) ≡ true
or_true a b h = ground arith

module _ {N : Type 0} (t : Transport N) where
  unfoldable pub run_call : Call → Mailbox N → Result SendResult × Mailbox N
  unfolding dispatch
  run_call c mailbox = dispatch t c.run_id c.mismatch_key c.role c.email c.subject c.body mailbox

  unfoldable pub run_calls : List Call → Mailbox N → Mailbox N
  unfolding run_call
  run_calls [] mailbox = mailbox
  run_calls (c ∷ cs) mailbox = run_calls cs ((run_call c mailbox).1)

  run_call-duplicate :
      (c : Call) (mailbox : Mailbox N)
      → already_notified mailbox.db c.mismatch_key c.email ≡ true
      → run_call c mailbox
        ≡ (ok (record (send_result skipped) { reason = some "duplicate" }), mailbox)
  unfolding run_call dispatch
  run_call-duplicate c mailbox h = ground arith

  pub run_call-keeps :
      (c : Call) (key email : String) (mailbox : Mailbox N)
      → already_notified mailbox.db key email ≡ true
      → already_notified (run_call c mailbox).1.db key email ≡ true
  unfolding run_call dispatch record_result already_notified record_notification
  run_call-keeps c key email mailbox h = grind (arith, keeps_record)

  run_calls-keeps :
      (cs : List Call) (key email : String) (mailbox : Mailbox N)
      → already_notified mailbox.db key email ≡ true
      → already_notified (run_calls cs mailbox).db key email ≡ true
  unfolding run_calls
  run_calls-keeps [] key email mailbox h = h
  run_calls-keeps (c ∷ cs) key email mailbox h =
      run_calls-keeps cs key email (run_call c mailbox).1 (run_call-keeps c key email mailbox h)

  run_call-outcome :
      (c : Call) (mailbox mailbox' : Mailbox N) (r : SendResult)
      → already_notified mailbox.db c.mismatch_key c.email ≡ false
      → run_call c mailbox ≡ (ok r, mailbox')
      → already_notified mailbox'.db c.mismatch_key c.email ≡ (r.status == sent)
  unfolding run_call dispatch record_result already_notified record_notification
  run_call-outcome c mailbox mailbox' r h k = grind (arith, any_sent-record_row_self, value-sent)

  -- A call of `dispatch` that returns leaves a delivery recorded for its key and address exactly if
  -- one was recorded before or the call returned SENT.
  pub run_call-recorded :
      (c : Call) (mailbox mailbox' : Mailbox N) (r : SendResult)
      → run_call c mailbox ≡ (ok r, mailbox')
      → already_notified mailbox'.db c.mismatch_key c.email
        ≡ (already_notified mailbox.db c.mismatch_key c.email || (r.status == sent))
  run_call-recorded c mailbox mailbox' r h =
      elim (Bool-cases (already_notified mailbox.db c.mismatch_key c.email)) [
        | inl before ↦ grind (arith, run_call-duplicate c mailbox before)
        | inr fresh ↦ ground (arith, run_call-outcome c mailbox mailbox' r fresh h)
      ]

  -- Once a call of `dispatch` has returned SENT, a call for the same key and address returns SKIPPED
  -- with the reason "duplicate" and reaches neither the tables nor the provider, whatever calls were
  -- made in between.
  pub no_second_delivery :
      (c again : Call) (between : List Call) (mailbox mailbox' : Mailbox N) (r : SendResult)
      → run_call c mailbox ≡ (ok r, mailbox')
      → r.status ≡ sent
      → again.mismatch_key ≡ c.mismatch_key
      → again.email ≡ c.email
      → run_call again (run_calls between mailbox') ≡ (
        ok (record (send_result skipped) { reason = some "duplicate" }),
        run_calls between mailbox',
      )
  no_second_delivery c again between mailbox mailbox' r h k key email =
      run_call-duplicate again (run_calls between mailbox') (
        rw (key, email)
          (run_calls-keeps between c.mismatch_key c.email mailbox' (
            run_call-recorded c mailbox mailbox' r h
            ∙ or_true _ (r.status == sent) (ground arith))))
