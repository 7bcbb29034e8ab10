-- ===== src/Audit/Idempotency.antt =====
-- src/reconcile/audit/idempotency.py
use retail_reconciliation_ag.Prelude.{
  String, List, [], ◌∷◌, Option, none, some, Bool, false, ◌&&◌, ◌||◌, ◌==◌, string_eq, option_eq,
  if◌then◌else◌,
}
use retail_reconciliation_ag.Domain.Enums.{
  RecipientRole, NotificationStatus, value, sent, recipient_role_enum, notification_status_enum,
}
use retail_reconciliation_ag.Audit.Tables.{RunLog, NotificationLog, Database}

-- The row is for the key and the address.
unfoldable pub is_for : String → String → NotificationLog → Bool
is_for key email row = (row.mismatch_key == key) && (row.recipient_email == email)

unfoldable pub any_sent : String → String → List NotificationLog → Bool
unfolding is_for
any_sent key email [] = false
any_sent key email (row ∷ rows) =
    (is_for key email row && (row.status == value sent)) || any_sent key email rows

unfoldable pub already_notified : Database → String → String → Bool
unfolding any_sent
already_notified db mismatch_key recipient_email =
    any_sent mismatch_key recipient_email db.notification_log

-- The row of an attempt, with the channel that every caller leaves at its default.
abbrev pub notification_row :
    String → String → RecipientRole → String → NotificationStatus → Option String → NotificationLog
notification_row run_id mismatch_key role email status error = record {
  run_id = run_id;
  mismatch_key = mismatch_key;
  recipient_role = value role;
  recipient_email = email;
  channel = "EMAIL";
  status = value status;
  error = error;
}

-- The first row for the key and the address becomes the given one; without one it is added.
unfoldable pub record_row : NotificationLog → List NotificationLog → List NotificationLog
unfolding is_for
record_row new [] = new ∷ []
record_row new (row ∷ rows) =
    let rest = record_row new rows in
    if is_for new.mismatch_key new.recipient_email row then new ∷ rows else row ∷ rest

unfoldable pub record_notification :
    String
    → String
    → RecipientRole
    → String
    → NotificationStatus
    → Option String
    → Database
    → Database
unfolding record_row
record_notification run_id mismatch_key recipient_role recipient_email status error db = record db {
  notification_log =
      record_row (notification_row run_id mismatch_key recipient_role recipient_email status error)
        db.notification_log;
}

-- `find_completed_run_by_hash`: the rows stand in the order of their start, so the last is newest.
latest_completed : String → List RunLog → Option RunLog
latest_completed input_hash [] = none
latest_completed input_hash (run ∷ runs) = elim (latest_completed input_hash runs) [
  | some newer ↦ some newer
  | none ↦
      if (run.input_hash == some input_hash) && (run.status == "completed") then some run else none
]

unfoldable pub find_completed_run_by_hash : Database → String → Option RunLog
unfolding latest_completed
find_completed_run_by_hash db input_hash = latest_completed input_hash db.run_log
