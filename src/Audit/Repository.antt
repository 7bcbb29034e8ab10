-- ===== src/Audit/Repository.antt =====
-- src/reconcile/audit/repository.py: what each method makes of the tables. An insertion with a
-- primary key that is taken fails when the session is committed.
use retail_reconciliation_ag.Prelude.{
  ℕ, String, List, [], ◌∷◌, ◌++◌, Option, none, some, filter, Result, ok, raise, other, ◌==◌,
  string_eq, if◌then◌else◌,
}
use retail_reconciliation_ag.Prelude.Dict.{Dict}
use retail_reconciliation_ag.Audit.Tables.{
  Json, RunLog, AuditLog, NotificationLog, ExceptionLog, Database,
}

-- `session.get(RunLog, run_id)`
unfoldable pub find_run : String → List RunLog → Option RunLog
find_run run_id [] = none
find_run run_id (run ∷ runs) =
    let rest = find_run run_id runs in if run.id == run_id then some run else rest

abbrev pub get_run : Database → String → Option RunLog
get_run db run_id = find_run run_id db.run_log

unfoldable pub start_run : String → Option String → ℕ → ℕ → Database → Result Database
unfolding find_run
start_run run_id input_hash orders_count settlements_count db = elim (find_run run_id db.run_log) [
  | some run ↦ raise (other "UNIQUE constraint failed: run_log.id")
  | none ↦ ok (record db {
    run_log =
        db.run_log
        ++ record {
          id = run_id;
          status = "running";
          input_hash = input_hash;
          orders_count = orders_count;
          settlements_count = settlements_count;
          summary_json = none;
        }
          ∷ [];
  })
]

unfoldable pub finish_rows : String → String → Option (Dict String Json) → List RunLog → List RunLog
finish_rows run_id status summary [] = []
finish_rows run_id status summary (run ∷ runs) =
    let rest = finish_rows run_id status summary runs in
    if run.id == run_id
    then record run { status = status; summary_json = summary } ∷ runs
    else run ∷ rest

unfoldable pub finish_run : String → String → Option (Dict String Json) → Database → Database
unfolding finish_rows
finish_run run_id status summary db = record db {
  run_log = finish_rows run_id status summary db.run_log;
}

unfoldable pub log_event : AuditLog → Database → Database
log_event event db = record db { audit_log = db.audit_log ++ event ∷ [] }

abbrev pub audit_event : String → String → AuditLog
audit_event run_id event_type = record {
  run_id = run_id;
  order_id = none;
  event_type = event_type;
  action = none;
  reason = none;
  status = none;
  details = none;
}

-- `session.get(ExceptionLog, mismatch_key)`, as `get_open_exception` calls it too.
unfoldable pub find_exception : String → List ExceptionLog → Option ExceptionLog
find_exception key [] = none
find_exception key (row ∷ rows) =
    let rest = find_exception key rows in if row.mismatch_key == key then some row else rest

-- The update of an existing row, or the insertion of a new one.
unfoldable pub upsert_rows :
    String → String → String → String → List ExceptionLog → List ExceptionLog
upsert_rows key run_id reason status [] =
    record { mismatch_key = key; run_id = run_id; reason = reason; status = status } ∷ []
upsert_rows key run_id reason status (row ∷ rows) =
    let rest = upsert_rows key run_id reason status rows in
    if row.mismatch_key == key
    then record row { run_id = run_id; reason = reason; status = status } ∷ rows
    else row ∷ rest

unfoldable pub upsert_exception : String → String → String → String → Database → Database
unfolding upsert_rows
upsert_exception mismatch_key run_id reason status db = record db {
  exception_log = upsert_rows mismatch_key run_id reason status db.exception_log;
}

unfoldable pub list_events : Database → String → List AuditLog
list_events db run_id = filter (λ event. event.run_id == run_id) db.audit_log

unfoldable pub list_notifications : Database → String → List NotificationLog
list_notifications db run_id = filter (λ row. row.run_id == run_id) db.notification_log
