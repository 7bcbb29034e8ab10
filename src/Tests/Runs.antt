-- ===== src/Tests/Runs.antt =====
-- Whole runs, the registry and the progress on test data.
use retail_reconciliation_ag.Prelude.{
  ℕ, ◌≤◌, [], ◌∷◌, length, none, some, true, false, ◌≡◌, refl, ok, arith, ◌⊎◌,
}
use retail_reconciliation_ag.Audit.Tables.{AuditLog, Database, empty_database}
use retail_reconciliation_ag.Audit.Repository.{find_run, audit_event, log_event, list_events}
use retail_reconciliation_ag.Notifications.Service.{Mailbox}
use retail_reconciliation_ag.Incidents.{IncidentService}
use retail_reconciliation_ag.Agent.Service.{RunOutcome, run}
use retail_reconciliation_ag.Agent.Outcomes.{IsConcluded, run-IsConcluded}
use retail_reconciliation_ag.Api.Registry.{pending, start, state, start_lem}
use retail_reconciliation_ag.Api.Progress.{
  Progress, progress_of, highest_rank, run_events, percent_bounds, percent-log_event,
}
use retail_reconciliation_ag.Tests.{orders, settlements, deps, mailbox, counting}

abbrev pub incidents : IncidentService ℕ
incidents = record {
  new_incident_id = λ n. ("inc-1", n);
  admin_email = "admin@x";
  notification_service = some counting;
  best_effort_email = true;
}

run-IsConcluded_example :
    (outcome : RunOutcome) × (mailbox' : Mailbox ℕ) × (run deps incidents orders settlements "r1"
        110 none false mailbox
      ≡ (ok outcome, mailbox'))
    × IsConcluded "r1" outcome mailbox'
run-IsConcluded_example =
    run-IsConcluded deps incidents orders settlements "r1" 110 none false mailbox
      (unfold find_run in refl)

start_example :
    (length (start 1 "r2" false (("r1", pending true) ∷ [])) ≤ 1)
    × (state (start 1 "r2" false (("r1", pending true) ∷ [])) "r2" ≡ "pending")
start_example = start_lem 1 "r2" false (("r1", pending true) ∷ []) (omega arith) (omega arith)

abbrev matched_event : AuditLog
matched_event = audit_event "r1" "reconcile_completed"

abbrev running : Database
running = record empty_database {
  run_log =
      record {
        id = "r1";
        status = "running";
        input_hash = none;
        orders_count = 3;
        settlements_count = 3;
        summary_json = none;
      }
      ∷ [];
}

abbrev percent_at : ℕ → Progress
percent_at percent = record { status = "running"; percent = percent; done = false }

percent_bounds_example :
    (((percent_at 3).done ≡ true) × ((percent_at 3).percent ≡ 100))
    ⊎ (((percent_at 3).done ≡ false) × (3 ≤ (percent_at 3).percent) × ((percent_at 3).percent ≤ 90))
unfolding progress_of run_events list_events highest_rank find_run
percent_bounds_example = percent_bounds "pending" running "r1" (percent_at 3) refl

percent-log_event_example : 3 ≤ 15
unfolding progress_of run_events list_events highest_rank find_run log_event
percent-log_event_example =
    percent-log_event matched_event running "r1" (percent_at 3) (percent_at 15) refl refl
