-- ===== src/Api/Pages.antt =====
-- src/reconcile/api/routes.py: the requests that show a run.
use retail_reconciliation_ag.Prelude.{
  String, [], Option, none, some, ◌==◌, string_eq, or_else, if◌then◌else◌,
}
use retail_reconciliation_ag.Prelude.Dict.{get}
use retail_reconciliation_ag.Audit.Repository.{get_run, list_events, list_notifications}
use retail_reconciliation_ag.Agent.Service.{RunOutcome}
use retail_reconciliation_ag.Api.Registry.{RunRecord, record_state}
use retail_reconciliation_ag.Api.Progress.{compute_progress}
use retail_reconciliation_ag.Api.Routes.{
  Web, Response, progress_page, results, error_page, progress_info, run_info, http_error,
}

-- The page for a run that failed.
abbrev pub failed_page : RunRecord → Response
failed_page record_ = error_page 500 (or_else record_.error "The run failed unexpectedly.") [] none

abbrev pub outcome_page : RunRecord → Option RunOutcome → Response
outcome_page record_ none = failed_page record_
outcome_page record_ (some outcome) = results outcome record_.demo

unfoldable pub page_of : String → Option RunRecord → Response
unfolding record_state
page_of run_id none = http_error 404 "Run not found."
page_of run_id (some record_) =
    if record_state record_ == "pending"
    then progress_page run_id record_.demo
    else if record_state record_ == "error"
    then failed_page record_
    else outcome_page record_ record_.outcome

module _ {N : Type 0} where
  -- `GET /results/{run_id}`
  unfoldable pub results_page : Web N → String → Response
  unfolding get page_of
  results_page web run_id = page_of run_id (get web.registry run_id)

  -- `GET /runs/{run_id}/progress`
  unfoldable pub run_progress : Web N → String → Response
  unfolding compute_progress
  run_progress web run_id = elim (compute_progress web.registry web.mailbox.db run_id) [
    | none ↦ http_error 404 "Run not found."
    | some info ↦ progress_info info
  ]

  -- `GET /runs/{run_id}`, without the time stamps.
  unfoldable pub run_detail : Web N → String → Response
  unfolding list_events list_notifications
  run_detail web run_id = elim (get_run web.mailbox.db run_id) [
    | none ↦ http_error 404 "Run not found."
    | some row ↦ run_info (record {
      run_row = row;
      events = list_events web.mailbox.db run_id;
      notifications = list_notifications web.mailbox.db run_id;
    })
  ]
