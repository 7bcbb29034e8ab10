-- ===== src/Agent/Outcomes.antt =====
-- A run that starts always ends, with its outcome in the table of runs
-- (src/reconcile/agent/service.py, src/reconcile/incidents/service.py).
use retail_reconciliation_ag.Prelude.{
  ℕ, String, List, [], ◌∷◌, ◌++◌, length, Option, none, some, Bool, not, ◌&&◌, ◌==◌, string_eq,
  Result, ok, raise, ◌≡◌, ◌≢◌, refl, arith, ◌⊎◌, inl, inr, Bool-cases, ap, ◌∙◌, text,
}
use retail_reconciliation_ag.Prelude.Dict.{Dict}
use retail_reconciliation_ag.Domain.Enums.{value, RecipientRole}
use retail_reconciliation_ag.Domain.Records.{Order, Settlement}
use retail_reconciliation_ag.Reconciliation.Obligations.{ObligationBuildResult}
use retail_reconciliation_ag.Reconciliation.Building.{build_obligations_lem}
use retail_reconciliation_ag.Audit.Tables.{Json, RunLog, Database}
use retail_reconciliation_ag.Audit.Repository.{
  find_run, get_run, start_run, finish_rows, finish_run,
}
use retail_reconciliation_ag.Notifications.Service.{Transport, Mailbox}
use retail_reconciliation_ag.Notifications.Delivery.{Call, run_call}
use retail_reconciliation_ag.Notifications.Rows.{run_call-run_log}
use retail_reconciliation_ag.Incidents.{
  Incident, IncidentService, incident_severity_enum, mail_admin, raise_incident,
  incident_email_body,
}
use retail_reconciliation_ag.Agent.State.{ReconciliationState, AgentDependencies}
use retail_reconciliation_ag.Agent.Graph.{run_graph}
use retail_reconciliation_ag.Agent.Runs.{run_graph-run_log}
use retail_reconciliation_ag.Agent.Service.{
  RunOutcome, build_outcome, initial_state, handle_failure, conclude, run_started, run_built, run,
}

find_run-append :
    (run_id : String) (runs : List RunLog) (row : RunLog)
    → find_run run_id runs ≡ none
    → row.id ≡ run_id
    → find_run run_id (runs ++ row ∷ []) ≡ some row
unfolding find_run
find_run-append run_id [] row h k = ground arith
find_run-append run_id (r ∷ runs) row h k = ground (arith, find_run-append run_id runs row)

find_run-finish_rows :
    (run_id status : String) (summary : Option (Dict String Json)) (runs : List RunLog)
    (row : RunLog)
    → find_run run_id runs ≡ some row
    → find_run run_id (finish_rows run_id status summary runs)
      ≡ some (record row { status = status; summary_json = summary })
unfolding find_run finish_rows
find_run-finish_rows run_id status summary [] row h = ground arith
find_run-finish_rows run_id status summary (r ∷ runs) row h =
    ground (arith, find_run-finish_rows run_id status summary runs row)

module _ {N : Type 0} (service : IncidentService N) where
  -- The arguments that `_notify_admin` gives to `dispatch`.
  admin_call : Incident → Call
  unfolding incident_email_body text
  admin_call incident = record {
    run_id = incident.run_id;
    mismatch_key = text ("incident:" ∷ incident.incident_id ∷ []);
    role = RecipientRole.admin;
    email = service.admin_email;
    subject =
        text (
          "[" ∷ value incident.severity ∷ "] Reconciliation incident " ∷ incident.incident_id ∷ []);
    body = incident_email_body incident;
  }

  mail_admin-run_log :
      (notifications : Option (Transport N)) (incident : Incident) (mailbox : Mailbox N)
      → (mail_admin service notifications incident mailbox).db.run_log ≡ mailbox.db.run_log
  unfolding mail_admin run_call admin_call
  mail_admin-run_log none incident mailbox = refl
  mail_admin-run_log (some t) incident mailbox =
      elim (Bool-cases (service.best_effort_email && not (service.admin_email == ""))) [
        | inl mails ↦ rw mails (run_call-run_log t (admin_call incident) mailbox)
        | inr quiet ↦ rw quiet refl
      ]

-- What a caller of `run` can rely on: the row of the run says how it ended.
pub record IsConcluded {N : Type 0} (run_id : String) (outcome : RunOutcome) (mailbox : Mailbox N)
    : Type 0 where
  pub row : RunLog
  pub found : get_run mailbox.db run_id ≡ some row
  pub same_status : row.status ≡ outcome.status
  pub ended :
      ((outcome.status ≡ "completed") × (outcome.incident_id ≡ none))
      ⊎ ((outcome.status ≡ "failed") × (outcome.incident_id ≢ none))

module _ {N : Type 0} (deps : AgentDependencies N) (incidents : IncidentService N) where
  conclude-IsConcluded :
      (run_id : String) (n m : ℕ) (r : Result ReconciliationState) (mailbox : Mailbox N)
      (row : RunLog)
      → find_run run_id mailbox.db.run_log ≡ some row
      → IsConcluded run_id
          (conclude deps incidents run_id n m (r, mailbox)).0
          (conclude deps incidents run_id n m (r, mailbox)).1
  unfolding conclude handle_failure finish_run build_outcome raise_incident
  conclude-IsConcluded run_id n m (ok final) mailbox row h = record {
    row = _;
    found = find_run-finish_rows run_id "completed" (some final.summary) mailbox.db.run_log row h;
    same_status = refl;
    ended = inl (refl, refl);
  }
  conclude-IsConcluded run_id n m (raise exc) mailbox row h = record {
    row = _;
    found =
        find_run-finish_rows run_id "failed" _ _ row
          (ap (find_run run_id) (mail_admin-run_log incidents _ _ _) ∙ h);
    same_status = refl;
    ended = inr (refl, ground arith);
  }

  run_started-IsConcluded :
      (run_id : String) (as_of : ℕ) (dry_run : Bool) (orders : List Order)
      → (settlements : List Settlement) (built : ObligationBuildResult) (db : Database)
      → (mailbox : Mailbox N) (row : RunLog) → find_run run_id db.run_log ≡ some row
      → (outcome : RunOutcome) × (mailbox' : Mailbox N) × (run_started deps incidents run_id as_of
            dry_run orders settlements built
            (ok db)
            mailbox
          ≡ (ok outcome, mailbox'))
        × IsConcluded run_id outcome mailbox'
  unfolding run_started
  run_started-IsConcluded run_id as_of dry_run orders settlements built db mailbox row h =
      let final =
        run_graph deps (initial_state run_id as_of dry_run settlements built)
          (record mailbox { db = db }) in
      (
        _,
        _,
        refl,
        conclude-IsConcluded run_id (length orders) (length settlements) final.0 final.1 row (
            ap (find_run run_id) (
              run_graph-run_log deps (initial_state run_id as_of dry_run settlements built)
                (record mailbox { db = db }))
            ∙ h),
      )

  pub start_run-found :
      (run_id : String) (input_hash : Option String) (n m : ℕ) (db : Database)
      → find_run run_id db.run_log ≡ none
      → (db' : Database) × (row : RunLog) × (start_run run_id input_hash n m db ≡ ok db')
        × (find_run run_id db'.run_log ≡ some row)
  unfolding start_run
  start_run-found run_id input_hash n m db h =
      rw (h, start_run) (_, _, refl, find_run-append run_id db.run_log _ h refl)

  -- A run under an id that is not taken returns, whatever the LLM, the mail provider and the libraries
  -- do. Its row in the table of runs then has the status of the outcome: "completed" without an
  -- incident, or "failed" with one.
  pub run-IsConcluded :
      (orders : List Order) (settlements : List Settlement) (run_id : String) (as_of : ℕ)
      → (input_hash : Option String) (dry_run : Bool) (mailbox : Mailbox N)
      → find_run run_id mailbox.db.run_log ≡ none
      → (outcome : RunOutcome) × (mailbox' : Mailbox N) × (run deps incidents orders settlements
            run_id as_of input_hash dry_run mailbox
          ≡ (ok outcome, mailbox'))
        × IsConcluded run_id outcome mailbox'
  unfolding run run_built
  run-IsConcluded orders settlements run_id as_of input_hash dry_run mailbox h =
      let (built, returned, _, _) =
        build_obligations_lem orders deps.config.reconciliation.amount_tolerance in
      let (db, row, started, found) =
        start_run-found run_id input_hash (length orders) (length settlements) mailbox.db h in
      rw (returned, started)
        (run_started-IsConcluded run_id as_of dry_run orders settlements built db mailbox row found)
