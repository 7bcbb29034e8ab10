-- ===== src/Agent/Service.antt =====
-- src/reconcile/agent/service.py
use retail_reconciliation_ag.Prelude.{
  ℕ, String, List, [], ◌∷◌, length, Option, none, some, Bool, Result, ok, raise, Error, string_eq,
  show_money,
}
use retail_reconciliation_ag.Prelude.Dict.{Dict}
use retail_reconciliation_ag.Prelude.Effects.{Exec}
use retail_reconciliation_ag.Domain.Enums.{
  value, payment_type_enum, obligation_status_enum, sla_status_enum, exception_reason_enum,
  planner_action_enum,
}
use retail_reconciliation_ag.Domain.Records.{Order, Settlement, ExceptionRecord}
use retail_reconciliation_ag.Reconciliation.Obligations.{ObligationBuildResult, build_obligations}
use retail_reconciliation_ag.Audit.Tables.{Json, string, Database}
use retail_reconciliation_ag.Audit.Repository.{start_run, finish_run}
use retail_reconciliation_ag.Notifications.Service.{Mailbox}
use retail_reconciliation_ag.Incidents.{IncidentService, planner_error, raise_incident}
use retail_reconciliation_ag.Agent.Schemas.{ExceptionDecision, EmailMessageView, severity_enum}
use retail_reconciliation_ag.Agent.State.{ReconciliationState, AgentDependencies, commit}
use retail_reconciliation_ag.Agent.Graph.{run_graph}

-- `ExceptionView` (src/reconcile/agent/schemas.py)
pub record ExceptionView : Type 0 where
  pub reason : String
  pub status : String
  pub order_id : Option String
  pub settlement_id : Option String
  pub payment_type : Option String
  pub expected_amount : Option String
  pub actual_amount : Option String
  pub sla_status : String
  pub severity : String
  pub action : String
  pub rationale : String

pub record RunOutcome : Type 0 where
  pub run_id : String
  pub status : String
  pub orders_count : ℕ
  pub settlements_count : ℕ
  pub summary : Dict String Json
  pub emails : List EmailMessageView
  pub exceptions : List ExceptionView
  pub fuzzy_auto_applied : ℕ
  pub incident_id : Option String

-- `f(x) if x is not None else None`
abbrev map_option {ℓ} : {A B : Type ℓ} → (A → B) → Option A → Option B
map_option f none = none
map_option f (some a) = some (f a)

unfoldable pub exception_view : ExceptionRecord → ExceptionDecision → ExceptionView
unfolding show_money
exception_view exception decision = record {
  reason = value exception.reason;
  status = value exception.status;
  order_id = exception.order_id;
  settlement_id = exception.settlement_id;
  payment_type = map_option (λ p. value p) exception.payment_type;
  expected_amount = map_option show_money exception.expected_amount;
  actual_amount = map_option show_money exception.actual_amount;
  sla_status = value exception.sla_status;
  severity = value decision.severity;
  action = value decision.action;
  rationale = decision.rationale;
}

-- The comprehension of `_build_outcome`, which stops at the end of the shorter list.
unfoldable pub views : List ExceptionRecord → List ExceptionDecision → List ExceptionView
unfolding exception_view
views (exception ∷ exceptions) (decision ∷ decisions) =
    exception_view exception decision ∷ views exceptions decisions
views _ _ = []

unfoldable pub build_outcome : String → String → ℕ → ℕ → ReconciliationState → RunOutcome
unfolding views
build_outcome run_id status orders_count settlements_count final = record {
  run_id = run_id;
  status = status;
  orders_count = orders_count;
  settlements_count = settlements_count;
  summary = final.summary;
  emails = final.emails;
  exceptions = views final.exceptions final.decisions;
  fuzzy_auto_applied = length final.fuzzy_auto_applied;
  incident_id = none;
}

-- The state that `run` starts the graph with.
abbrev pub initial_state :
    String → ℕ → Bool → List Settlement → ObligationBuildResult → ReconciliationState
initial_state run_id as_of dry_run settlements built = record {
  run_id = run_id;
  as_of_date = as_of;
  dry_run = dry_run;
  obligations = built.obligations;
  settlements = settlements;
  order_sum_exceptions = built.order_sum_exceptions;
  matched = [];
  unmatched_obligations = [];
  unmatched_settlements = [];
  fuzzy_auto_applied = [];
  exceptions = [];
  decisions = [];
  emails = [];
  current_keys = [];
  summary = [];
}

module _ {N : Type 0} (deps : AgentDependencies N) (incidents : IncidentService N) where
  unfoldable pub handle_failure : String → Error → ℕ → ℕ → Mailbox N → RunOutcome × Mailbox N
  unfolding raise_incident finish_run
  handle_failure run_id exc orders_count settlements_count mailbox =
      let (incident, mailbox') =
        raise_incident incidents run_id planner_error (deps.str_error exc) none
          (some "Inspect the run's audit log and inputs; re-run after fixing.") mailbox in
      (
        record {
          run_id = run_id;
          status = "failed";
          orders_count = orders_count;
          settlements_count = settlements_count;
          summary = [];
          emails = [];
          exceptions = [];
          fuzzy_auto_applied = 0;
          incident_id = some incident.incident_id;
        },
        commit
            (finish_run run_id "failed" (
              some (
                ("error", string (deps.str_error exc))
                ∷ ("incident", string incident.incident_id)
                ∷ [])))
            mailbox',
      )

  -- The `try` of `run` and what follows it.
  unfoldable pub conclude :
      String → ℕ → ℕ → Result ReconciliationState × Mailbox N → RunOutcome × Mailbox N
  unfolding handle_failure build_outcome finish_run
  conclude run_id orders_count settlements_count (raise exc, mailbox) =
      handle_failure run_id exc orders_count settlements_count mailbox
  conclude run_id orders_count settlements_count (ok final, mailbox) = (
    build_outcome run_id "completed" orders_count settlements_count final,
    commit (finish_run run_id "completed" (some final.summary)) mailbox,
  )

  -- `run` from `_start_run` on.
  unfoldable pub run_started :
      String
      → ℕ
      → Bool
      → List Order
      → List Settlement
      → ObligationBuildResult
      → Result Database
      → Exec (Mailbox N) RunOutcome
  unfolding conclude run_graph
  run_started run_id as_of dry_run orders settlements built (raise e) mailbox = (raise e, mailbox)
  run_started run_id as_of dry_run orders settlements built (ok db) mailbox =
      let (outcome, mailbox') = conclude run_id (length orders) (length settlements) (
        run_graph deps (initial_state run_id as_of dry_run settlements built)
          (record mailbox { db = db })) in
      (ok outcome, mailbox')

  unfoldable pub run_built :
      String
      → ℕ
      → Option String
      → Bool
      → List Order
      → List Settlement
      → Result ObligationBuildResult
      → Exec (Mailbox N) RunOutcome
  unfolding run_started start_run
  run_built run_id as_of input_hash dry_run orders settlements (raise e) mailbox =
      (raise e, mailbox)
  run_built run_id as_of input_hash dry_run orders settlements (ok built) mailbox =
      run_started run_id as_of dry_run orders settlements built
        (start_run run_id input_hash (length orders) (length settlements) mailbox.db) mailbox

  -- `run`, for the id and the date that its first lines choose.
  unfoldable pub run :
      List Order → List Settlement → String → ℕ → Option String → Bool → Exec (Mailbox N) RunOutcome
  unfolding build_obligations run_built
  run orders settlements run_id as_of input_hash dry_run =
      run_built run_id as_of input_hash dry_run orders settlements
        (build_obligations orders deps.config.reconciliation.amount_tolerance)
