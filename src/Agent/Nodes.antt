-- ===== src/Agent/Nodes.antt =====
-- src/reconcile/agent/nodes.py: the nodes for matching, fuzzy matching, leftovers and decisions.
use retail_reconciliation_ag.Prelude.{
  String, List, [], ◌∷◌, ◌++◌, map, some, Bool, ◌==◌, length, Result, ok, raise,
}
use retail_reconciliation_ag.Prelude.Dict.{values}
use retail_reconciliation_ag.Prelude.Effects.{Exec, pure, ◌>>=◌}
use retail_reconciliation_ag.Domain.Enums.{
  value, SlaStatus, sla_status_eq, planner_action_enum, exception_reason_enum,
}
use retail_reconciliation_ag.Domain.Records.{ExceptionRecord}
use retail_reconciliation_ag.Reconciliation.Matcher.{KeyMatchResult, reconcile_keys}
use retail_reconciliation_ag.Reconciliation.Leftovers.{classify_leftovers}
use retail_reconciliation_ag.Audit.Tables.{number, flag, string, AuditLog, Database}
use retail_reconciliation_ag.Audit.Repository.{log_event, audit_event}
use retail_reconciliation_ag.Notifications.Service.{Mailbox}
use retail_reconciliation_ag.Agent.Schemas.{
  severity_enum, ExceptionDecision, FuzzyPairing, FuzzyProposal,
}
use retail_reconciliation_ag.Agent.Planner.{PlannedAction, plan_action}
use retail_reconciliation_ag.Agent.Fuzzy.{FuzzyEvent, Pairings, apply_proposal}
use retail_reconciliation_ag.Agent.State.{ReconciliationState, AgentDependencies, outside, commit}

-- A session that adds the events and commits.
unfoldable pub log_events : List AuditLog → Database → Database
unfolding log_event
log_events [] db = db
log_events (event ∷ events) db = log_events events (log_event event db)

abbrev pub is_within_sla : ExceptionRecord → Bool
is_within_sla exception = exception.sla_status == SlaStatus.within_sla

module _ {N : Type 0} (deps : AgentDependencies N) where
  -- What `reconcile_node` does with the result of `reconcile_keys`.
  unfoldable pub reconcile_update :
      ReconciliationState → Result KeyMatchResult → Exec (Mailbox N) ReconciliationState
  unfolding log_event
  reconcile_update state (raise e) mailbox = (raise e, mailbox)
  reconcile_update state (ok result) mailbox = (
    ok (record state {
      matched = result.matched;
      exceptions = state.order_sum_exceptions ++ result.exceptions;
      unmatched_obligations = result.unmatched_obligations;
      unmatched_settlements = result.unmatched_settlements;
      fuzzy_auto_applied = [];
    }),
    commit
        (log_event (record (audit_event state.run_id "reconcile_completed") {
          status = some "ok";
          details = some (
              ("matched", number (length result.matched))
              ∷ ("key_exceptions", number (length result.exceptions))
              ∷ ("unmatched_obligations", number (length result.unmatched_obligations))
              ∷ ("unmatched_settlements", number (length result.unmatched_settlements))
              ∷ []);
        }))
        mailbox,
  )

  unfoldable pub reconcile_node : ReconciliationState → Exec (Mailbox N) ReconciliationState
  unfolding reconcile_update
  reconcile_node state = reconcile_update state (
      reconcile_keys state.obligations state.settlements
        deps.config.reconciliation.amount_tolerance)

  -- The `try` of `fuzzy_node`: the pairings, and the event of a call that failed.
  unfoldable pub proposed : String → Result FuzzyProposal → List FuzzyPairing × List AuditLog
  proposed run_id (ok proposal) = (proposal.pairings, [])
  proposed run_id (raise e) = (
    [],
    record (audit_event run_id "fuzzy_match_skipped") {
      status = some "degraded";
      details = some (("error", string (deps.str_error e)) ∷ []);
    }
        ∷ [],
  )

  abbrev pub fuzzy_log : String → FuzzyEvent → AuditLog
  fuzzy_log run_id event = record (audit_event run_id event.event_type) {
    order_id = some event.order_id;
    details = some (("rationale", string event.detail) ∷ []);
  }

  unfoldable pub fuzzy_node : ReconciliationState → Exec (Mailbox N) ReconciliationState
  unfolding outside proposed apply_proposal log_events
  fuzzy_node state mailbox =
      let (proposal, mailbox') =
        outside (deps.llm.propose_fuzzy state.unmatched_obligations state.unmatched_settlements)
          mailbox in
      let (pairings, degraded) = proposed state.run_id proposal in
      let applied : Pairings =
        apply_proposal deps.config.fuzzy_match pairings state.unmatched_obligations
          state.unmatched_settlements state.matched state.exceptions in
      (
        ok (record state {
          matched = applied.matched;
          exceptions = applied.exceptions;
          unmatched_obligations = values applied.obl_by_order;
          unmatched_settlements = values applied.settle_by_id;
          fuzzy_auto_applied = applied.auto_applied;
        }),
        commit (log_events (degraded ++ map (fuzzy_log state.run_id) applied.events)) mailbox',
      )

  unfoldable pub classify_node : ReconciliationState → Exec (Mailbox N) ReconciliationState
  unfolding classify_leftovers log_event
  classify_node state mailbox =
      let leftovers =
        classify_leftovers state.unmatched_obligations state.unmatched_settlements
          deps.config.reconciliation.sla_grace_days state.as_of_date in
      let exceptions = state.exceptions ++ leftovers in
      (
        ok (record state { exceptions = exceptions }),
        commit
            (log_event (record (audit_event state.run_id "exceptions_finalized") {
              status = some "ok";
              details = some (("total_exceptions", number (length exceptions)) ∷ []);
            }))
            mailbox,
      )

  -- The decision that the planner makes of a proposed one.
  unfoldable pub final_decision : ExceptionRecord → ExceptionDecision → ExceptionDecision
  unfolding plan_action
  final_decision exception proposed = record proposed {
    action = (plan_action proposed deps.config.planner (is_within_sla exception)).action;
  }

  -- The event of a decision.
  unfoldable pub decision_event : String → ExceptionRecord → ExceptionDecision → AuditLog
  unfolding plan_action
  decision_event run_id exception proposed =
      let planned : PlannedAction =
        plan_action proposed deps.config.planner (is_within_sla exception) in
      record (audit_event run_id "exception_decided") {
        order_id = exception.order_id;
        action = some (value planned.action);
        reason = some (value exception.reason);
        status = some (value proposed.severity);
        details = some (
            ("used_fallback", flag planned.used_fallback)
            ∷ ("rationale", string proposed.rationale)
            ∷ []);
      }

  -- The loop of `decide_node`: the decisions, and the events that wait for the commit.
  unfoldable pub decide_all :
      String → List ExceptionRecord → Exec N (List ExceptionDecision × List AuditLog)
  unfolding final_decision decision_event
  decide_all run_id [] = pure ([], [])
  decide_all run_id (exception ∷ exceptions) = do
    proposed ←
        deps.llm.decide exception (is_within_sla exception)
          deps.config.reconciliation.high_value_threshold
    rest ← decide_all run_id exceptions
    pure (
      final_decision exception proposed ∷ rest.0,
      decision_event run_id exception proposed ∷ rest.1,
    )

  -- The end of `decide_node`; an exception leaves the session without a commit.
  unfoldable pub decide_update :
      ReconciliationState
      → Result (List ExceptionDecision × List AuditLog)
      → Exec (Mailbox N) ReconciliationState
  unfolding log_events
  decide_update state (raise e) mailbox = (raise e, mailbox)
  decide_update state (ok (decisions, events)) mailbox =
      (ok (record state { decisions = decisions }), commit (log_events events) mailbox)

  unfoldable pub decide_node : ReconciliationState → Exec (Mailbox N) ReconciliationState
  unfolding outside decide_all decide_update
  decide_node state mailbox =
      let (decided, mailbox') = outside (decide_all state.run_id state.exceptions) mailbox in
      decide_update state decided mailbox'
