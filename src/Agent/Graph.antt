-- ===== src/Agent/Graph.antt =====
-- src/reconcile/agent/nodes.py: `verify_node`; src/reconcile/agent/graph.py: the order of the nodes.
-- LangGraph calls a node with the state and puts the values that it returns in their places.
use retail_reconciliation_ag.Prelude.{
  ℕ, suc, String, List, [], ◌∷◌, map, length, some, Bool, true, false, ◌&&◌, string_eq,
  if◌then◌else◌, ok,
}
use retail_reconciliation_ag.Prelude.Dict.{Dict, get_or, set}
use retail_reconciliation_ag.Prelude.Effects.{Exec, ◌>>=◌}
use retail_reconciliation_ag.Domain.Enums.{value, planner_action_enum, exception_reason_enum}
use retail_reconciliation_ag.Audit.Tables.{Json, number, counts}
use retail_reconciliation_ag.Audit.Repository.{log_event, audit_event}
use retail_reconciliation_ag.Audit.Lifecycle.{mark_resolved}
use retail_reconciliation_ag.Notifications.Service.{Mailbox}
use retail_reconciliation_ag.Agent.State.{ReconciliationState, AgentDependencies, commit}
use retail_reconciliation_ag.Agent.Nodes.{reconcile_node, fuzzy_node, classify_node, decide_node}
use retail_reconciliation_ag.Agent.Dispatching.{dispatch_node}

-- `dict(Counter(names))`
unfoldable pub count_from : Dict String ℕ → List String → Dict String ℕ
count_from d [] = d
count_from d (name ∷ names) = count_from (set d name (suc (get_or d name 0))) names

unfoldable pub build_summary : ReconciliationState → ℕ → Dict String Json
unfolding count_from
build_summary state resolved =
    ("matched", number (length state.matched))
    ∷ ("exceptions_total", number (length state.exceptions))
    ∷ ("exceptions_by_reason", counts (count_from [] (map (λ e. value e.reason) state.exceptions)))
    ∷ ("actions", counts (count_from [] (map (λ d. value d.action) state.decisions)))
    ∷ ("notifications", counts (count_from [] (map (λ m. m.status) state.emails)))
    ∷ ("fuzzy_auto_applied", number (length state.fuzzy_auto_applied))
    ∷ ("resolved", number resolved)
    ∷ []

-- `bool(xs)`
abbrev pub non_empty {ℓ} : {A : Type ℓ} → List A → Bool
non_empty [] = false
non_empty (x ∷ xs) = true

module _ {N : Type 0} (deps : AgentDependencies N) where
  unfoldable pub verify_node : ReconciliationState → Exec (Mailbox N) ReconciliationState
  unfolding mark_resolved log_event build_summary
  verify_node state mailbox =
      let (resolved, db) = mark_resolved state.run_id state.current_keys mailbox.db in
      (
        ok (record state { summary = build_summary state resolved }),
        commit
            (λ _.
              log_event
                (record (audit_event state.run_id "verify_completed") {
                  status = some "ok";
                  details = some (("resolved", number resolved) ∷ []);
                })
                db)
            mailbox,
      )

  -- `_route_after_reconcile`, true for "fuzzy".
  unfoldable pub route_after_reconcile : ReconciliationState → Bool
  route_after_reconcile state =
      deps.fuzzy_enabled
      && non_empty state.unmatched_obligations
      && non_empty state.unmatched_settlements

  -- The conditional edge.
  unfoldable pub fuzzy_edge : ReconciliationState → Exec (Mailbox N) ReconciliationState
  unfolding route_after_reconcile fuzzy_node
  fuzzy_edge state mailbox =
      if route_after_reconcile state then fuzzy_node deps state mailbox else (ok state, mailbox)

  -- The graph of `build_graph`, invoked, from its last edge to its entry.
  unfoldable pub from_dispatch : ReconciliationState → Exec (Mailbox N) ReconciliationState
  unfolding dispatch_node verify_node
  from_dispatch state = dispatch_node deps state >>= verify_node

  unfoldable pub from_decide : ReconciliationState → Exec (Mailbox N) ReconciliationState
  unfolding decide_node from_dispatch
  from_decide state = decide_node deps state >>= from_dispatch

  unfoldable pub from_classify : ReconciliationState → Exec (Mailbox N) ReconciliationState
  unfolding classify_node from_decide
  from_classify state = classify_node deps state >>= from_decide

  unfoldable pub from_fuzzy_edge : ReconciliationState → Exec (Mailbox N) ReconciliationState
  unfolding fuzzy_edge from_classify
  from_fuzzy_edge state = fuzzy_edge state >>= from_classify

  unfoldable pub run_graph : ReconciliationState → Exec (Mailbox N) ReconciliationState
  unfolding reconcile_node from_fuzzy_edge
  run_graph initial = reconcile_node deps initial >>= from_fuzzy_edge
