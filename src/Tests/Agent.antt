-- ===== src/Tests/Agent.antt =====
-- Notifications and the nodes of the agent on test data.
use retail_reconciliation_ag.Prelude.{
  Perm, map, ◌++◌, ℕ, [], ◌∷◌, some, true, false, not, ◌&&◌, ◌||◌, ◌≡◌, refl, ok, Mem, All, ◌⊎◌,
  contains, ◌==◌,
}
use retail_reconciliation_ag.Domain.Enums.{
  skipped, sent, notification_status_eq, PlannerAction, wait, planner_action_eq,
}
use retail_reconciliation_ag.Audit.Idempotency.{already_notified, record_notification}
use retail_reconciliation_ag.Notifications.Service.{Mailbox, send_result}
use retail_reconciliation_ag.Notifications.Delivery.{
  Call, run_call, run_calls, no_second_delivery, run_call-recorded,
}
use retail_reconciliation_ag.Notifications.Rows.{HasOneRowEach}
use retail_reconciliation_ag.Agent.Schemas.{ExceptionDecision, routine}
use retail_reconciliation_ag.Agent.Planner.{plan_action, plan_action_lem}
use retail_reconciliation_ag.Agent.Fuzzy.{apply_proposal}
use retail_reconciliation_ag.Agent.State.{ReconciliationState}
use retail_reconciliation_ag.Agent.Nodes.{decide_node}
use retail_reconciliation_ag.Agent.Graph.{run_graph}
use retail_reconciliation_ag.Agent.Guards.{are_guarded, decide_node-are_guarded}
use retail_reconciliation_ag.Agent.Pairing.{
  orders_held, receipt, settlements_held, apply_proposal-KeepsRows,
}
use retail_reconciliation_ag.Reconciliation.Matching.Conservation.{due}
use retail_reconciliation_ag.Agent.Justified.{IsJustified, apply_proposal-IsJustified}
use retail_reconciliation_ag.Agent.Runs.{
  run_graph-dry, run_graph-HasOneRowEach, run_graph-delivered,
}
use retail_reconciliation_ag.Tests.{
  counting, deps, mailbox, call, begun, late, config, pairings, obligations, settlements,
}

-- The mailbox after the first call.
abbrev delivered : Mailbox ℕ
delivered = (run_call counting call mailbox).1

abbrev elsewhere : Call
elsewhere = record call { mismatch_key = "k2" }

no_second_delivery_example :
    run_call counting call (run_calls counting (elsewhere ∷ []) delivered) ≡ (
      ok (record (send_result skipped) { reason = some "duplicate" }),
      run_calls counting (elsewhere ∷ []) delivered,
    )
unfolding run_call already_notified
no_second_delivery_example =
    no_second_delivery counting call call (elsewhere ∷ []) mailbox delivered (send_result sent) refl
      refl refl refl

run_call-recorded_example :
    already_notified delivered.db "k1" "store@x"
    ≡ (already_notified mailbox.db "k1" "store@x" || true)
unfolding run_call already_notified
run_call-recorded_example =
    run_call-recorded counting call mailbox delivered (send_result sent) refl

abbrev dry : ReconciliationState
dry = record begun { dry_run = true }

run_graph-dry_example :
    (run_graph deps dry mailbox).1.db.notification_log ≡ mailbox.db.notification_log
run_graph-dry_example = run_graph-dry deps dry mailbox refl

run_graph-HasOneRowEach_example : HasOneRowEach (run_graph deps begun mailbox).1.db.notification_log
run_graph-HasOneRowEach_example = run_graph-HasOneRowEach deps begun mailbox tt

run_graph-delivered_example :
    already_notified (run_graph deps begun delivered).1.db "k1" "store@x" ≡ true
unfolding run_call already_notified record_notification
run_graph-delivered_example = run_graph-delivered deps "k1" "store@x" begun delivered refl

-- A state with an exception to decide on.
abbrev undecided : ReconciliationState
undecided = record begun { exceptions = late ∷ [] }

abbrev proposed_decision : ExceptionDecision
proposed_decision = record {
  severity = routine;
  action = PlannerAction.email_pg;
  rationale = "due";
}

abbrev decided : ReconciliationState
decided = record undecided { decisions = proposed_decision ∷ [] }

decide_node-are_guarded_example :
    are_guarded config.planner (late ∷ []) (proposed_decision ∷ []) ≡ true
decide_node-are_guarded_example =
    decide_node-are_guarded deps undecided decided mailbox (decide_node deps undecided mailbox).1
      (unfold decide_node in refl)

plan_action_example :
    ((plan_action proposed_decision config.planner false).used_fallback ≡ false
      × (plan_action proposed_decision config.planner false).action ≡ PlannerAction.email_pg
      × contains config.planner.allowed_actions PlannerAction.email_pg ≡ true
      × ((PlannerAction.email_pg == wait) && not false) ≡ false)
    ⊎ ((plan_action proposed_decision config.planner false).used_fallback ≡ true
        × (plan_action proposed_decision config.planner false).action
          ≡ config.planner.off_list_fallback
        × (contains config.planner.allowed_actions PlannerAction.email_pg
            && not ((PlannerAction.email_pg == wait) && not false))
          ≡ false)
plan_action_example = plan_action_lem proposed_decision config.planner false

apply_proposal-KeepsRows_example :
    Perm
      (orders_held (apply_proposal config.fuzzy_match pairings obligations settlements [] []))
      (map due obligations ++ [])
    × Perm
        (settlements_held
          (apply_proposal config.fuzzy_match pairings obligations settlements [] []))
        (map receipt settlements ++ [])
apply_proposal-KeepsRows_example =
    apply_proposal-KeepsRows config.fuzzy_match pairings obligations settlements [] []
      ((refl, (refl, tt)), ((refl, tt), (tt, tt))) ((refl, (refl, tt)), ((refl, tt), (tt, tt)))

apply_proposal-IsJustified_example :
    All
      (λ m. Mem m [] ⊎ IsJustified config.fuzzy_match pairings obligations settlements m)
      (apply_proposal config.fuzzy_match pairings obligations settlements [] []).matched
apply_proposal-IsJustified_example =
    apply_proposal-IsJustified config.fuzzy_match pairings obligations settlements [] []
