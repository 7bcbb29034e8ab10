-- ===== src/Agent/Planner.antt =====
-- src/reconcile/agent/planner.py
use retail_reconciliation_ag.Prelude.{
  Bool, true, false, not, ◌&&◌, ◌≡◌, ◌⊎◌, arith, contains, ◌==◌, if◌then◌else◌,
}
use retail_reconciliation_ag.Domain.Enums.{PlannerAction, wait, planner_action_eq}
use retail_reconciliation_ag.Config.{PlannerConfig}
use retail_reconciliation_ag.Agent.Schemas.{ExceptionDecision}

pub record PlannedAction : Type 0 where
  pub action : PlannerAction
  pub used_fallback : Bool

unfoldable pub plan_action : ExceptionDecision → PlannerConfig → Bool → PlannedAction
plan_action decision planner_config within_sla =
    let allowed = planner_config.allowed_actions in
    let fallback : PlannedAction = record {
      action = planner_config.off_list_fallback;
      used_fallback = true;
    } in
    if not (contains allowed decision.action)
    then fallback
    else if (decision.action == wait) && not within_sla
    then fallback
    else record { action = decision.action; used_fallback = false }

-- The planner keeps the proposed action and reports no fallback if the action is on the allow-list
-- and is not WAIT outside of the SLA window; else it returns the configured fallback and reports it.
pub plan_action_lem :
    (decision : ExceptionDecision) (config : PlannerConfig) (within_sla : Bool)
    → ((plan_action decision config within_sla).used_fallback ≡ false
        × (plan_action decision config within_sla).action ≡ decision.action
        × contains config.allowed_actions decision.action ≡ true
        × ((decision.action == wait) && not within_sla) ≡ false)
      ⊎ ((plan_action decision config within_sla).used_fallback ≡ true
          × (plan_action decision config within_sla).action ≡ config.off_list_fallback
          × (contains config.allowed_actions decision.action
              && not ((decision.action == wait) && not within_sla))
            ≡ false)
unfolding plan_action
plan_action_lem decision config within_sla = ground arith
