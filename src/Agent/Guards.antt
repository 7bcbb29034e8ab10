-- ===== src/Agent/Guards.antt =====
-- The decisions that `decide_node` leaves are guarded (src/reconcile/agent/nodes.py, planner.py).
use retail_reconciliation_ag.Prelude.{
  String, List, [], ◌∷◌, Bool, true, false, not, ◌&&◌, ◌||◌, ◌≡◌, refl, arith, Result, ok, raise,
  contains, ◌==◌,
}
use retail_reconciliation_ag.Prelude.Effects.{Returns, Returns-bind, Returns-ok, Returns-all}
use retail_reconciliation_ag.Domain.Enums.{PlannerAction, wait, planner_action_eq, sla_status_eq}
use retail_reconciliation_ag.Domain.Records.{ExceptionRecord}
use retail_reconciliation_ag.Config.{PlannerConfig}
use retail_reconciliation_ag.Audit.Tables.{AuditLog}
use retail_reconciliation_ag.Notifications.Service.{Mailbox}
use retail_reconciliation_ag.Agent.Schemas.{ExceptionDecision}
use retail_reconciliation_ag.Agent.Planner.{plan_action}
use retail_reconciliation_ag.Agent.State.{ReconciliationState, AgentDependencies}
use retail_reconciliation_ag.Agent.Nodes.{
  is_within_sla, final_decision, decide_all, decide_update, decide_node,
}

-- The action may be carried out for the exception: it is the fallback, or it is on the allow-list and
-- is not WAIT outside of the SLA window.
abbrev pub is_guarded : PlannerConfig → ExceptionRecord → PlannerAction → Bool
is_guarded config exception action =
    (action == config.off_list_fallback)
    || (contains config.allowed_actions action
        && not ((action == wait) && not (is_within_sla exception)))

-- The decisions go with the exceptions, one for each in their order, and are guarded.
abbrev pub are_guarded : PlannerConfig → List ExceptionRecord → List ExceptionDecision → Bool
are_guarded config [] [] = true
are_guarded config (e ∷ es) (d ∷ ds) = is_guarded config e d.action && are_guarded config es ds
are_guarded config _ _ = false

module _ {N : Type 0} (deps : AgentDependencies N) where
  final_decision-is_guarded :
      (e : ExceptionRecord) (d : ExceptionDecision)
      → is_guarded deps.config.planner e (final_decision deps e d).action ≡ true
  unfolding final_decision plan_action
  final_decision-is_guarded e d = ground arith

  decide_all-are_guarded :
      (run_id : String) (es : List ExceptionRecord) (n : N)
      → Returns
          (λ decided _. are_guarded deps.config.planner es decided.0 ≡ true)
          (decide_all deps run_id es n)
  unfolding decide_all
  decide_all-are_guarded run_id [] n = refl
  decide_all-are_guarded run_id (e ∷ es) n =
      Returns-bind (λ _ _. Unit {0})
        (λ decided _. are_guarded deps.config.planner (e ∷ es) decided.0 ≡ true)
        (deps.llm.decide e (is_within_sla e) deps.config.reconciliation.high_value_threshold n) _
        (Returns-all _ _ _ (λ _ _. tt))
        (λ d n' _.
          Returns-bind (λ decided _. are_guarded deps.config.planner es decided.0 ≡ true)
            (λ decided _. are_guarded deps.config.planner (e ∷ es) decided.0 ≡ true)
            (decide_all deps run_id es n') _ (decide_all-are_guarded run_id es n')
            (λ rest n'' h. rw (final_decision-is_guarded e d) h))

  decide_update-are_guarded :
      (state : ReconciliationState)
      → (r : Result (List ExceptionDecision × List AuditLog)) → (mailbox : Mailbox N)
      → Returns
          (λ decided (_ : N). are_guarded deps.config.planner state.exceptions decided.0 ≡ true)
          (r, mailbox.provider)
      → Returns
          (λ next (_ : Mailbox N).
            are_guarded deps.config.planner state.exceptions next.decisions ≡ true)
          (decide_update deps state r mailbox)
  unfolding decide_update
  decide_update-are_guarded state (ok decided) mailbox h = h
  decide_update-are_guarded state (raise e) mailbox h = tt

  -- If `decide_node` returns, the state holds one decision for each exception, in their order, and the
  -- action of each is the configured fallback, or is on the allow-list and is not WAIT for an
  -- exception outside of its SLA window, whatever the LLM proposed.
  pub decide_node-are_guarded :
      (state next : ReconciliationState) (mailbox mailbox' : Mailbox N)
      → decide_node deps state mailbox ≡ (ok next, mailbox')
      → are_guarded deps.config.planner state.exceptions next.decisions ≡ true
  unfolding decide_node
  decide_node-are_guarded state next mailbox mailbox' h =
      Returns-ok (λ s _. are_guarded deps.config.planner state.exceptions s.decisions ≡ true)
        (decide_node deps state mailbox) next mailbox'
        (decide_update-are_guarded state _ _
          (decide_all-are_guarded state.run_id state.exceptions mailbox.provider))
        h
