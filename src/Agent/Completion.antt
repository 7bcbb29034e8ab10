-- ===== src/Agent/Completion.antt =====
-- Runs whose clients return, node by node (src/reconcile/agent/service.py, graph.py, nodes.py).
use retail_reconciliation_ag.Prelude.{
  ℕ, String, List, [], ◌∷◌, length, Bool, true, false, Result, ok, raise, ◌≡◌, refl, arith, ap, suc,
  Bool-cases, inl, inr, All,
}
use retail_reconciliation_ag.Prelude.Effects.{Succeeds, Succeeds-bind}
use retail_reconciliation_ag.Domain.Enums.{
  RecipientRole, PlannerAction, wait, escalate, request_recheck, email_store_manager, email_pg,
  email_bank,
}
use retail_reconciliation_ag.Domain.Records.{ExceptionRecord}
use retail_reconciliation_ag.Reconciliation.Rules.{RecipientTarget, resolve_targets}
use retail_reconciliation_ag.Reconciliation.Routing.{resolve_targets_lem}
use retail_reconciliation_ag.Audit.Idempotency.{already_notified}
use retail_reconciliation_ag.Notifications.Service.{
  SendRequest, SendResult, Mailbox, send_with_retry, record_result, dispatch,
}
use retail_reconciliation_ag.Agent.Schemas.{ExceptionDecision}
use retail_reconciliation_ag.Agent.Llm.Subjects.{HasShortIds}
use retail_reconciliation_ag.Agent.State.{AgentDependencies, outside}
use retail_reconciliation_ag.Agent.Nodes.{decide_all}
use retail_reconciliation_ag.Agent.Dispatching.{
  Outbox, targets_for_action, dispatch_one, send_all, dispatch_wait, dispatch_send,
  dispatch_exception, dispatch_all,
}

abbrev pub Done : {A : Type 0} → A → Type 0
Done a = Unit

-- The clients of the agent return: the LLM client decides, and drafts for exceptions with short ids,
-- and a delivery ends in a result.
pub record AreReliable {N : Type 0} (deps : AgentDependencies N) : Type 0 where
  pub decides :
      (e : ExceptionRecord) (within_sla : Bool) (threshold : ℕ) (n : N)
      → Succeeds Done (deps.llm.decide e within_sla threshold n)
  pub drafts :
      (e : ExceptionRecord) (role : RecipientRole) (tag : String) (n : N)
      → HasShortIds e
      → Succeeds Done (deps.llm.draft_email e role tag n)
  pub delivers :
      (request : SendRequest) (n : N) → Succeeds Done (send_with_retry deps.notifications request n)

module _ {N : Type 0} (deps : AgentDependencies N) (reliable : AreReliable deps) where
  pub decide_all-Succeeds :
      (run_id : String) (es : List ExceptionRecord) (n : N)
      → Succeeds (λ r. length r.0 ≡ length es) (decide_all deps run_id es n)
  unfolding decide_all
  decide_all-Succeeds run_id [] n = refl
  decide_all-Succeeds run_id (e ∷ es) n =
      Succeeds-bind Done _ (deps.llm.decide e _ _ n) _ (reliable.decides e _ _ n) (λ d n' _.
        Succeeds-bind (λ r. length r.0 ≡ length es) _ (decide_all deps run_id es n') _
          (decide_all-Succeeds run_id es n') (λ rest n'' h. ap suc h))

  record_result-Succeeds :
      (run_id key : String) (role : RecipientRole) (email : String) (r : Result SendResult) (n : N)
      (mailbox : Mailbox N)
      → Succeeds Done (r, n)
      → Succeeds Done (record_result deps.notifications run_id key role email r mailbox)
  unfolding record_result
  record_result-Succeeds run_id key role email (ok result) n mailbox h = tt
  record_result-Succeeds run_id key role email (raise e) n mailbox h = h

  dispatch_one-Succeeds :
      (run_id : String) (target : RecipientTarget) (subject body : String) (dry_run : Bool)
      (mailbox : Mailbox N)
      → Succeeds Done (dispatch_one deps run_id target subject body dry_run mailbox)
  unfolding dispatch_one dispatch
  dispatch_one-Succeeds run_id target subject body true mailbox = tt
  dispatch_one-Succeeds run_id target subject body false mailbox =
      elim (Bool-cases (already_notified mailbox.db target.mismatch_key target.email)) [
        | inl known ↦ rw known tt
        | inr new ↦
            rw new (record_result-Succeeds _ _ _ _ _ _ _ (reliable.delivers _ mailbox.provider))
      ]

  pub outside-Succeeds :
      {A : Type 0} (r : Result A) (n : N) (mailbox : Mailbox N)
      → Succeeds Done (r, n)
      → Succeeds Done (r, mailbox)
  outside-Succeeds (ok a) n mailbox h = tt
  outside-Succeeds (raise e) n mailbox h = h

  send_all-Succeeds :
      (run_id : String) (dry_run : Bool) (e : ExceptionRecord) (action : PlannerAction)
      (tag status : String)
      → (targets : List RecipientTarget) (out : Outbox) (mailbox : Mailbox N) → HasShortIds e
      → Succeeds Done (send_all deps run_id dry_run e action tag status targets out mailbox)
  unfolding send_all outside
  send_all-Succeeds run_id dry_run e action tag status [] out mailbox named = tt
  send_all-Succeeds run_id dry_run e action tag status (target ∷ targets) out mailbox named =
      Succeeds-bind Done Done (outside (deps.llm.draft_email e target.role tag) mailbox) _
        (outside-Succeeds _ _ _ (reliable.drafts e target.role tag mailbox.provider named))
        (λ draft mailbox' _.
          Succeeds-bind Done Done
            (dispatch_one deps run_id target draft.subject draft.body dry_run mailbox') _
            (dispatch_one-Succeeds run_id target draft.subject draft.body dry_run mailbox')
            (λ result mailbox'' _.
              send_all-Succeeds run_id dry_run e action tag status targets _ mailbox'' named))

  -- The targets of an exception are always found.
  resolved :
      (e : ExceptionRecord)
      → (targets : List RecipientTarget) × (resolve_targets deps.sha1 e deps.config ≡ ok targets)
  resolved e = (_, (resolve_targets_lem deps.sha1 deps.config e).0)

  targets_for_action-Succeeds :
      (e : ExceptionRecord) (action : PlannerAction) (mailbox : Mailbox N)
      → Succeeds Done (targets_for_action deps e action, mailbox)
  unfolding targets_for_action
  targets_for_action-Succeeds e escalate mailbox = tt
  targets_for_action-Succeeds e request_recheck mailbox = rw (resolved e).1 tt
  targets_for_action-Succeeds e wait mailbox = rw (resolved e).1 tt
  targets_for_action-Succeeds e email_store_manager mailbox = rw (resolved e).1 tt
  targets_for_action-Succeeds e email_pg mailbox = rw (resolved e).1 tt
  targets_for_action-Succeeds e email_bank mailbox = rw (resolved e).1 tt

  dispatch_send-Succeeds :
      (run_id : String) (dry_run : Bool) (e : ExceptionRecord) (action : PlannerAction)
      (out : Outbox)
      → (mailbox : Mailbox N) → HasShortIds e
      → Succeeds Done (dispatch_send deps run_id dry_run e action out mailbox)
  unfolding dispatch_send
  dispatch_send-Succeeds run_id dry_run e action out mailbox named =
      Succeeds-bind Done Done (targets_for_action deps e action, mailbox) _
        (targets_for_action-Succeeds e action mailbox)
        (λ chosen mailbox' _. send_all-Succeeds run_id dry_run e action _ _ _ out mailbox' named)

  dispatch_exception-Succeeds :
      (run_id : String) (dry_run : Bool) (e : ExceptionRecord) (action : PlannerAction)
      (out : Outbox)
      → (mailbox : Mailbox N) → HasShortIds e
      → Succeeds Done (dispatch_exception deps run_id dry_run e action out mailbox)
  unfolding dispatch_exception dispatch_wait
  dispatch_exception-Succeeds run_id dry_run e wait out mailbox named = rw (resolved e).1 tt
  dispatch_exception-Succeeds run_id dry_run e escalate out mailbox named =
      dispatch_send-Succeeds run_id dry_run e escalate out mailbox named
  dispatch_exception-Succeeds run_id dry_run e request_recheck out mailbox named =
      dispatch_send-Succeeds run_id dry_run e request_recheck out mailbox named
  dispatch_exception-Succeeds run_id dry_run e email_store_manager out mailbox named =
      dispatch_send-Succeeds run_id dry_run e email_store_manager out mailbox named
  dispatch_exception-Succeeds run_id dry_run e email_pg out mailbox named =
      dispatch_send-Succeeds run_id dry_run e email_pg out mailbox named
  dispatch_exception-Succeeds run_id dry_run e email_bank out mailbox named =
      dispatch_send-Succeeds run_id dry_run e email_bank out mailbox named

  -- `zip(..., strict=True)` does not raise where there are as many decisions as exceptions.
  pub dispatch_all-Succeeds :
      (run_id : String) (dry_run : Bool) (es : List ExceptionRecord) (ds : List ExceptionDecision)
      → (out : Outbox) (mailbox : Mailbox N) → length ds ≡ length es
      → All HasShortIds es
      → Succeeds Done (dispatch_all deps run_id dry_run es ds out mailbox)
  unfolding dispatch_all
  dispatch_all-Succeeds run_id dry_run [] [] out mailbox h named = tt
  dispatch_all-Succeeds run_id dry_run (e ∷ es) [] out mailbox h named = absurd (omega arith)
  dispatch_all-Succeeds run_id dry_run [] (d ∷ ds) out mailbox h named = absurd (omega arith)
  dispatch_all-Succeeds run_id dry_run (e ∷ es) (d ∷ ds) out mailbox h named =
      Succeeds-bind Done Done (dispatch_exception deps run_id dry_run e d.action out mailbox) _
        (dispatch_exception-Succeeds run_id dry_run e d.action out mailbox named.0)
        (λ out' mailbox' _.
          dispatch_all-Succeeds run_id dry_run es ds out' mailbox' (omega arith) named.1)
