-- ===== src/Agent/Dispatching.antt =====
-- src/reconcile/agent/nodes.py: `dispatch_node`
use retail_reconciliation_ag.Prelude.{
  String, List, [], ◌∷◌, ◌++◌, some, Bool, Result, ok, raise, value_error, if◌then◌else◌,
}
use retail_reconciliation_ag.Prelude.Effects.{Exec, pure, lift, ◌>>=◌}
use retail_reconciliation_ag.Domain.Enums.{
  value, PlannerAction, wait, escalate, request_recheck, RecipientRole, skipped,
  planner_action_enum, exception_reason_enum, recipient_role_enum, notification_status_enum,
}
use retail_reconciliation_ag.Domain.Records.{ExceptionRecord}
use retail_reconciliation_ag.Domain.Keys.{make_mismatch_key}
use retail_reconciliation_ag.Reconciliation.Rules.{RecipientTarget, resolve_targets}
use retail_reconciliation_ag.Audit.Tables.{AuditLog, Database}
use retail_reconciliation_ag.Audit.Repository.{audit_event, upsert_exception}
use retail_reconciliation_ag.Notifications.Service.{SendResult, send_result, Mailbox, dispatch}
use retail_reconciliation_ag.Agent.Schemas.{ExceptionDecision, EmailDraft, EmailMessageView}
use retail_reconciliation_ag.Agent.State.{ReconciliationState, AgentDependencies, outside, commit}
use retail_reconciliation_ag.Agent.Nodes.{log_events}

-- An entry of `lifecycle`: the key, the reason and the status.
pub record Lifecycle : Type 0 where
  pub key : String
  pub reason : String
  pub life_status : String

-- The four lists of `dispatch_node`.
pub record Outbox : Type 0 where
  pub emails : List EmailMessageView
  pub current_keys : List String
  pub lifecycle : List Lifecycle
  pub events : List AuditLog

abbrev pub empty_outbox : Outbox
empty_outbox = record { emails = []; current_keys = []; lifecycle = []; events = [] }

-- `_event`, for `repo.log_event(run_id, "notification_dispatched", **event)`.
abbrev pub dispatch_event : String → ExceptionRecord → PlannerAction → String → AuditLog
dispatch_event run_id exception action status =
    record (audit_event run_id "notification_dispatched") {
      order_id = exception.order_id;
      action = some (value action);
      reason = some (value exception.reason);
      status = some status;
    }

-- The two appends to `lifecycle` and `current_keys`.
abbrev pub track : ExceptionRecord → String → String → Outbox → Outbox
track exception status key out = record out {
  current_keys = out.current_keys ++ key ∷ [];
  lifecycle =
      out.lifecycle
      ++ record { key = key; reason = value exception.reason; life_status = status } ∷ [];
}

-- The targets of an exception that waits.
unfoldable pub wait_for : ExceptionRecord → List RecipientTarget → Outbox → Outbox
wait_for exception [] out = out
wait_for exception (target ∷ targets) out =
    wait_for exception targets (track exception "OPEN" target.mismatch_key out)

-- What `dispatch_node` keeps of an attempt for a target.
unfoldable pub note_attempt :
    String
    → ExceptionRecord
    → PlannerAction
    → String
    → RecipientTarget
    → EmailDraft
    → SendResult
    → Outbox
    → Outbox
note_attempt run_id exception action life_status target draft result out =
    let tracked = track exception life_status target.mismatch_key out in
    record tracked {
      emails =
          out.emails
          ++ record {
            recipient_role = value target.role;
            recipient_email = target.email;
            subject = draft.subject;
            body = draft.body;
            status = value result.status;
            reason = some (value exception.reason);
            mismatch_key = target.mismatch_key;
          }
            ∷ [];
      events = out.events ++ dispatch_event run_id exception action (value result.status) ∷ [];
    }

-- The upserts of the last session of `dispatch_node`.
unfoldable pub upsert_all : String → List Lifecycle → Database → Database
unfolding upsert_exception
upsert_all run_id [] db = db
upsert_all run_id (entry ∷ entries) db =
    upsert_all run_id entries (upsert_exception entry.key run_id entry.reason entry.life_status db)

module _ {N : Type 0} (deps : AgentDependencies N) where
  abbrev pub admin_target : ExceptionRecord → RecipientTarget
  admin_target exception = record {
    role = RecipientRole.admin;
    email = deps.config.recipients.admin;
    mismatch_key =
        make_mismatch_key deps.sha1 exception.reason exception.order_id exception.settlement_id
          exception.payment_type RecipientRole.admin;
  }

  abbrev pub labelled :
      String
      → String
      → Result (List RecipientTarget)
      → Result (String × String × List RecipientTarget)
  labelled tag status (ok targets) = ok (tag, status, targets)
  labelled tag status (raise e) = raise e

  -- `_targets_for_action`
  unfoldable pub targets_for_action :
      ExceptionRecord → PlannerAction → Result (String × String × List RecipientTarget)
  unfolding resolve_targets
  targets_for_action exception escalate = ok ("escalate", "ESCALATED", admin_target exception ∷ [])
  targets_for_action exception request_recheck =
      labelled "recheck" "AWAITING_RECHECK" (resolve_targets deps.sha1 exception deps.config)
  targets_for_action exception _ =
      labelled "email" "OPEN" (resolve_targets deps.sha1 exception deps.config)

  -- `_dispatch_one`
  unfoldable pub dispatch_one :
      String → RecipientTarget → String → String → Bool → Exec (Mailbox N) SendResult
  unfolding dispatch
  dispatch_one run_id target subject body dry_run mailbox =
      if dry_run
      then (ok (record (send_result skipped) { reason = some "dry_run" }), mailbox)
      else dispatch deps.notifications run_id target.mismatch_key target.role target.email subject
          body mailbox

  -- The inner loop of `dispatch_node`.
  unfoldable pub send_all :
      String
      → Bool
      → ExceptionRecord
      → PlannerAction
      → String
      → String
      → List RecipientTarget
      → Outbox
      → Exec (Mailbox N) Outbox
  unfolding outside dispatch_one note_attempt
  send_all run_id dry_run exception action tag life_status [] out = pure out
  send_all run_id dry_run exception action tag life_status (target ∷ targets) out = do
    draft ← outside (deps.llm.draft_email exception target.role tag)
    result ← dispatch_one run_id target draft.subject draft.body dry_run
    send_all run_id dry_run exception action tag life_status targets
        (note_attempt run_id exception action life_status target draft result out)

  -- The branch for WAIT.
  unfoldable pub dispatch_wait : String → ExceptionRecord → Outbox → Exec (Mailbox N) Outbox
  unfolding resolve_targets wait_for
  dispatch_wait run_id exception out = do
    targets ← lift (resolve_targets deps.sha1 exception deps.config)
    let waited = wait_for exception targets out
    pure (record waited {
      events = waited.events ++ dispatch_event run_id exception wait "WAITING" ∷ [];
    })

  unfoldable pub dispatch_send :
      String → Bool → ExceptionRecord → PlannerAction → Outbox → Exec (Mailbox N) Outbox
  unfolding targets_for_action send_all
  dispatch_send run_id dry_run exception action out = do
    chosen ← lift (targets_for_action exception action)
    send_all run_id dry_run exception action chosen.0 chosen.1 chosen.2 out

  -- One round of the outer loop.
  unfoldable pub dispatch_exception :
      String → Bool → ExceptionRecord → PlannerAction → Outbox → Exec (Mailbox N) Outbox
  unfolding dispatch_wait dispatch_send
  dispatch_exception run_id dry_run exception wait out = dispatch_wait run_id exception out
  dispatch_exception run_id dry_run exception action out =
      dispatch_send run_id dry_run exception action out

  -- The outer loop, with `zip(..., strict=True)`.
  unfoldable pub dispatch_all :
      String
      → Bool
      → List ExceptionRecord
      → List ExceptionDecision
      → Outbox
      → Exec (Mailbox N) Outbox
  unfolding dispatch_exception
  dispatch_all run_id dry_run [] [] out = pure out
  dispatch_all run_id dry_run (exception ∷ exceptions) (decision ∷ decisions) out = do
    out' ← dispatch_exception run_id dry_run exception decision.action out
    dispatch_all run_id dry_run exceptions decisions out'
  dispatch_all run_id dry_run _ _ out = lift (raise value_error)

  unfoldable pub dispatch_update :
      ReconciliationState → Result Outbox → Exec (Mailbox N) ReconciliationState
  unfolding upsert_all log_events
  dispatch_update state (raise e) mailbox = (raise e, mailbox)
  dispatch_update state (ok out) mailbox = (
    ok (record state { emails = out.emails; current_keys = out.current_keys }),
    commit (λ db. log_events out.events (upsert_all state.run_id out.lifecycle db)) mailbox,
  )

  unfoldable pub dispatch_node : ReconciliationState → Exec (Mailbox N) ReconciliationState
  unfolding dispatch_all dispatch_update
  dispatch_node state mailbox =
      let (out, mailbox') =
        dispatch_all state.run_id state.dry_run state.exceptions state.decisions empty_outbox
          mailbox in
      dispatch_update state out mailbox'
