-- ===== src/Agent/Logbook.antt =====
-- The run and notification tables through a whole run of the graph (src/reconcile/agent/graph.py, nodes.py).
use retail_reconciliation_ag.Prelude.{String, List, [], ◌∷◌, Bool, Result, ◌≡◌, refl}
use retail_reconciliation_ag.Prelude.Effects.{After, After-bind, After-all}
use retail_reconciliation_ag.Domain.Enums.{
  PlannerAction, wait, escalate, request_recheck, email_store_manager, email_pg, email_bank,
}
use retail_reconciliation_ag.Domain.Records.{ExceptionRecord}
use retail_reconciliation_ag.Reconciliation.Rules.{RecipientTarget, resolve_targets}
use retail_reconciliation_ag.Audit.Tables.{RunLog, AuditLog, NotificationLog, Database}
use retail_reconciliation_ag.Audit.Repository.{log_event, upsert_exception}
use retail_reconciliation_ag.Notifications.Service.{Mailbox}
use retail_reconciliation_ag.Agent.Schemas.{ExceptionDecision}
use retail_reconciliation_ag.Agent.State.{ReconciliationState, AgentDependencies, outside}
use retail_reconciliation_ag.Agent.Nodes.{log_events}
use retail_reconciliation_ag.Agent.Dispatching.{
  Lifecycle, Outbox, upsert_all, dispatch_one, send_all, dispatch_wait, dispatch_send,
  targets_for_action, dispatch_exception, dispatch_all,
}

-- The two tables that the nodes leave alone but for what `dispatch` records.
abbrev pub View : Type 0
View = List RunLog × List NotificationLog

abbrev pub view : Database → View
view db = (db.run_log, db.notification_log)

pub log_events-view :
    (events : List AuditLog) (db : Database) → view (log_events events db) ≡ view db
unfolding log_events log_event
log_events-view [] db = refl
log_events-view (event ∷ events) db = log_events-view events (log_event event db)

pub upsert_all-view :
    (run_id : String) (entries : List Lifecycle) (db : Database)
    → view (upsert_all run_id entries db) ≡ view db
unfolding upsert_all upsert_exception
upsert_all-view run_id [] db = refl
upsert_all-view run_id (entry ∷ entries) db =
    upsert_all-view run_id entries
      (upsert_exception entry.key run_id entry.reason entry.life_status db)

-- The predicate holds of the two tables.
abbrev pub Held : {N : Type 0} → (View → Type 0) → Mailbox N → Type 0
Held I mailbox = I (view mailbox.db)

abbrev pub Any : {A : Type 0} → A → Type 0
Any a = Unit

-- The state still says whether the run is a dry run.
abbrev pub Same : Bool → ReconciliationState → Type 0
Same dry_run state = state.dry_run ≡ dry_run

module _ {N : Type 0} (deps : AgentDependencies N) (I : View → Type 0) (dry_run : Bool)
    (kept : (run_id : String) (target : RecipientTarget) (subject body : String)
        (mailbox : Mailbox N)
      → I (view mailbox.db)
      → I (view (dispatch_one deps run_id target subject body dry_run mailbox).1.db)) where
  pub outside-Held :
      {A : Type 0} (call : N → Result A × N) (mailbox : Mailbox N)
      → Held I mailbox
      → After (Held I) Any (outside call mailbox)
  unfolding outside
  outside-Held call mailbox h = After-all (Held I) Any _ _ h (λ _. tt)

  send_all-Held :
      (run_id : String) (e : ExceptionRecord) (action : PlannerAction) (tag status : String)
      → (targets : List RecipientTarget) (out : Outbox) (mailbox : Mailbox N) → Held I mailbox
      → After (Held I) Any (send_all deps run_id dry_run e action tag status targets out mailbox)
  unfolding send_all
  send_all-Held run_id e action tag status [] out mailbox h = (h, tt)
  send_all-Held run_id e action tag status (target ∷ targets) out mailbox h =
      After-bind (Held I) Any Any (outside (deps.llm.draft_email e target.role tag) mailbox) _
        (outside-Held (deps.llm.draft_email e target.role tag) mailbox h)
        (λ draft mailbox' h' _.
          After-bind (Held I) Any Any
            (dispatch_one deps run_id target draft.subject draft.body dry_run mailbox') _
            (After-all (Held I) Any _ _ (kept run_id target draft.subject draft.body mailbox' h')
              (λ _. tt))
            (λ result mailbox'' h'' _.
              send_all-Held run_id e action tag status targets _ mailbox'' h''))

  dispatch_send-Held :
      (run_id : String) (e : ExceptionRecord) (action : PlannerAction) (out : Outbox)
      → (mailbox : Mailbox N) → Held I mailbox
      → After (Held I) Any (dispatch_send deps run_id dry_run e action out mailbox)
  unfolding dispatch_send
  dispatch_send-Held run_id e action out mailbox h =
      After-bind (Held I) Any Any (targets_for_action deps e action, mailbox) _
        (After-all (Held I) Any _ _ h (λ _. tt))
        (λ chosen mailbox' h' _. send_all-Held run_id e action _ _ _ out mailbox' h')

  dispatch_wait-Held :
      (run_id : String) (e : ExceptionRecord) (out : Outbox) (mailbox : Mailbox N)
      → Held I mailbox
      → After (Held I) Any (dispatch_wait deps run_id e out mailbox)
  unfolding dispatch_wait
  dispatch_wait-Held run_id e out mailbox h =
      After-bind (Held I) Any Any (resolve_targets deps.sha1 e deps.config, mailbox) _
        (After-all (Held I) Any _ _ h (λ _. tt)) (λ targets mailbox' h' _. (h', tt))

  dispatch_exception-Held :
      (run_id : String) (e : ExceptionRecord) (action : PlannerAction) (out : Outbox)
      → (mailbox : Mailbox N) → Held I mailbox
      → After (Held I) Any (dispatch_exception deps run_id dry_run e action out mailbox)
  unfolding dispatch_exception
  dispatch_exception-Held run_id e wait out mailbox h = dispatch_wait-Held run_id e out mailbox h
  dispatch_exception-Held run_id e escalate out mailbox h =
      dispatch_send-Held run_id e escalate out mailbox h
  dispatch_exception-Held run_id e request_recheck out mailbox h =
      dispatch_send-Held run_id e request_recheck out mailbox h
  dispatch_exception-Held run_id e email_store_manager out mailbox h =
      dispatch_send-Held run_id e email_store_manager out mailbox h
  dispatch_exception-Held run_id e email_pg out mailbox h =
      dispatch_send-Held run_id e email_pg out mailbox h
  dispatch_exception-Held run_id e email_bank out mailbox h =
      dispatch_send-Held run_id e email_bank out mailbox h

  pub dispatch_all-Held :
      (run_id : String) (es : List ExceptionRecord) (ds : List ExceptionDecision) (out : Outbox)
      → (mailbox : Mailbox N) → Held I mailbox
      → After (Held I) Any (dispatch_all deps run_id dry_run es ds out mailbox)
  unfolding dispatch_all
  dispatch_all-Held run_id [] [] out mailbox h = (h, tt)
  dispatch_all-Held run_id (e ∷ es) [] out mailbox h = h
  dispatch_all-Held run_id [] (d ∷ ds) out mailbox h = h
  dispatch_all-Held run_id (e ∷ es) (d ∷ ds) out mailbox h =
      After-bind (Held I) Any Any (dispatch_exception deps run_id dry_run e d.action out mailbox) _
        (dispatch_exception-Held run_id e d.action out mailbox h)
        (λ out' mailbox' h' _. dispatch_all-Held run_id es ds out' mailbox' h')
