-- ===== src/Agent/Runs.antt =====
-- Whatever ends a run of the graph, what the notification table promises still holds
-- (src/reconcile/agent/graph.py, nodes.py).
use mathlib.Core.Path.{subst}
use retail_reconciliation_ag.Prelude.{
  String, List, Bool, true, false, Result, ok, raise, ◌≡◌, refl, Bool-cases, inl, inr, ◌∙◌, sym,
}
use retail_reconciliation_ag.Prelude.Effects.{After, After-bind, After-state, Exec, ◌>>=◌}
use retail_reconciliation_ag.Reconciliation.Matcher.{KeyMatchResult}
use retail_reconciliation_ag.Reconciliation.Rules.{RecipientTarget}
use retail_reconciliation_ag.Audit.Tables.{RunLog, AuditLog}
use retail_reconciliation_ag.Audit.Repository.{log_event}
use retail_reconciliation_ag.Audit.Idempotency.{any_sent, already_notified}
use retail_reconciliation_ag.Audit.Lifecycle.{mark_resolved}
use retail_reconciliation_ag.Notifications.Service.{Mailbox}
use retail_reconciliation_ag.Notifications.Delivery.{Call, run_call, run_call-keeps}
use retail_reconciliation_ag.Notifications.Rows.{
  HasOneRowEach, run_call-HasOneRowEach, run_call-run_log,
}
use retail_reconciliation_ag.Agent.Schemas.{ExceptionDecision}
use retail_reconciliation_ag.Agent.State.{ReconciliationState, AgentDependencies, outside}
use retail_reconciliation_ag.Agent.Nodes.{
  reconcile_update, reconcile_node, fuzzy_node, classify_node, decide_update, decide_node,
}
use retail_reconciliation_ag.Agent.Dispatching.{
  Outbox, empty_outbox, upsert_all, dispatch_one, dispatch_all, dispatch_update, dispatch_node,
}
use retail_reconciliation_ag.Agent.Graph.{
  verify_node, route_after_reconcile, fuzzy_edge, from_fuzzy_edge, from_classify, from_decide,
  from_dispatch, run_graph,
}
use retail_reconciliation_ag.Agent.Logbook.{
  View, view, Held, Any, Same, log_events-view, upsert_all-view, dispatch_all-Held,
}

module _ {N : Type 0} (deps : AgentDependencies N) (I : View → Type 0) (dry_run : Bool)
    (kept : (run_id : String) (target : RecipientTarget) (subject body : String)
        (mailbox : Mailbox N)
      → I (view mailbox.db)
      → I (view (dispatch_one deps run_id target subject body dry_run mailbox).1.db)) where
  reconcile_update-Held :
      (state : ReconciliationState) (r : Result KeyMatchResult) (mailbox : Mailbox N)
      → Same dry_run state
      → Held I mailbox
      → After (Held I) (Same dry_run) (reconcile_update deps state r mailbox)
  unfolding reconcile_update log_event
  reconcile_update-Held state (ok result) mailbox same h = (h, same)
  reconcile_update-Held state (raise e) mailbox same h = h

  fuzzy_node-Held :
      (state : ReconciliationState) (mailbox : Mailbox N)
      → Same dry_run state
      → Held I mailbox
      → After (Held I) (Same dry_run) (fuzzy_node deps state mailbox)
  unfolding fuzzy_node outside
  fuzzy_node-Held state mailbox same h = (simp log_events-view h, same)

  fuzzy_edge-Held :
      (state : ReconciliationState) (mailbox : Mailbox N)
      → Same dry_run state
      → Held I mailbox
      → After (Held I) (Same dry_run) (fuzzy_edge deps state mailbox)
  unfolding fuzzy_edge
  fuzzy_edge-Held state mailbox same h = elim (Bool-cases (route_after_reconcile deps state)) [
    | inl taken ↦ rw taken (fuzzy_node-Held state mailbox same h)
    | inr passed ↦ rw passed (h, same)
  ]

  classify_node-Held :
      (state : ReconciliationState) (mailbox : Mailbox N)
      → Same dry_run state
      → Held I mailbox
      → After (Held I) (Same dry_run) (classify_node deps state mailbox)
  unfolding classify_node log_event
  classify_node-Held state mailbox same h = (h, same)

  decide_update-Held :
      (state : ReconciliationState) (r : Result (List ExceptionDecision × List AuditLog))
      → (mailbox : Mailbox N) → Same dry_run state
      → Held I mailbox
      → After (Held I) (Same dry_run) (decide_update deps state r mailbox)
  unfolding decide_update
  decide_update-Held state (ok decided) mailbox same h =
      (subst I (sym (log_events-view decided.1 mailbox.db)) h, same)
  decide_update-Held state (raise e) mailbox same h = h

  dispatch_update-Held :
      (state : ReconciliationState) (r : Result Outbox) (mailbox : Mailbox N)
      → Same dry_run state
      → After (Held I) Any (r, mailbox)
      → After (Held I) (Same dry_run) (dispatch_update deps state r mailbox)
  unfolding dispatch_update
  dispatch_update-Held state (ok out) mailbox same h = (
    subst I
        (sym (
          log_events-view out.events (upsert_all state.run_id out.lifecycle mailbox.db)
          ∙ upsert_all-view state.run_id out.lifecycle mailbox.db))
        h.0,
    same,
  )
  dispatch_update-Held state (raise e) mailbox same h = h

  dispatch_node-Held :
      (state : ReconciliationState) (mailbox : Mailbox N)
      → Same dry_run state
      → Held I mailbox
      → After (Held I) (Same dry_run) (dispatch_node deps state mailbox)
  unfolding dispatch_node
  dispatch_node-Held state mailbox same h = dispatch_update-Held state _ _ same (
      subst
        (λ b.
          After (Held I) Any (
            dispatch_all deps state.run_id b state.exceptions state.decisions empty_outbox mailbox))
        (sym same)
        (dispatch_all-Held deps I dry_run kept state.run_id state.exceptions state.decisions
          empty_outbox mailbox h))

  verify_node-Held :
      (state : ReconciliationState) (mailbox : Mailbox N)
      → Same dry_run state
      → Held I mailbox
      → After (Held I) (Same dry_run) (verify_node deps state mailbox)
  unfolding verify_node mark_resolved log_event
  verify_node-Held state mailbox same h = (h, same)

  reconcile_node-Held :
      (state : ReconciliationState) (mailbox : Mailbox N)
      → Same dry_run state
      → Held I mailbox
      → After (Held I) (Same dry_run) (reconcile_node deps state mailbox)
  unfolding reconcile_node
  reconcile_node-Held state mailbox same h = reconcile_update-Held state _ mailbox same h

  decide_node-Held :
      (state : ReconciliationState) (mailbox : Mailbox N)
      → Same dry_run state
      → Held I mailbox
      → After (Held I) (Same dry_run) (decide_node deps state mailbox)
  unfolding decide_node outside
  decide_node-Held state mailbox same h = decide_update-Held state _ _ same h

  -- Two nodes in a row.
  seq-Held :
      (node next : ReconciliationState → Exec (Mailbox N) ReconciliationState)
      → ((s : ReconciliationState) (m : Mailbox N)
          → Same dry_run s
          → Held I m
          → After (Held I) (Same dry_run) (node s m))
      → ((s : ReconciliationState) (m : Mailbox N)
          → Same dry_run s
          → Held I m
          → After (Held I) (Same dry_run) (next s m))
      → (s : ReconciliationState) (m : Mailbox N) → Same dry_run s
      → Held I m
      → After (Held I) (Same dry_run) ((node s >>= next) m)
  seq-Held node next f g s m same h =
      After-bind (Held I) (Same dry_run) (Same dry_run) (node s m) next (f s m same h)
        (λ s' m' h' same'. g s' m' same' h')

  pub run_graph-Held :
      (state : ReconciliationState) (mailbox : Mailbox N)
      → Same dry_run state
      → Held I mailbox
      → After (Held I) (Same dry_run) (run_graph deps state mailbox)
  unfolding run_graph from_fuzzy_edge from_classify from_decide from_dispatch
  run_graph-Held = seq-Held (reconcile_node deps) (from_fuzzy_edge deps) reconcile_node-Held (
      seq-Held (fuzzy_edge deps) (from_classify deps) fuzzy_edge-Held (
        seq-Held (classify_node deps) (from_decide deps) classify_node-Held (
          seq-Held (decide_node deps) (from_dispatch deps) decide_node-Held (
            seq-Held (dispatch_node deps) (verify_node deps) dispatch_node-Held verify_node-Held))))

module _ {N : Type 0} (deps : AgentDependencies N) where
  dispatch_one-dry :
      (I : View → Type 0) (run_id : String) (target : RecipientTarget)
      → (subject body : String) (mailbox : Mailbox N) → I (view mailbox.db)
      → I (view (dispatch_one deps run_id target subject body true mailbox).1.db)
  unfolding dispatch_one
  dispatch_one-dry I run_id target subject body mailbox h = h

  -- A run of the graph that is a dry run leaves the notification table as it is, however it ends.
  pub run_graph-dry :
      (state : ReconciliationState) (mailbox : Mailbox N)
      → state.dry_run ≡ true
      → (run_graph deps state mailbox).1.db.notification_log ≡ mailbox.db.notification_log
  run_graph-dry state mailbox dry =
      After-state (Held I) (Same true) _ _
        (run_graph-Held deps I true (dispatch_one-dry I) state mailbox dry refl)
    where
      I : View → Type 0
      I log = log.1 ≡ mailbox.db.notification_log

  -- The arguments that `_dispatch_one` gives to `dispatch`.
  abbrev call_for : String → RecipientTarget → String → String → Call
  call_for run_id target subject body = record {
    run_id = run_id;
    mismatch_key = target.mismatch_key;
    role = target.role;
    email = target.email;
    subject = subject;
    body = body;
  }

  dispatch_one-HasOneRowEach :
      (dry_run : Bool) (run_id : String) (target : RecipientTarget)
      → (subject body : String) (mailbox : Mailbox N) → HasOneRowEach mailbox.db.notification_log
      → HasOneRowEach
          (dispatch_one deps run_id target subject body dry_run mailbox).1.db.notification_log
  unfolding dispatch_one run_call
  dispatch_one-HasOneRowEach true run_id target subject body mailbox h = h
  dispatch_one-HasOneRowEach false run_id target subject body mailbox h =
      run_call-HasOneRowEach deps.notifications (call_for run_id target subject body) mailbox h

  -- A run of the graph keeps the notification table at one row for a key and address, however it ends.
  pub run_graph-HasOneRowEach :
      (state : ReconciliationState) (mailbox : Mailbox N)
      → HasOneRowEach mailbox.db.notification_log
      → HasOneRowEach (run_graph deps state mailbox).1.db.notification_log
  run_graph-HasOneRowEach state mailbox h =
      After-state (Held (λ log. HasOneRowEach log.1)) (Same state.dry_run) _ _ (
        run_graph-Held deps (λ log. HasOneRowEach log.1) state.dry_run
          (dispatch_one-HasOneRowEach state.dry_run) state mailbox refl h)

  dispatch_one-delivered :
      (key email : String) (dry_run : Bool) (run_id : String) (target : RecipientTarget)
      → (subject body : String) (mailbox : Mailbox N)
      → any_sent key email mailbox.db.notification_log ≡ true
      → any_sent key email
          (dispatch_one deps run_id target subject body dry_run mailbox).1.db.notification_log
        ≡ true
  unfolding dispatch_one run_call already_notified
  dispatch_one-delivered key email true run_id target subject body mailbox h = h
  dispatch_one-delivered key email false run_id target subject body mailbox h =
      run_call-keeps deps.notifications (call_for run_id target subject body) key email mailbox h

  -- A delivery that is recorded stays recorded through a run of the graph, however it ends.
  pub run_graph-delivered :
      (key email : String) (state : ReconciliationState) (mailbox : Mailbox N)
      → already_notified mailbox.db key email ≡ true
      → already_notified (run_graph deps state mailbox).1.db key email ≡ true
  unfolding already_notified
  run_graph-delivered key email state mailbox h =
      After-state (Held (λ log. any_sent key email log.1 ≡ true)) (Same state.dry_run) _ _ (
        run_graph-Held deps (λ log. any_sent key email log.1 ≡ true) state.dry_run
          (dispatch_one-delivered key email state.dry_run) state mailbox refl h)

  dispatch_one-run_log :
      (runs : List RunLog) (dry_run : Bool) (run_id : String) (target : RecipientTarget)
      → (subject body : String) (mailbox : Mailbox N) → mailbox.db.run_log ≡ runs
      → (dispatch_one deps run_id target subject body dry_run mailbox).1.db.run_log ≡ runs
  unfolding dispatch_one run_call
  dispatch_one-run_log runs true run_id target subject body mailbox h = h
  dispatch_one-run_log runs false run_id target subject body mailbox h =
      run_call-run_log deps.notifications (call_for run_id target subject body) mailbox ∙ h

  -- The graph leaves the table of runs alone.
  pub run_graph-run_log :
      (state : ReconciliationState) (mailbox : Mailbox N)
      → (run_graph deps state mailbox).1.db.run_log ≡ mailbox.db.run_log
  run_graph-run_log state mailbox =
      After-state (Held (λ log. log.0 ≡ mailbox.db.run_log)) (Same state.dry_run) _ _ (
        run_graph-Held deps (λ log. log.0 ≡ mailbox.db.run_log) state.dry_run
          (dispatch_one-run_log mailbox.db.run_log state.dry_run) state mailbox refl refl)
