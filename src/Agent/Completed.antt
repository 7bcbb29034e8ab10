-- ===== src/Agent/Completed.antt =====
-- Runs whose clients return: the graph and the service
-- (src/reconcile/agent/graph.py, service.py).
use retail_reconciliation_ag.Prelude.{
  ℕ, String, List, length, Option, Bool, Result, ok, raise, ◌≡◌, refl, none, some, ◌∙◌, All,
}
use mathlib.Core.Path.{subst}
use retail_reconciliation_ag.Prelude.Effects.{Succeeds, Succeeds-bind, Exec, ◌>>=◌}
use retail_reconciliation_ag.Domain.Records.{Order, Settlement}
use retail_reconciliation_ag.Notifications.Service.{Mailbox}
use retail_reconciliation_ag.Agent.Schemas.{ExceptionDecision}
use retail_reconciliation_ag.Audit.Tables.{AuditLog}
use retail_reconciliation_ag.Agent.State.{ReconciliationState, AgentDependencies, outside}
use retail_reconciliation_ag.Agent.Nodes.{reconcile_node, classify_node, decide_update, decide_node}
use retail_reconciliation_ag.Agent.Dispatching.{
  Outbox, empty_outbox, dispatch_update, dispatch_node,
}
use retail_reconciliation_ag.Agent.Graph.{
  verify_node, fuzzy_edge, from_fuzzy_edge, from_classify, from_decide, from_dispatch, run_graph,
}
use retail_reconciliation_ag.Audit.Tables.{RunLog}
use retail_reconciliation_ag.Audit.Repository.{find_run, get_run}
use retail_reconciliation_ag.Incidents.{IncidentService}
use retail_reconciliation_ag.Agent.Service.{
  RunOutcome, build_outcome, initial_state, conclude, run_started, run_built, run,
}
use retail_reconciliation_ag.Agent.Outcomes.{start_run-found, run-IsConcluded}
use retail_reconciliation_ag.Agent.Naming.{HasShortOrderId, HasShortId, build_obligations-short}
use retail_reconciliation_ag.Agent.Named.{
  IsGiven, IsMatched, IsNamed, reconcile_node-Succeeds, fuzzy_edge-Succeeds, classify_node-Succeeds,
}
use retail_reconciliation_ag.Agent.Completion.{
  Done, AreReliable, decide_all-Succeeds, dispatch_all-Succeeds,
}

-- There are as many decisions as exceptions, which have short ids.
abbrev Decided : ReconciliationState → Type 0
Decided state = (length state.decisions ≡ length state.exceptions) × IsNamed state

module _ {N : Type 0} (deps : AgentDependencies N) where
  decide_update-Decided :
      (state : ReconciliationState) (r : Result (List ExceptionDecision × List AuditLog)) (n : N)
      (mailbox : Mailbox N)
      → IsNamed state
      → Succeeds (λ d. length d.0 ≡ length state.exceptions) (r, n)
      → Succeeds Decided (decide_update deps state r mailbox)
  unfolding decide_update
  decide_update-Decided state (ok (decisions, events)) n mailbox named h = (h, named)
  decide_update-Decided state (raise e) n mailbox named h = h

  dispatch_update-Succeeds :
      (state : ReconciliationState) (r : Result Outbox) (mailbox : Mailbox N)
      → Succeeds Done (r, mailbox)
      → Succeeds Done (dispatch_update deps state r mailbox)
  unfolding dispatch_update
  dispatch_update-Succeeds state (ok out) mailbox h = tt
  dispatch_update-Succeeds state (raise e) mailbox h = h

-- Two nodes in a row.
seq :
    {N : Type 0} (P Q R : ReconciliationState → Type 0)
    (node next : ReconciliationState → Exec (Mailbox N) ReconciliationState)
    → ((s : ReconciliationState) (m : Mailbox N) → P s → Succeeds Q (node s m))
    → ((s : ReconciliationState) (m : Mailbox N) → Q s → Succeeds R (next s m))
    → (s : ReconciliationState) (m : Mailbox N) → P s
    → Succeeds R ((node s >>= next) m)
seq P Q R node next f g s m h = Succeeds-bind Q R (node s m) next (f s m h) g

module _ {N : Type 0} (deps : AgentDependencies N) (reliable : AreReliable deps) where
  decide_node-Decided :
      (state : ReconciliationState) (mailbox : Mailbox N)
      → IsNamed state
      → Succeeds Decided (decide_node deps state mailbox)
  unfolding decide_node outside
  decide_node-Decided state mailbox named =
      decide_update-Decided deps state _ _ _ named
        (decide_all-Succeeds deps reliable state.run_id state.exceptions mailbox.provider)

  dispatch_node-Succeeds :
      (state : ReconciliationState) (mailbox : Mailbox N)
      → Decided state
      → Succeeds Done (dispatch_node deps state mailbox)
  unfolding dispatch_node
  dispatch_node-Succeeds state mailbox h = dispatch_update-Succeeds deps state _ _ (
      dispatch_all-Succeeds deps reliable state.run_id state.dry_run state.exceptions
        state.decisions empty_outbox mailbox h.0 h.1)

  run_graph-Succeeds :
      (state : ReconciliationState) (mailbox : Mailbox N)
      → IsGiven state
      → Succeeds Done (run_graph deps state mailbox)
  unfolding run_graph from_fuzzy_edge from_classify from_decide from_dispatch verify_node
  run_graph-Succeeds =
      seq IsGiven IsMatched Done (reconcile_node deps) (from_fuzzy_edge deps)
        (reconcile_node-Succeeds deps)
        (seq IsMatched IsMatched Done (fuzzy_edge deps) (from_classify deps)
          (fuzzy_edge-Succeeds deps)
          (seq IsMatched IsNamed Done (classify_node deps) (from_decide deps)
            (classify_node-Succeeds deps)
            (seq IsNamed Decided Done (decide_node deps) (from_dispatch deps) decide_node-Decided (
              seq Decided Done Done (dispatch_node deps) (verify_node deps) dispatch_node-Succeeds
                (λ s m _. tt)))))

module _ {N : Type 0} (deps : AgentDependencies N) (incidents : IncidentService N) where
  abbrev IsCompleted : RunOutcome → Type 0
  IsCompleted outcome = outcome.status ≡ "completed"

  conclude-IsCompleted :
      (run_id : String) (n m : ℕ) (r : Result ReconciliationState) (mailbox : Mailbox N)
      → Succeeds Done (r, mailbox)
      → IsCompleted (conclude deps incidents run_id n m (r, mailbox)).0
  unfolding conclude build_outcome
  conclude-IsCompleted run_id n m (ok final) mailbox h = refl
  conclude-IsCompleted run_id n m (raise exc) mailbox h = absurd h

  run-Succeeds :
      (orders : List Order) (settlements : List Settlement) (run_id : String) (as_of : ℕ)
      → (input_hash : Option String) (dry_run : Bool) (mailbox : Mailbox N) → AreReliable deps
      → All HasShortOrderId orders
      → All HasShortId settlements
      → find_run run_id mailbox.db.run_log ≡ none
      → Succeeds IsCompleted
          (run deps incidents orders settlements run_id as_of input_hash dry_run mailbox)
  unfolding run run_built run_started
  run-Succeeds orders settlements run_id as_of input_hash dry_run mailbox reliable named ids h =
      let (built, returned, short_built) =
        build_obligations-short orders deps.config.reconciliation.amount_tolerance named in
      let (db, row, started, _) =
        start_run-found deps incidents run_id input_hash (length orders) (length settlements)
          mailbox.db h in
      rw (returned, started)
        (conclude-IsCompleted run_id (length orders) (length settlements) _ _ (
          run_graph-Succeeds deps reliable (initial_state run_id as_of dry_run settlements built)
            (record mailbox { db = db }) (short_built.0, ids, short_built.1)))

  -- Where the ids of the rows have at most 160 characters, the LLM client returns whenever it is asked to
  -- decide, or to draft for an exception with such ids, and each delivery ends in a result, a run under an id that is not taken is completed: it returns, and both the outcome and
  -- the row of the run say "completed". A failing proposal of pairings does not stop it.
  pub run-completes :
      (orders : List Order) (settlements : List Settlement) (run_id : String) (as_of : ℕ)
      → (input_hash : Option String) (dry_run : Bool) (mailbox : Mailbox N) → AreReliable deps
      → All HasShortOrderId orders
      → All HasShortId settlements
      → find_run run_id mailbox.db.run_log ≡ none
      → (outcome : RunOutcome) × (mailbox' : Mailbox N) × (row : RunLog) × (run deps incidents
            orders settlements run_id as_of input_hash dry_run mailbox
          ≡ (ok outcome, mailbox'))
        × (outcome.status ≡ "completed")
        × (get_run mailbox'.db run_id ≡ some row)
        × (row.status ≡ "completed")
  run-completes orders settlements run_id as_of input_hash dry_run mailbox reliable named ids h =
      let (outcome, mailbox', ran, concluded) =
        run-IsConcluded deps incidents orders settlements run_id as_of input_hash dry_run mailbox
          h in
      let status : outcome.status ≡ "completed" = subst (Succeeds IsCompleted) ran (
        run-Succeeds orders settlements run_id as_of input_hash dry_run mailbox reliable named ids
          h) in
      (
        outcome,
        mailbox',
        concluded.row,
        ran,
        status,
        concluded.found,
        concluded.same_status ∙ status,
      )
