-- ===== src/Agent/Production.antt =====
-- A run with the Groq client and the Resend notifier (src/reconcile/agent/llm.py,
-- src/reconcile/notifications/resend_notifier.py).
use retail_reconciliation_ag.Prelude.{
  ℕ, String, List, Option, none, some, Bool, ok, ◌≡◌, ◌⊎◌, inl, inr, sym, contains, nat_eq,
  Bool-cases, Result, true, All, arith,
}
use mathlib.Core.Path.{subst}
use retail_reconciliation_ag.Prelude.Effects.{Succeeds}
use retail_reconciliation_ag.Domain.Records.{Order, Settlement, ExceptionRecord}
use retail_reconciliation_ag.Audit.Tables.{RunLog}
use retail_reconciliation_ag.Audit.Repository.{find_run, get_run}
use retail_reconciliation_ag.Notifications.Service.{
  SendRequest, Attempt, returned, circuit_open, transient, permanent, crashed, is_transient,
  Transport, Mailbox, handle_attempt, call_with_retry, send_with_retry,
}
use retail_reconciliation_ag.Notifications.Notifiers.{
  SdkAnswer, SdkError, SendParams, accepted, rejected, Attribute, falsy, other_value, number,
  first_truthy, classify, classify_status, permanent_statuses, of_answer, resend_send,
}
use retail_reconciliation_ag.Incidents.{IncidentService}
use retail_reconciliation_ag.Agent.State.{AgentDependencies}
use retail_reconciliation_ag.Agent.Llm.Groq.{
  Chat, Groq, Invoked, answered, failed, or_fallback, groq_client, groq_decide, groq_draft_email,
}
use retail_reconciliation_ag.Agent.Llm.Subjects.{HasShortIds, short-subject}
use retail_reconciliation_ag.Agent.Llm.Budget.{groq-Degrades}
use retail_reconciliation_ag.Agent.Naming.{HasShortOrderId, HasShortId}
use retail_reconciliation_ag.Domain.Enums.{RecipientRole}
use retail_reconciliation_ag.Agent.Completion.{Done, AreReliable}
use retail_reconciliation_ag.Agent.Completed.{run-completes}
use retail_reconciliation_ag.Agent.Service.{RunOutcome, run}

Succeeds-of-ok : {S A : Type 0} (r : Result A) (s : S) (a : A) → r ≡ ok a → Succeeds Done (r, s)
Succeeds-of-ok r s a e = rw e tt

-- An attempt that `_send` turns into a result.
abbrev IsHandled : Attempt → Type 0
IsHandled (crashed e) = ⊥
IsHandled (returned result) = Unit
IsHandled circuit_open = Unit
IsHandled (transient e) = Unit
IsHandled (permanent e) = Unit

classify_status-IsHandled :
    (status : Attribute) (e : SdkError) → IsHandled (classify_status status e)
classify_status-IsHandled falsy e = tt
classify_status-IsHandled other_value e = tt
classify_status-IsHandled (number n) e = elim (Bool-cases (contains permanent_statuses n)) [
  | inl never ↦ rw never tt
  | inr later ↦ rw later tt
]

of_answer-IsHandled : (answer : SdkAnswer) → IsHandled (of_answer answer)
unfolding classify
of_answer-IsHandled (accepted provider_id) = tt
of_answer-IsHandled (rejected e) = classify_status-IsHandled (first_truthy e.status_code e.code) e

resend_send-IsHandled :
    {N : Type 0} (sdk : SendParams → N → SdkAnswer × N) (sender : String) (request : SendRequest)
    (n : N)
    → IsHandled (resend_send sdk sender request n).0
unfolding resend_send
resend_send-IsHandled sdk sender request n = of_answer-IsHandled (sdk _ n).0

handle_attempt-Succeeds :
    {N : Type 0} (attempt : Attempt) (n : N)
    → IsHandled attempt
    → Succeeds Done (handle_attempt attempt, n)
unfolding handle_attempt
handle_attempt-Succeeds (returned result) n h = tt
handle_attempt-Succeeds circuit_open n h = tt
handle_attempt-Succeeds (transient e) n h = tt
handle_attempt-Succeeds (permanent e) n h = tt
handle_attempt-Succeeds (crashed e) n h = h

-- What the libraries around the notifier document: pybreaker's `call` raises its own error or ends as
-- the function that it is given does, and tenacity's retrying, with `reraise`, ends as some call of its
-- function has ended.
pub record PassOn {N : Type 0} (t : Transport N) : Type 0 where
  pub breaker :
      (func : SendRequest → N → Attempt × N) (request : SendRequest) (n : N)
      → ((t.breaker_call func request n).0 ≡ circuit_open)
        ⊎ ((m : N) × ((t.breaker_call func request n).0 ≡ (func request m).0))
  pub retry :
      (attempts : ℕ) (retry_on : Attempt → Bool) (func : N → Attempt × N) (n : N)
      → (m : N) × ((t.retrying attempts retry_on func n).0 ≡ (func m).0)

module _ {N : Type 0} (t : Transport N) (pass : PassOn t)
    (handled : (request : SendRequest) (n : N) → IsHandled (t.send request n).0) where
  breaker-IsHandled :
      (request : SendRequest) (n : N) → IsHandled (t.breaker_call t.send request n).0
  breaker-IsHandled request n = elim (pass.breaker t.send request n) [
    | inl tripped ↦ subst IsHandled (sym tripped) tt
    | inr (m, same) ↦ subst IsHandled (sym same) (handled request m)
  ]

  send_with_retry-Succeeds :
      (request : SendRequest) (n : N) → Succeeds Done (send_with_retry t request n)
  unfolding send_with_retry call_with_retry
  send_with_retry-Succeeds request n =
      let (m, same) =
        pass.retry t.email_retry_attempts is_transient (t.breaker_call t.send request) n in
      handle_attempt-Succeeds _ _ (subst IsHandled (sym same) (breaker-IsHandled request m))

module _ {M : Type 0} (chat : Chat M) (max_calls : ℕ)
    (sdk : SendParams → Groq M → SdkAnswer × Groq M) (sender : String)
    (deps : AgentDependencies (Groq M)) where
  -- The agent works with the Groq client and the Resend notifier.
  pub record IsProduction : Type 0 where
    pub groq : deps.llm ≡ groq_client chat max_calls
    pub resend : deps.notifications.send ≡ resend_send sdk sender
    pub pass : PassOn deps.notifications

  groq_draft_email-Succeeds :
      (e : ExceptionRecord) (role : RecipientRole) (tag : String) (n : Groq M)
      → HasShortIds e
      → Succeeds Done (groq_draft_email chat max_calls e role tag n)
  groq_draft_email-Succeeds e role tag n short_ids =
      let (_, _, ended, _) = groq-Degrades chat max_calls e true 0 role tag n in
      elim ended [
        | inl (draft, made) ↦ Succeeds-of-ok _ _ draft made
        | inr (long, _) ↦ absurd (omega (arith, short-subject e short_ids))
      ]

  decided-Succeeds :
      {A : Type 0} (answer : Invoked A) (a : A) (n : Groq M)
      → Succeeds Done (or_fallback answer (ok a), n)
  unfolding or_fallback
  decided-Succeeds (answered b) a n = tt
  decided-Succeeds (failed e) a n = tt

  production-AreReliable : IsProduction → AreReliable deps
  unfolding groq_decide or_fallback
  production-AreReliable h = record {
    decides = λ e within_sla threshold n.
        subst (λ llm. Succeeds Done (llm.decide e within_sla threshold n)) (sym h.groq)
          (decided-Succeeds _ _ _);
    drafts = λ e role tag n short_ids.
        subst (λ llm. Succeeds Done (llm.draft_email e role tag n)) (sym h.groq)
          (groq_draft_email-Succeeds e role tag n short_ids);
    delivers = send_with_retry-Succeeds deps.notifications h.pass (λ request n.
        subst (λ send. IsHandled (send request n).0) (sym h.resend)
          (resend_send-IsHandled sdk sender request n));
  }

  -- With the Groq client and the Resend notifier, libraries that pass on how a call has ended, and order
  -- and settlement ids of at most 160 characters, a run under an id that is not taken is completed,
  -- whatever the model and the SDK of Resend return or raise: both the outcome and the row of the run
  -- say so.
  pub production_run-completes :
      (incidents : IncidentService (Groq M)) (orders : List Order) (settlements : List Settlement)
      → (run_id : String) (as_of : ℕ) (input_hash : Option String) (dry_run : Bool)
      → (mailbox : Mailbox (Groq M)) → IsProduction
      → All HasShortOrderId orders
      → All HasShortId settlements
      → find_run run_id mailbox.db.run_log ≡ none
      → (outcome : RunOutcome) × (mailbox' : Mailbox (Groq M)) × (row : RunLog) × (run deps
            incidents orders settlements run_id as_of input_hash dry_run mailbox
          ≡ (ok outcome, mailbox'))
        × (outcome.status ≡ "completed")
        × (get_run mailbox'.db run_id ≡ some row)
        × (row.status ≡ "completed")
  production_run-completes incidents orders settlements run_id as_of input_hash dry_run mailbox h
        named ids fresh =
      run-completes deps incidents orders settlements run_id as_of input_hash dry_run mailbox
        (production-AreReliable h) named ids fresh
