-- ===== src/Agent/Llm/Groq.antt =====
-- src/reconcile/agent/llm.py: `GroqLLMClient`
use retail_reconciliation_ag.Prelude.{
  ℕ, ◌+◌, String, List, Bool, Result, ok, raise, other, ltb, show_money, if◌then◌else◌,
}
use retail_reconciliation_ag.Prelude.Effects.{Exec}
use retail_reconciliation_ag.Domain.Enums.{RecipientRole}
use retail_reconciliation_ag.Domain.Records.{Obligation, Settlement, ExceptionRecord}
use retail_reconciliation_ag.Agent.Schemas.{ExceptionDecision, FuzzyProposal, EmailDraft, LlmClient}
use retail_reconciliation_ag.Agent.Llm.Mock.{decide, draft_email}
use retail_reconciliation_ag.Agent.Llm.Prompts.{
  decide_prompt, fuzzy_prompt, draft_prompt, obligations_text, settlements_text,
}

-- The libraries around the model, over their state `M`: for each schema the model's structured output
-- (`structured.invoke(prompt)`), where a text is what the call raises; tenacity's `Retrying`; and `str`
-- of a date.
pub record Chat (M : Type 0) : Type 1 where
  pub invoke_fuzzy : String → M → Result FuzzyProposal × M
  pub invoke_decision : String → M → Result ExceptionDecision × M
  pub invoke_draft : String → M → Result EmailDraft × M
  pub retrying : (A : Type 0) → ℕ → (M → Result A × M) → M → Result A × M
  pub show_date : ℕ → String

-- `_calls`, and the state of the libraries.
pub record Groq (M : Type 0) : Type 0 where
  pub calls : ℕ
  pub chat : M

-- What the client raises by itself.
pub data LlmError : Type 0 where
  transient budget_exceeded : LlmError

-- The outcome of `_invoke`.
pub data Invoked (A : Type 0) : Type 0 where
  answered : A → Invoked A
  failed : LlmError → Invoked A

-- `call`: whatever the provider raises is a transient error.
abbrev pub as_transient : {A : Type 0} → Result A → Invoked A
as_transient (ok a) = answered a
as_transient (raise e) = failed transient

-- The handlers of `decide` and `draft_email`.
unfoldable pub or_fallback : {A : Type 0} → Invoked A → Result A → Result A
or_fallback (answered a) fallback = ok a
or_fallback (failed e) fallback = fallback

-- A call of `propose_fuzzy` has no handler; the texts of the errors are left out.
abbrev pub or_raise : {A : Type 0} → Invoked A → Result A
or_raise (answered a) = ok a
or_raise (failed transient) = raise (other "LLMTransientError")
or_raise (failed budget_exceeded) = raise (other "LLMBudgetExceededError")

module _ {M : Type 0} (chat : Chat M) (max_calls : ℕ) where
  -- `_invoke`, after `_consume_budget`, for `structured.invoke`.
  unfoldable pub invoke :
      {A : Type 0} → (String → M → Result A × M) → String → Groq M → Invoked A × Groq M
  invoke structured prompt client =
      let calls = client.calls + 1 in
      let (result, state) = chat.retrying _ 3 (structured prompt) client.chat in
      if ltb max_calls calls
      then (failed budget_exceeded, record client { calls = calls })
      else (as_transient result, record { calls = calls; chat = state })

  unfoldable pub groq_propose_fuzzy :
      List Obligation → List Settlement → Exec (Groq M) FuzzyProposal
  unfolding invoke fuzzy_prompt obligations_text settlements_text
  groq_propose_fuzzy obligations settlements client =
      let (answer, client') =
        invoke chat.invoke_fuzzy
          (fuzzy_prompt (obligations_text chat.show_date obligations)
            (settlements_text chat.show_date settlements))
          client in
      (or_raise answer, client')

  unfoldable pub groq_decide : ExceptionRecord → Bool → ℕ → Exec (Groq M) ExceptionDecision
  unfolding invoke decide_prompt or_fallback decide show_money
  groq_decide exception within_sla high_value_threshold client =
      let (answer, client') =
        invoke chat.invoke_decision
          (decide_prompt exception within_sla (show_money high_value_threshold)) client in
      (or_fallback answer (ok (decide exception within_sla high_value_threshold)), client')

  unfoldable pub groq_draft_email :
      ExceptionRecord → RecipientRole → String → Exec (Groq M) EmailDraft
  unfolding invoke draft_prompt or_fallback draft_email
  groq_draft_email exception role tag client =
      let (answer, client') = invoke chat.invoke_draft (draft_prompt exception role tag) client in
      (or_fallback answer (draft_email exception role tag), client')

  abbrev pub groq_client : LlmClient (Groq M)
  groq_client = record {
    decide = groq_decide;
    propose_fuzzy = groq_propose_fuzzy;
    draft_email = groq_draft_email;
  }
