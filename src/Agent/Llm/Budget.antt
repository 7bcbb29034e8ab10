-- ===== src/Agent/Llm/Budget.antt =====
-- The call budget of `GroqLLMClient`, and what it does without the model (src/reconcile/agent/llm.py).
use retail_reconciliation_ag.Prelude.{
  ℕ, zero, suc, ◌+◌, ◌-◌, ◌≤◌, ◌<◌, ◌⊎◌, String, List, [], ◌∷◌, length, Bool, Result, ok, raise,
  value_error, ◌≡◌, refl, arith, Bool-cases, leb, inl, inr, ap, sym, ◌∙◌,
}
use retail_reconciliation_ag.Domain.Enums.{RecipientRole}
use retail_reconciliation_ag.Domain.Records.{Obligation, Settlement, ExceptionRecord}
use retail_reconciliation_ag.Agent.Llm.Mock.{decide, draft_email, template_subject}
use retail_reconciliation_ag.Agent.Llm.Subjects.{draft_email-cases}
use retail_reconciliation_ag.Agent.Schemas.{ExceptionDecision, EmailDraft}
use Prim.Native.String.{count}
use retail_reconciliation_ag.Agent.Llm.Groq.{
  Chat, Groq, Invoked, answered, failed, budget_exceeded, or_fallback, invoke, groq_propose_fuzzy,
  groq_decide, groq_draft_email,
}

-- A call of one of the three methods, with its arguments.
pub data Request : Type 0 where
  fuzzy : List Obligation → List Settlement → Request
  decision : ExceptionRecord → Bool → ℕ → Request
  draft : ExceptionRecord → RecipientRole → String → Request

-- `xs[:n]`
abbrev pub take {ℓ} : {A : Type ℓ} → ℕ → List A → List A
take zero xs = []
take (suc n) [] = []
take (suc n) (x ∷ xs) = x ∷ take n xs

take-nil {ℓ} : {A : Type ℓ} (n : ℕ) → take {A = A} n [] ≡ []
take-nil zero = refl
take-nil (suc n) = refl

or_fallback-ok :
    {A : Type 0} (answer : Invoked A) (fallback : Result A)
    → ((a : A) × (fallback ≡ ok a))
    → (a : A) × (or_fallback answer fallback ≡ ok a)
unfolding or_fallback
or_fallback-ok (answered a) fallback h = (a, refl)
or_fallback-ok (failed e) fallback h = h

or_fallback-cases :
    {A : Type 0} (P : Type 0) (answer : Invoked A) (fallback : Result A)
    → ((a : A) × (fallback ≡ ok a)) ⊎ (P × (fallback ≡ raise value_error))
    → ((a : A) × (or_fallback answer fallback ≡ ok a))
      ⊎ (P × (or_fallback answer fallback ≡ raise value_error))
unfolding or_fallback
or_fallback-cases P (answered a) fallback h = inl (a, refl)
or_fallback-cases P (failed e) fallback h = h

module _ {M : Type 0} (chat : Chat M) (max_calls : ℕ) where
  -- What a call leaves of the client.
  unfoldable pub serve : Request → Groq M → Groq M
  unfolding groq_propose_fuzzy groq_decide groq_draft_email
  serve (fuzzy obligations settlements) client =
      (groq_propose_fuzzy chat max_calls obligations settlements client).1
  serve (decision exception within_sla threshold) client =
      (groq_decide chat max_calls exception within_sla threshold client).1
  serve (draft exception role tag) client =
      (groq_draft_email chat max_calls exception role tag client).1

  unfoldable pub serve_all : List Request → Groq M → Groq M
  unfolding serve
  serve_all [] client = client
  serve_all (request ∷ requests) client = serve_all requests (serve request client)

  invoke-calls :
      {A : Type 0} (structured : String → M → Result A × M) (prompt : String) (client : Groq M)
      → (invoke chat max_calls structured prompt client).1.calls ≡ suc client.calls
  unfolding invoke
  invoke-calls structured prompt client = ground arith

  -- Over the budget nothing is asked.
  invoke-over :
      {A : Type 0} (structured : String → M → Result A × M) (prompt : String) (client : Groq M)
      → max_calls ≤ client.calls
      → invoke chat max_calls structured prompt client
        ≡ (failed budget_exceeded, record client { calls = suc client.calls })
  unfolding invoke
  invoke-over structured prompt client h = ground arith

  serve-calls :
      (request : Request) (client : Groq M) → (serve request client).calls ≡ suc client.calls
  unfolding serve groq_propose_fuzzy groq_decide groq_draft_email
  serve-calls (fuzzy obligations settlements) client = invoke-calls chat.invoke_fuzzy _ client
  serve-calls (decision exception within_sla threshold) client =
      invoke-calls chat.invoke_decision _ client
  serve-calls (draft exception role tag) client = invoke-calls chat.invoke_draft _ client

  serve-over :
      (request : Request) (client : Groq M)
      → max_calls ≤ client.calls
      → (serve request client).chat ≡ client.chat
  unfolding serve groq_propose_fuzzy groq_decide groq_draft_email
  serve-over (fuzzy obligations settlements) client h =
      ap (λ r. r.1.chat) (invoke-over chat.invoke_fuzzy _ client h)
  serve-over (decision exception within_sla threshold) client h =
      ap (λ r. r.1.chat) (invoke-over chat.invoke_decision _ client h)
  serve-over (draft exception role tag) client h =
      ap (λ r. r.1.chat) (invoke-over chat.invoke_draft _ client h)

  serve_all-over :
      (requests : List Request) (client : Groq M)
      → max_calls ≤ client.calls
      → (serve_all requests client).chat ≡ client.chat
  unfolding serve_all
  serve_all-over [] client h = refl
  serve_all-over (request ∷ requests) client h =
      serve_all-over requests (serve request client) (omega (arith, serve-calls request client))
      ∙ serve-over request client h

  serve_all-take :
      (requests : List Request) (client : Groq M)
      → ((serve_all requests client).chat
          ≡ (serve_all (take (max_calls - client.calls) requests) client).chat)
        × ((serve_all requests client).calls ≡ length requests + client.calls)
  unfolding serve_all
  serve_all-take [] client =
      (rw (take-nil {A = Request} (max_calls - client.calls)) refl, omega arith)
  serve_all-take (request ∷ requests) client =
      let client' = serve request client in
      let rest = serve_all-take requests client' in
      let counted : client'.calls ≡ suc client.calls = serve-calls request client in
      (
        elim (Bool-cases (leb max_calls client.calls)) [
          | inl spent ↦
              let none_left : max_calls - client.calls ≡ 0 = ground arith in
              rw none_left (
                serve_all-over requests client' (ground arith)
                ∙ serve-over request client (ground arith))
          | inr left ↦
              let one_less : max_calls - client.calls ≡ suc (max_calls - client'.calls) =
                ground arith in
              rw one_less rest.0
        ],
        omega (arith, rest.1, counted),
      )

  -- A client that is called any number of times reaches the model for the first `max_calls` calls of its
  -- life only: the libraries are left in the state in which these calls leave them. Every call counts.
  -- Nothing sets the counter back, so the budget is not one per run: the calls of a later run reach the
  -- model only for what the earlier requests have left of it.
  pub serve_all-budget :
      (requests later : List Request) (client : Groq M)
      → ((serve_all requests client).chat
          ≡ (serve_all (take (max_calls - client.calls) requests) client).chat)
        × ((serve_all requests client).calls ≡ length requests + client.calls)
        × ((serve_all later (serve_all requests client)).chat
            ≡ (serve_all
                (take (max_calls - (length requests + client.calls)) later)
                (serve_all requests client)).chat)
  serve_all-budget requests later client =
      let (first, counted) = serve_all-take requests client in
      let after = serve_all-take later (serve_all requests client) in
      (first, counted, rw (sym counted) after.0)

  invoke-cases :
      {A : Type 0} (structured : String → M → Result A × M) (prompt : String) (client : Groq M)
      (fallback : Result A)
      → (client.calls < max_calls)
        ⊎ ((or_fallback (invoke chat max_calls structured prompt client).0 fallback ≡ fallback)
            × ((invoke chat max_calls structured prompt client).1.chat ≡ client.chat))
  unfolding or_fallback
  invoke-cases structured prompt client fallback = elim (Bool-cases (leb max_calls client.calls)) [
    | inr left ↦ inl (ground arith)
    | inl spent ↦
        let over = invoke-over structured prompt client (ground arith) in
        inr (ap (λ r. or_fallback r.0 fallback) over, ap (λ r. r.1.chat) over)
  ]

  -- How a call ends: as it does within the budget, or else as the mock client does, with the model left
  -- alone.
  abbrev pub Degrades : {A : Type 0} → Result A × Groq M → Result A → Groq M → Type 0
  Degrades answer fallback client =
      (client.calls < max_calls) ⊎ ((answer.0 ≡ fallback) × (answer.1.chat ≡ client.chat))

  -- `decide` always returns, whatever the model does, and `draft_email` returns, or else raises the
  -- ValueError of a template whose subject has more than 200 characters. Where the budget is spent, both
  -- end as those of the mock client do, and leave the model alone.
  pub groq-Degrades :
      (exception : ExceptionRecord) (within_sla : Bool) (threshold : ℕ) (role : RecipientRole)
      → (tag : String) (client : Groq M)
      → ((d : ExceptionDecision) × ((groq_decide chat max_calls exception within_sla threshold
              client).0
            ≡ ok d))
        × Degrades
            (groq_decide chat max_calls exception within_sla threshold client)
            (ok (decide exception within_sla threshold))
            client
        × (((d : EmailDraft) × ((groq_draft_email chat max_calls exception role tag client).0
                ≡ ok d))
            ⊎ ((200 < count (template_subject exception))
                × ((groq_draft_email chat max_calls exception role tag client).0
                    ≡ raise value_error)))
        × Degrades
            (groq_draft_email chat max_calls exception role tag client)
            (draft_email exception role tag)
            client
  unfolding groq_decide groq_draft_email
  groq-Degrades exception within_sla threshold role tag client = (
    or_fallback-ok _ _ (_, refl),
    invoke-cases chat.invoke_decision _ client _,
    or_fallback-cases _ _ _ (draft_email-cases exception role tag),
    invoke-cases chat.invoke_draft _ client _,
  )
