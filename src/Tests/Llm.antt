-- ===== src/Tests/Llm.antt =====
-- The LLM clients on test data.
use retail_reconciliation_ag.Prelude.{
  String, text, inr, some, none, false, ok, refl, ℕ, ◌+◌, ◌-◌, List, [], ◌∷◌, length, true, other,
  raise, All, ◌≡◌, ◌≢◌, ◌⊎◌, ◌<◌, value_error, arith,
}
use retail_reconciliation_ag.Domain.Enums.{RecipientRole}
use retail_reconciliation_ag.Agent.Llm.Mock.{decide, draft_email, propose_fuzzy, template_subject}
use retail_reconciliation_ag.Agent.Schemas.{ExceptionDecision, EmailDraft, email_draft}
use Prim.Native.String.{count}
use retail_reconciliation_ag.Agent.Llm.Groq.{Chat, Groq, groq_decide, groq_draft_email}
use retail_reconciliation_ag.Agent.Llm.Proposals.{
  IsProposal, UseDistinctSettlements, IsNamed, propose_fuzzy_lem,
}
use retail_reconciliation_ag.Agent.Llm.Budget.{
  Request, fuzzy, decision, draft, take, serve_all, serve_all-budget, groq-Degrades, Degrades,
}
use retail_reconciliation_ag.Audit.Tables.{RunLog, empty_database}
use retail_reconciliation_ag.Audit.Repository.{find_run, get_run}
use retail_reconciliation_ag.Notifications.Service.{Mailbox}
use retail_reconciliation_ag.Notifications.Notifiers.{
  SendParams, SdkAnswer, rejected, falsy, number, resend_send, has_lines,
}
use retail_reconciliation_ag.Domain.Reading.{codes}
use retail_reconciliation_ag.Incidents.{IncidentService}
use retail_reconciliation_ag.Agent.Service.{RunOutcome, run}
use retail_reconciliation_ag.Agent.Llm.Groq.{groq_client}
use retail_reconciliation_ag.Agent.State.{AgentDependencies}
use retail_reconciliation_ag.Agent.Production.{IsProduction, production_run-completes}
use retail_reconciliation_ag.Tests.{orders, deps, late, obligations, settlements}

-- A model that counts the calls and answers none of them.
abbrev silent : Chat ℕ
silent = record {
  invoke_fuzzy = λ prompt n. (raise (other "down"), n + 1);
  invoke_decision = λ prompt n. (raise (other "down"), n + 1);
  invoke_draft = λ prompt n. (raise (other "down"), n + 1);
  retrying = λ A attempts call n. call n;
  show_date = λ date. "2024-01-01";
}

abbrev fresh_client : Groq ℕ
fresh_client = record { calls = 0; chat = 0 }

abbrev spent_client : Groq ℕ
spent_client = record { calls = 2; chat = 2 }

abbrev requests : List Request
requests =
    fuzzy obligations settlements
    ∷ decision late true 1000
    ∷ draft late RecipientRole.bank "email"
    ∷ []

propose_fuzzy_example :
    All (IsProposal settlements [] obligations) (propose_fuzzy obligations settlements).pairings
    × UseDistinctSettlements (propose_fuzzy obligations settlements).pairings
    × All
        (λ o.
          All
            (λ s.
              (s.amount ≢ o.expected_amount)
              ⊎ IsNamed (propose_fuzzy obligations settlements).pairings o s)
            settlements)
        obligations
propose_fuzzy_example = propose_fuzzy_lem obligations settlements

serve_all-budget_example :
    ((serve_all silent 2 requests fresh_client).chat
      ≡ (serve_all silent 2 (take (2 - 0) requests) fresh_client).chat)
    × ((serve_all silent 2 requests fresh_client).calls ≡ length requests + 0)
    × ((serve_all silent 2 requests (serve_all silent 2 requests fresh_client)).chat
        ≡ (serve_all silent 2
            (take (2 - (length requests + 0)) requests)
            (serve_all silent 2 requests fresh_client)).chat)
serve_all-budget_example = serve_all-budget silent 2 requests requests fresh_client

groq-Degrades_example :
    ((d : ExceptionDecision) × ((groq_decide silent 2 late true 1000 spent_client).0 ≡ ok d))
    × Degrades silent 2
        (groq_decide silent 2 late true 1000 spent_client)
        (ok (decide late true 1000))
        spent_client
    × (((d : EmailDraft) × ((groq_draft_email silent 2 late RecipientRole.bank "email"
              spent_client).0
            ≡ ok d))
        ⊎ ((200 < count (template_subject late))
            × ((groq_draft_email silent 2 late RecipientRole.bank "email" spent_client).0
                ≡ raise value_error)))
    × Degrades silent 2
        (groq_draft_email silent 2 late RecipientRole.bank "email" spent_client)
        (draft_email late RecipientRole.bank "email")
        spent_client
groq-Degrades_example =
    groq-Degrades silent 2 late true 1000 RecipientRole.bank "email" spent_client

-- An SDK that raises error 422 for every mail.
abbrev refusing : SendParams → Groq ℕ → SdkAnswer × Groq ℕ
refusing params client =
    (rejected (record { status_code = falsy; code = number 422; shown = "bad address" }), client)

abbrev production : AgentDependencies (Groq ℕ)
production = record {
  config = deps.config;
  llm = groq_client silent 2;
  notifications = record {
    send = resend_send refusing "agent@x";
    breaker_call = λ func request n. func request n;
    retrying = λ attempts retry_on func n. func n;
    email_retry_attempts = 3;
  };
  fuzzy_enabled = true;
  sha1 = λ raw. raw;
  str_error = λ e. "error";
}

abbrev quiet_incidents : IncidentService (Groq ℕ)
quiet_incidents = record {
  new_incident_id = λ n. ("inc-1", n);
  admin_email = "";
  notification_service = none;
  best_effort_email = false;
}

abbrev inbox : Mailbox (Groq ℕ)
inbox = record { db = empty_database; provider = fresh_client }

silent-IsProduction : IsProduction silent 2 refusing "agent@x" production
silent-IsProduction = record {
  groq = refl;
  resend = refl;
  pass = record {
    breaker = λ func request n. inr (n, refl);
    retry = λ attempts retry_on func n. (n, refl);
  };
}

production_run-completes_example :
    (outcome : RunOutcome) × (mailbox' : Mailbox (Groq ℕ)) × (row : RunLog) × (run production
        quiet_incidents orders settlements "r1" 110 none false inbox
      ≡ (ok outcome, mailbox'))
    × (outcome.status ≡ "completed")
    × (get_run mailbox'.db "r1" ≡ some row)
    × (row.status ≡ "completed")
production_run-completes_example =
    production_run-completes silent 2 refusing "agent@x" production quiet_incidents orders
      settlements "r1" 110 none false inbox silent-IsProduction (omega arith) (omega arith)
      (unfold find_run in refl)

header_test : has_lines (codes "Payment\nBcc: x") ≡ true
unfolding has_lines
header_test = refl

header_end_test : has_lines (codes "Payment\n") ≡ false
unfolding has_lines
header_end_test = refl

-- An id of 170 characters makes the subject of the template too long.
abbrev long_id : String
long_id =
    "xxxxxxxxxxxxxxxxxxxxxxxxxxxxxxxxxxxxxxxxxxxxxxxxxxxxxxxxxxxxxxxxxxxxxxxxxxxxxxxxxxxxxxxxxxxxxxxxxxxxxxxxxxxxxxxxxxxxxxxxxxxxxxxxxxxxxxxxxxxxxxxxxxxxxxxxxxxxxxxxxxxxxxxxxx"

long_id_test :
    draft_email (record late { order_id = some long_id }) RecipientRole.bank "email"
    ≡ raise value_error
unfolding draft_email email_draft template_subject text
long_id_test = refl
