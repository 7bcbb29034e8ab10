-- ===== src/Agent/Schemas.antt =====
-- src/reconcile/agent/schemas.py, and the client protocol of src/reconcile/agent/llm.py
use Prim.Native.String.{count}
use retail_reconciliation_ag.Prelude.{
  ℕ, String, List, Option, Bool, ◌&&◌, leb, Result, ok, raise, value_error, if◌then◌else◌,
}
use retail_reconciliation_ag.Prelude.Effects.{Exec}
use retail_reconciliation_ag.Domain.Enums.{StrEnum, PlannerAction, RecipientRole}
use retail_reconciliation_ag.Domain.Records.{Obligation, Settlement, ExceptionRecord}

pub data Severity : Type 0 where
  routine needs_review high_value : Severity

instance abbrev pub severity_enum : StrEnum Severity
severity_enum = record {
  value_of = elim [
    | routine ↦ "ROUTINE"
    | needs_review ↦ "NEEDS_REVIEW"
    | high_value ↦ "HIGH_VALUE"
  ];
}

pub record ExceptionDecision : Type 0 where
  pub severity : Severity
  pub action : PlannerAction
  pub rationale : String

-- The confidence is counted in the least positive double, so that every double has its number.
pub record FuzzyPairing : Type 0 where
  pub order_id : Option String
  pub settlement_id : Option String
  pub confidence : ℕ
  pub rationale : String

pub record FuzzyProposal : Type 0 where
  pub pairings : List FuzzyPairing

pub record EmailDraft : Type 0 where
  pub subject : String
  pub body : String

-- `EmailDraft(subject=..., body=...)`, which checks the lengths; `ValidationError` is a `ValueError`.
unfoldable pub email_draft : String → String → Result EmailDraft
email_draft subject body =
    if leb 1 (count subject) && leb (count subject) 200 && leb 1 (count body)
    then ok (record { subject = subject; body = body })
    else raise value_error

pub record EmailMessageView : Type 0 where
  pub recipient_role : String
  pub recipient_email : String
  pub subject : String
  pub body : String
  pub status : String
  pub reason : Option String
  pub mismatch_key : String

-- `LLMClient`. A call may raise, and it may change the state `N` of what is outside of the program.
pub record LlmClient (N : Type 0) : Type 0 where
  pub decide : ExceptionRecord → Bool → ℕ → Exec N ExceptionDecision
  pub propose_fuzzy : List Obligation → List Settlement → Exec N FuzzyProposal
  pub draft_email : ExceptionRecord → RecipientRole → String → Exec N EmailDraft
