-- ===== src/Agent/Llm/Subjects.antt =====
-- The drafts of `MockLLMClient`, whose subjects `EmailDraft` limits to 200 characters
-- (src/reconcile/agent/llm.py, src/reconcile/agent/schemas.py).
use Prim.Native.String.{count}
use package.text.Mathlib.TextLemmas.{length-append}
use retail_reconciliation_ag.Prelude.{
  ◌+◌, ◌≤◌, ◌<◌, String, ◌≡◌, arith, ok, raise, value_error, Option, none, some, or_else, text,
  join, string_eq, ◌==◌, Bool-cases, inl, inr, ◌⊎◌, leb,
}
use retail_reconciliation_ag.Domain.Enums.{
  value, RecipientRole, ExceptionReason, cash_missing, exception_reason_enum,
}
use retail_reconciliation_ag.Domain.Records.{ExceptionRecord}
use retail_reconciliation_ag.Agent.Schemas.{EmailDraft, email_draft}
use retail_reconciliation_ag.Agent.Llm.Mock.{draft_email, template_subject, template_body}

-- The text has at most 160 characters, if it is there.
abbrev pub IsShort : Option String → Type 0
IsShort none = Unit
IsShort (some s) = count s ≤ 160

-- The ids of the exception are short.
abbrev pub HasShortIds : ExceptionRecord → Type 0
HasShortIds e = IsShort e.order_id × IsShort e.settlement_id

or_else-short :
    (x : Option String) (d : String) → IsShort x → count d ≤ 160 → count (or_else x d) ≤ 160
or_else-short none d h k = k
or_else-short (some s) d h k = elim (Bool-cases (s == "")) [
  | inl empty ↦ rw empty k
  | inr filled ↦ rw filled h
]

reason-count : (r : ExceptionReason) → count (value r) ≤ 20
reason-count cash_missing = omega arith
reason-count _ = omega arith

pub template_subject-count :
    (e : ExceptionRecord)
    → count (template_subject e)
      ≡ 20 + count (value e.reason) + count (or_else e.order_id (or_else e.settlement_id "unknown"))
unfolding template_subject text
template_subject-count e = simp length-append (omega arith)

body-filled :
    (e : ExceptionRecord) (role : RecipientRole) (tag : String)
    → 1 ≤ count (template_body e role tag)
unfolding template_body text join
body-filled e role tag = simp length-append (omega arith)

email_draft-cases :
    (subject body : String)
    → 1 ≤ count subject
    → 1 ≤ count body
    → ((d : EmailDraft) × (email_draft subject body ≡ ok d))
      ⊎ ((200 < count subject) × (email_draft subject body ≡ raise value_error))
unfolding email_draft
email_draft-cases subject body h k = elim (Bool-cases (leb (count subject) 200)) [
  | inl fits ↦ inl (record { subject = subject; body = body }, ground arith)
  | inr long ↦ inr (ground arith, ground arith)
]

-- A draft is made, or its subject is too long.
pub draft_email-cases :
    (e : ExceptionRecord) (role : RecipientRole) (tag : String)
    → ((d : EmailDraft) × (draft_email e role tag ≡ ok d))
      ⊎ ((200 < count (template_subject e)) × (draft_email e role tag ≡ raise value_error))
unfolding draft_email
draft_email-cases e role tag =
    email_draft-cases (template_subject e) (template_body e role tag)
      (omega (arith, template_subject-count e)) (body-filled e role tag)

pub short-subject : (e : ExceptionRecord) → HasShortIds e → count (template_subject e) ≤ 200
short-subject e h = omega (
  arith,
  template_subject-count e,
  reason-count e.reason,
  or_else-short e.order_id (or_else e.settlement_id "unknown") h.0
      (or_else-short e.settlement_id "unknown" h.1 (omega arith)),
)
