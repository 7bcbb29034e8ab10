-- ===== src/Agent/Llm/Mock.antt =====
-- src/reconcile/agent/llm.py: `MockLLMClient` and the rules that it follows.
use retail_reconciliation_ag.Prelude.{
  Result, ℕ, ◌*◌, ◌^◌, String, List, [], ◌∷◌, ◌++◌, Option, none, some, Bool, false, ◌&&◌, ◌||◌,
  leb, abs, sub_ℕ, text, join, or_else, show_money, contains, truthy, string_eq, nat_eq, ◌==◌,
  if◌then◌else◌,
}
use retail_reconciliation_ag.Prelude.Dict.{Dict, get, get_or}
use retail_reconciliation_ag.Prelude.Effects.{pure, lift}
use retail_reconciliation_ag.Domain.Enums.{
  value, PaymentType, PaymentGateway, SettlementSource, RecipientRole, ExceptionReason,
  cash_missing, online_missing, late_settlement, amount_short, amount_excess, duplicate_settlement,
  unmatched_settlement, order_sum_mismatch, fuzzy_match_review, PlannerAction, wait,
  email_store_manager, email_pg, email_bank, escalate, exception_reason_eq, exception_reason_enum,
  planner_action_enum, payment_type_enum, payment_gateway_enum, settlement_source_enum,
}
use retail_reconciliation_ag.Domain.Records.{Obligation, Settlement, ExceptionRecord}
use retail_reconciliation_ag.Agent.Schemas.{
  Severity, severity_enum, routine, needs_review, high_value, ExceptionDecision, FuzzyPairing,
  FuzzyProposal, EmailDraft, email_draft, LlmClient,
}

abbrev pub needs_review_reasons : List ExceptionReason
needs_review_reasons =
    amount_short ∷ amount_excess ∷ duplicate_settlement ∷ fuzzy_match_review ∷ order_sum_mismatch
    ∷ []

abbrev pub action_by_reason : Dict ExceptionReason PlannerAction
action_by_reason =
    (cash_missing, email_store_manager)
    ∷ (online_missing, email_pg)
    ∷ (amount_short, email_pg)
    ∷ (amount_excess, email_pg)
    ∷ (duplicate_settlement, email_pg)
    ∷ (unmatched_settlement, email_bank)
    ∷ (order_sum_mismatch, email_store_manager)
    ∷ (fuzzy_match_review, escalate)
    ∷ []

-- The doubles 0.9, 0.6 and 0.5, in multiples of 2 ^ -1074.
unfoldable pub nine_tenths : ℕ
nine_tenths = 8106479329266893 * 2 ^ 1021

unfoldable pub six_tenths : ℕ
six_tenths = 5404319552844595 * 2 ^ 1021

unfoldable pub half : ℕ
half = 2 ^ 1073

-- The gateway of the obligation, if it has one, is the source of the settlement.
abbrev pub source_matches : Option PaymentGateway → SettlementSource → Bool
source_matches none source = false
source_matches (some gateway) source = value source == value gateway

abbrev pub date_close : Obligation → Settlement → Bool
date_close obligation settlement =
    leb (abs (sub_ℕ settlement.settlement_date obligation.order_date)) 3

unfoldable pub fuzzy_confidence : Obligation → Settlement → ℕ
unfolding nine_tenths six_tenths half
fuzzy_confidence obligation settlement =
    if source_matches obligation.payment_gateway settlement.source
      && date_close obligation settlement
    then nine_tenths
    else if date_close obligation settlement
    then six_tenths
    else half

unfoldable pub mock_action : ExceptionRecord → Bool → PlannerAction
unfolding get
mock_action exception within_sla =
    if exception.reason == late_settlement
    then if within_sla then wait else email_pg
    else get_or action_by_reason exception.reason escalate

-- `a is not None and a >= threshold`
abbrev pub reaches : ℕ → Option ℕ → Bool
reaches threshold none = false
reaches threshold (some amount) = leb threshold amount

unfoldable pub mock_severity : ExceptionRecord → ℕ → Severity
mock_severity exception threshold =
    if reaches threshold exception.expected_amount || reaches threshold exception.actual_amount
    then high_value
    else if contains needs_review_reasons exception.reason
    then needs_review
    else routine

unfoldable pub decide : ExceptionRecord → Bool → ℕ → ExceptionDecision
unfolding mock_action mock_severity text
decide exception within_sla high_value_threshold =
    let action = mock_action exception within_sla in
    let severity = mock_severity exception high_value_threshold in
    record {
      severity = severity;
      action = action;
      rationale = text (
          value exception.reason
          ∷ " -> "
          ∷ value action
          ∷ " (severity "
          ∷ value severity
          ∷ ")."
          ∷ []);
    }

-- The inner loop of `propose_fuzzy`: the settlement at which it breaks off.
unfoldable pub find_settlement : List String → Obligation → List Settlement → Option Settlement
find_settlement used obligation [] = none
find_settlement used obligation (settlement ∷ settlements) =
    let rest = find_settlement used obligation settlements in
    if contains used settlement.settlement_id
    then rest
    else if settlement.amount == obligation.expected_amount
    then some settlement
    else rest

-- `FuzzyPairing` allows a rationale of 300 characters, which an amount of 28 digits leaves room for.
unfoldable pub mock_pairing : Obligation → Settlement → FuzzyPairing
unfolding fuzzy_confidence text show_money
mock_pairing obligation settlement = record {
  order_id = some obligation.order_id;
  settlement_id = some settlement.settlement_id;
  confidence = fuzzy_confidence obligation settlement;
  rationale = text (
      "Amount "
      ∷ show_money obligation.expected_amount
      ∷ " matches; source "
      ∷ value settlement.source
      ∷ "."
      ∷ []);
}

-- The outer loop, with the ids used so far.
unfoldable pub propose_from : List Settlement → List String → List Obligation → List FuzzyPairing
unfolding find_settlement mock_pairing
propose_from settlements used [] = []
propose_from settlements used (obligation ∷ obligations) =
    elim (find_settlement used obligation settlements) [
      | none ↦ propose_from settlements used obligations
      | some settlement ↦
          mock_pairing obligation settlement
          ∷ propose_from settlements (settlement.settlement_id ∷ used) obligations
    ]

unfoldable pub propose_fuzzy : List Obligation → List Settlement → FuzzyProposal
unfolding propose_from
propose_fuzzy obligations settlements = record {
  pairings = propose_from settlements [] obligations;
}

unfoldable pub template_subject : ExceptionRecord → String
unfolding text
template_subject exception = text (
    "[Reconciliation] "
    ∷ value exception.reason
    ∷ " - "
    ∷ or_else exception.order_id (or_else exception.settlement_id "unknown")
    ∷ [])

-- `role.value.replace('_', ' ').title()`
abbrev pub role_title : RecipientRole → String
role_title RecipientRole.store_manager = "Store Manager"
role_title RecipientRole.payment_gateway = "Payment Gateway"
role_title RecipientRole.bank = "Bank"
role_title RecipientRole.admin = "Admin"

abbrev pub money_or_na : Option ℕ → String
money_or_na none = "n/a"
money_or_na (some amount) = show_money amount

abbrev pub payment_or_na : Option PaymentType → String
payment_or_na none = "n/a"
payment_or_na (some payment_type) = value payment_type

-- The sentence that `_template_body` takes for the tag.
abbrev pub request_for : String → String
request_for tag =
    if tag == "recheck"
    then "Please re-verify and re-upload the corrected data."
    else if tag == "escalate"
    then "This item needs manual review."
    else "Please investigate and confirm the correct settlement."

-- `if exception.detail: lines.append(...)`
abbrev pub detail_line : Option String → List String
detail_line detail =
    if truthy detail then text ("  Detail:      " ∷ or_else detail "" ∷ []) ∷ [] else []

unfoldable pub template_body : ExceptionRecord → RecipientRole → String → String
unfolding text join show_money
template_body exception role tag = join "\n" (
    text ("Hello " ∷ role_title role ∷ "," ∷ [])
      ∷ ""
      ∷ text ("A reconciliation exception was detected: " ∷ value exception.reason ∷ "." ∷ [])
      ∷ text ("  Order:       " ∷ or_else exception.order_id "n/a" ∷ [])
      ∷ text ("  Settlement:  " ∷ or_else exception.settlement_id "n/a" ∷ [])
      ∷ text ("  Payment:     " ∷ payment_or_na exception.payment_type ∷ [])
      ∷ text ("  Expected:    " ∷ money_or_na exception.expected_amount ∷ [])
      ∷ text ("  Actual:      " ∷ money_or_na exception.actual_amount ∷ [])
      ∷ detail_line exception.detail
    ++ "" ∷ request_for tag ∷ "" ∷ "— ReconcileFlow Agent" ∷ [])

unfoldable pub draft_email : ExceptionRecord → RecipientRole → String → Result EmailDraft
unfolding email_draft template_subject template_body
draft_email exception role tag =
    email_draft (template_subject exception) (template_body exception role tag)

-- `MockLLMClient` as a client: it changes nothing outside, and raises only where `EmailDraft` refuses
-- the subject of a draft.
abbrev pub mock_client : {N : Type 0} → LlmClient N
mock_client = record {
  decide = λ exception within_sla threshold. pure (decide exception within_sla threshold);
  propose_fuzzy = λ obligations settlements. pure (propose_fuzzy obligations settlements);
  draft_email = λ exception role tag. lift (draft_email exception role tag);
}
