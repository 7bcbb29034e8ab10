-- ===== src/Agent/Llm/Prompts.antt =====
-- src/reconcile/agent/prompts.py, and the lists of rows that src/reconcile/agent/llm.py puts in.
use retail_reconciliation_ag.Prelude.{
  ℕ, String, List, [], ◌∷◌, map, Option, none, some, Bool, true, false, text, join, or_else,
  show_money, string_eq, ◌==◌, if◌then◌else◌,
}
use retail_reconciliation_ag.Domain.Enums.{
  value, PaymentGateway, RecipientRole, exception_reason_enum, obligation_status_enum,
  sla_status_enum, payment_type_enum, payment_gateway_enum, settlement_source_enum,
}
use retail_reconciliation_ag.Domain.Records.{Obligation, Settlement, ExceptionRecord}
use retail_reconciliation_ag.Agent.Llm.Mock.{payment_or_na}

-- `_SYSTEM`
abbrev pub system : String
system =
    "You are a meticulous finance-operations reconciliation assistant for an Indian retail business. You never invent numbers. You only choose from the actions you are given. Keep language clear and professional."

-- `_ALLOWED_ACTIONS`
abbrev pub allowed_actions_text : String
allowed_actions_text = "WAIT, EMAIL_STORE_MANAGER, EMAIL_PG, EMAIL_BANK, ESCALATE, REQUEST_RECHECK"

-- `f"{x}"` of an optional text, of an optional amount and of a flag.
abbrev pub show_text : Option String → String
show_text none = "None"
show_text (some s) = s

abbrev pub show_amount : Option ℕ → String
show_amount none = "None"
show_amount (some amount) = show_money amount

abbrev pub show_flag : Bool → String
show_flag true = "True"
show_flag false = "False"

unfoldable pub decide_prompt : ExceptionRecord → Bool → String → String
unfolding text show_money
decide_prompt exception within_sla high_value_threshold = text (
    system
    ∷ "\n\nDecide how to handle this reconciliation exception.\n- reason: "
    ∷ value exception.reason
    ∷ "\n- status: "
    ∷ value exception.status
    ∷ "\n- payment_type: "
    ∷ payment_or_na exception.payment_type
    ∷ "\n- expected_amount: "
    ∷ show_amount exception.expected_amount
    ∷ "\n- actual_amount: "
    ∷ show_amount exception.actual_amount
    ∷ "\n- order_id: "
    ∷ show_text exception.order_id
    ∷ "\n- settlement_id: "
    ∷ show_text exception.settlement_id
    ∷ "\n- sla_status: "
    ∷ value exception.sla_status
    ∷ "\n- within_sla_grace: "
    ∷ show_flag within_sla
    ∷ "\n- high_value_threshold: "
    ∷ high_value_threshold
    ∷ "\n\nChoose action from: "
    ∷ allowed_actions_text
    ∷ ".\nUse WAIT only when the obligation is still within its SLA grace window. "
    ∷ "Use ESCALATE for ambiguous fuzzy-match reviews. Set severity to "
    ∷ "HIGH_VALUE when an amount meets or exceeds the high-value threshold."
    ∷ [])

unfoldable pub fuzzy_prompt : String → String → String
unfolding text
fuzzy_prompt obligations_text settlements_text = text (
    system ∷ "\n\nSome orders and settlements could not be matched by exact keys. Propose "
    ∷ "likely pairings ONLY when the amounts match and the dates/sources are "
    ∷ "plausibly related. Give each a confidence in [0,1] and a short rationale. "
    ∷ "Do not pair rows with different amounts.\n\n"
    ∷ "Return ONLY real pairings: every item must have a concrete order_id AND "
    ∷ "settlement_id from the lists below. Do NOT include orders you cannot pair, "
    ∷ "and never use null for either id. If there are no plausible pairings, "
    ∷ "return an empty list.\n\nUNMATCHED ORDERS:\n" ∷ obligations_text
    ∷ "\n\nUNMATCHED SETTLEMENTS:\n" ∷ settlements_text ∷ "\n" ∷ [])

-- `role.value.replace('_', ' ').lower()`
abbrev pub role_words : RecipientRole → String
role_words RecipientRole.store_manager = "store manager"
role_words RecipientRole.payment_gateway = "payment gateway"
role_words RecipientRole.bank = "bank"
role_words RecipientRole.admin = "admin"

abbrev pub intent_for : String → String
intent_for tag =
    if tag == "email"
    then "notify the recipient and ask them to investigate"
    else if tag == "recheck"
    then "ask the recipient to re-verify and re-upload corrected data"
    else if tag == "escalate"
    then "escalate for manual review"
    else "notify the recipient"

unfoldable pub draft_prompt : ExceptionRecord → RecipientRole → String → String
unfolding text show_money
draft_prompt exception role tag = text (
    system
    ∷ "\n\nWrite a concise plain-text email to the "
    ∷ role_words role
    ∷ " to "
    ∷ intent_for tag
    ∷ ".\nInclude the key facts and a clear call to action. No HTML, no markdown.\n\n- reason: "
    ∷ value exception.reason
    ∷ "\n- order_id: "
    ∷ show_text exception.order_id
    ∷ "\n- settlement_id: "
    ∷ show_text exception.settlement_id
    ∷ "\n- payment_type: "
    ∷ payment_or_na exception.payment_type
    ∷ "\n- expected_amount: "
    ∷ show_amount exception.expected_amount
    ∷ "\n- actual_amount: "
    ∷ show_amount exception.actual_amount
    ∷ "\n- detail: "
    ∷ show_text exception.detail
    ∷ "\n"
    ∷ [])

abbrev pub gateway_or_na : Option PaymentGateway → String
gateway_or_na none = "n/a"
gateway_or_na (some gateway) = value gateway

-- `show_date` is `str` of a date.
module _ (show_date : ℕ → String) where
  unfoldable pub obligation_line : Obligation → String
  unfolding text show_money
  obligation_line o = text (
      "- order_id="
      ∷ o.order_id
      ∷ " type="
      ∷ value o.payment_type
      ∷ " amount="
      ∷ show_money o.expected_amount
      ∷ " gateway="
      ∷ gateway_or_na o.payment_gateway
      ∷ " date="
      ∷ show_date o.order_date
      ∷ [])

  unfoldable pub settlement_line : Settlement → String
  unfolding text show_money
  settlement_line s = text (
      "- settlement_id="
      ∷ s.settlement_id
      ∷ " type="
      ∷ value s.payment_type
      ∷ " amount="
      ∷ show_money s.amount
      ∷ " source="
      ∷ value s.source
      ∷ " date="
      ∷ show_date s.settlement_date
      ∷ [])

  unfoldable pub obligations_text : List Obligation → String
  unfolding join obligation_line
  obligations_text obligations =
      or_else (some (join "\n" (map obligation_line obligations))) "(none)"

  unfoldable pub settlements_text : List Settlement → String
  unfolding join settlement_line
  settlements_text settlements =
      or_else (some (join "\n" (map settlement_line settlements))) "(none)"
