-- ===== src/Tests.antt =====
-- Test data for the parts of src/reconcile, and the theorems at work on it.
mod Matching
mod Routing
mod Agent
mod Runs
mod Llm
mod Parsing
mod Web
use retail_reconciliation_ag.Prelude.{
  ℕ, ◌+◌, pos, String, List, [], ◌∷◌, Option, none, some, Bool, true, false, ok, Error,
}
use retail_reconciliation_ag.Domain.Enums.{
  PaymentType, PaymentGateway, OrderStatus, SettlementSource, RecipientRole, PlannerAction, sent,
  cash_missing, SlaStatus, ObligationStatus, late_settlement,
}
use retail_reconciliation_ag.Domain.Records.{
  Order, Settlement, Obligation, ExceptionRecord, exception_record, MatchedPair,
}
use retail_reconciliation_ag.Config.{AppConfig, RecipientsConfig, RecipientSettings}
use retail_reconciliation_ag.Audit.Tables.{Database, empty_database}
use retail_reconciliation_ag.Notifications.Service.{Transport, Mailbox, returned, send_result}
use retail_reconciliation_ag.Notifications.Delivery.{Call}
use retail_reconciliation_ag.Agent.Schemas.{routine, FuzzyPairing}
use retail_reconciliation_ag.Agent.State.{ReconciliationState, AgentDependencies}

abbrev card_order : Order
card_order = record {
  order_id = "O1";
  order_date = 100;
  store_id = "S1";
  amount = 5000;
  payment_type = PaymentType.card;
  payment_amount = 5000;
  payment_gateway = some PaymentGateway.payu;
  gateway_txn_id = some "T1";
  responsible_party = none;
  status = OrderStatus.placed;
  customer_name = none;
  customer_email = none;
}

abbrev short_order : Order
short_order = record card_order {
  order_id = "O2";
  payment_amount = 3000;
  gateway_txn_id = some "T2";
}

abbrev orders : List Order
orders = card_order ∷ short_order ∷ record card_order { status = OrderStatus.cancelled } ∷ []

abbrev card_due : Obligation
card_due = record {
  obligation_id = "T1";
  order_id = "O1";
  order_date = 100;
  store_id = "S1";
  payment_type = PaymentType.card;
  expected_amount = 5000;
  payment_gateway = some PaymentGateway.payu;
  gateway_txn_id = some "T1";
  responsible_party = none;
  customer_name = none;
  customer_email = none;
}

abbrev cash_due : Obligation
cash_due = record card_due {
  obligation_id = "O3:CASH:0";
  order_id = "O3";
  payment_type = PaymentType.cash;
  payment_gateway = none;
  gateway_txn_id = none;
}

abbrev short_due : Obligation
short_due = record card_due { obligation_id = "T2"; order_id = "O2"; gateway_txn_id = some "T2" }

abbrev obligations : List Obligation
obligations = card_due ∷ cash_due ∷ short_due ∷ []

abbrev card_paid : Settlement
card_paid = record {
  settlement_id = "P1";
  settlement_date = 101;
  payment_type = PaymentType.card;
  amount = 5000;
  net_amount = 5000;
  source = SettlementSource.payu;
  fee = 0;
  order_id = some "O1";
  gateway_txn_id = some "T1";
  reference_id = none;
}

abbrev short_paid : Settlement
short_paid = record card_paid {
  settlement_id = "P2";
  amount = 4000;
  order_id = some "O2";
  gateway_txn_id = some "T2";
}

abbrev stray : Settlement
stray = record card_paid { settlement_id = "P3"; order_id = none; gateway_txn_id = some "T9" }

abbrev settlements : List Settlement
settlements = card_paid ∷ short_paid ∷ stray ∷ []

abbrev late : ExceptionRecord
late = record (exception_record late_settlement ObligationStatus.unmatched) {
  order_id = some "O1";
  payment_type = some PaymentType.card;
  payment_gateway = some PaymentGateway.payu;
  sla_status = SlaStatus.within_sla;
}

abbrev recipients : RecipientsConfig
recipients = record {
  store_manager = "store@x";
  admin = "admin@x";
  bank = "bank@x";
  payment_gateways = (PaymentGateway.payu, "payu@x") ∷ [];
}

abbrev settings : RecipientSettings
settings = record {
  recipient_store_manager = "";
  recipient_admin = "ops@x";
  recipient_bank = "";
  recipient_pg_razorpay = "";
  recipient_pg_payu = "";
  recipient_pg_cashfree = "cashfree@x";
}

abbrev config : AppConfig
config = record {
  recipients = recipients;
  reconciliation = record {
    amount_tolerance = 100;
    high_value_threshold = 1000000;
    sla_grace_days = (PaymentType.card, pos 2) ∷ [];
  };
  planner = record {
    allowed_actions = PlannerAction.wait ∷ PlannerAction.email_pg ∷ [];
    off_list_fallback = PlannerAction.escalate;
  };
  fuzzy_match = record { enabled = true; auto_apply_threshold = 90; review_threshold = 60 };
}

-- A digest that changes nothing.
abbrev plain : String → String
plain raw = raw

-- A provider that counts what it sends, without retries.
abbrev counting : Transport ℕ
counting = record {
  send = λ request n. (returned (send_result sent), n + 1);
  breaker_call = λ func request n. func request n;
  retrying = λ attempts retry_on func n. func n;
  email_retry_attempts = 3;
}

abbrev deps : AgentDependencies ℕ
deps = record {
  config = config;
  llm = record {
    decide = λ e within_sla threshold n.
        (ok (record { severity = routine; action = PlannerAction.email_pg; rationale = "due" }), n);
    propose_fuzzy = λ os ss n. (ok (record { pairings = [] }), n);
    draft_email = λ e role tag n. (ok (record { subject = "Payment"; body = "Please check." }), n);
  };
  notifications = counting;
  fuzzy_enabled = true;
  sha1 = plain;
  str_error = λ e. "error";
}

abbrev mailbox : Mailbox ℕ
mailbox = record { db = empty_database; provider = 0 }

abbrev call : Call
call = record {
  run_id = "r1";
  mismatch_key = "k1";
  role = RecipientRole.store_manager;
  email = "store@x";
  subject = "Payment";
  body = "Please check.";
}

abbrev begun : ReconciliationState
begun = record {
  run_id = "r1";
  as_of_date = 110;
  dry_run = false;
  obligations = obligations;
  settlements = settlements;
  order_sum_exceptions = [];
  matched = [];
  unmatched_obligations = [];
  unmatched_settlements = [];
  fuzzy_auto_applied = [];
  exceptions = [];
  decisions = [];
  emails = [];
  current_keys = [];
  summary = [];
}

abbrev pairings : List FuzzyPairing
pairings =
    record {
      order_id = some "O3";
      settlement_id = some "P3";
      confidence = 95;
      rationale = "amount";
    }
    ∷ record { order_id = some "O2"; settlement_id = none; confidence = 10; rationale = "none" }
    ∷ []
