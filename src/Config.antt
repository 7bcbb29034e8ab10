-- ===== src/Config.antt =====
-- src/reconcile/config.py: the business configuration, and whom a role stands for. The confidence
-- thresholds are floats of at least 0; they are only compared, and stand as multiples of 2 ^ -1074,
-- of which every such float is one.
pub mod Overrides
use retail_reconciliation_ag.Prelude.{
  ℕ, String, List, Option, none, some, Bool, ℤ, ◌==◌, string_eq, if◌then◌else◌,
}
use retail_reconciliation_ag.Prelude.Dict.{Dict, get, get_or, set}
use retail_reconciliation_ag.Domain.Enums.{
  PaymentType, PaymentGateway, PlannerAction, RecipientRole, store_manager, payment_gateway, admin,
  payment_gateway_eq,
}

pub record RecipientsConfig : Type 0 where
  pub store_manager : String
  pub admin : String
  pub bank : String
  pub payment_gateways : Dict PaymentGateway String

unfoldable pub for_gateway : RecipientsConfig → PaymentGateway → String
for_gateway recipients gateway = get_or recipients.payment_gateways gateway recipients.admin

unfoldable pub for_role : RecipientsConfig → RecipientRole → Option PaymentGateway → String
unfolding for_gateway
for_role recipients RecipientRole.store_manager gateway = recipients.store_manager
for_role recipients RecipientRole.bank gateway = recipients.bank
for_role recipients RecipientRole.admin gateway = recipients.admin
for_role recipients RecipientRole.payment_gateway (some gateway) = for_gateway recipients gateway
for_role recipients RecipientRole.payment_gateway none = recipients.admin

pub record ReconciliationConfig : Type 0 where
  pub amount_tolerance : ℕ
  pub high_value_threshold : ℕ
  pub sla_grace_days : Dict PaymentType ℤ

pub record PlannerConfig : Type 0 where
  pub allowed_actions : List PlannerAction
  pub off_list_fallback : PlannerAction

pub record FuzzyMatchConfig : Type 0 where
  pub enabled : Bool
  pub auto_apply_threshold : ℕ
  pub review_threshold : ℕ

pub record AppConfig : Type 0 where
  pub recipients : RecipientsConfig
  pub reconciliation : ReconciliationConfig
  pub planner : PlannerConfig
  pub fuzzy_match : FuzzyMatchConfig

-- The `RECIPIENT_*` variables of `AppSettings`, empty where they are not set.
pub record RecipientSettings : Type 0 where
  pub recipient_store_manager : String
  pub recipient_admin : String
  pub recipient_bank : String
  pub recipient_pg_razorpay : String
  pub recipient_pg_payu : String
  pub recipient_pg_cashfree : String

-- `a or b`
abbrev pub non_empty_or : String → String → String
non_empty_or a b = if a == "" then b else a

-- `if setting: gateways[gateway] = setting`
override_gateway : PaymentGateway → String → Dict PaymentGateway String → Dict PaymentGateway String
override_gateway gateway setting gateways =
    if setting == "" then gateways else set gateways gateway setting

unfoldable pub apply_recipient_overrides : RecipientsConfig → RecipientSettings → RecipientsConfig
unfolding override_gateway
apply_recipient_overrides recipients settings = record {
  store_manager = non_empty_or settings.recipient_store_manager recipients.store_manager;
  admin = non_empty_or settings.recipient_admin recipients.admin;
  bank = non_empty_or settings.recipient_bank recipients.bank;
  payment_gateways = override_gateway PaymentGateway.cashfree settings.recipient_pg_cashfree (
      override_gateway PaymentGateway.payu settings.recipient_pg_payu (
        override_gateway PaymentGateway.razorpay settings.recipient_pg_razorpay
          recipients.payment_gateways));
}
