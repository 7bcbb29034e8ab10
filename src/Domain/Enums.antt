-- ===== src/Domain/Enums.antt =====
-- src/reconcile/models/domain.py: the enumerations, with the text that `.value` gives.
use retail_reconciliation_ag.Prelude.{Bool, true, false, String, Eq}

pub record StrEnum (A : Type 0) : Type 0 where
  pub value_of : A → String

-- `x.value`
abbrev pub value : {A : Type 0} ⦃s : StrEnum A⦄ → A → String
value ⦃s⦄ a = s.value_of a

pub data PaymentType : Type 0 where
  cash upi card netbanking wallet : PaymentType

unfoldable pub is_online : PaymentType → Bool
is_online PaymentType.cash = false
is_online _ = true

pub data PaymentGateway : Type 0 where
  razorpay payu cashfree : PaymentGateway

pub data OrderStatus : Type 0 where
  placed cancelled : OrderStatus

pub data SettlementSource : Type 0 where
  bank razorpay payu cashfree : SettlementSource

pub data RecipientRole : Type 0 where
  store_manager payment_gateway bank admin : RecipientRole

pub data ObligationStatus : Type 0 where
  matched partially_matched excess duplicate unmatched : ObligationStatus

pub data ExceptionReason : Type 0 where
  cash_missing online_missing late_settlement amount_short amount_excess : ExceptionReason
  duplicate_settlement unmatched_settlement order_sum_mismatch : ExceptionReason
  fuzzy_match_review : ExceptionReason

pub data SlaStatus : Type 0 where
  within_sla breached na : SlaStatus

pub data PlannerAction : Type 0 where
  wait email_store_manager email_pg email_bank escalate request_recheck : PlannerAction

pub data ExceptionLifecycleStatus : Type 0 where
  open_ resolved escalated awaiting_recheck : ExceptionLifecycleStatus

pub data NotificationStatus : Type 0 where
  sent failed skipped : NotificationStatus

pub data IncidentSeverity : Type 0 where
  low medium high critical : IncidentSeverity

instance abbrev pub payment_type_enum : StrEnum PaymentType
payment_type_enum = record {
  value_of = elim [
    | PaymentType.cash ↦ "CASH"
    | PaymentType.upi ↦ "UPI"
    | PaymentType.card ↦ "CARD"
    | PaymentType.netbanking ↦ "NETBANKING"
    | PaymentType.wallet ↦ "WALLET"
  ];
}

instance abbrev pub payment_gateway_enum : StrEnum PaymentGateway
payment_gateway_enum = record {
  value_of = elim [
    | PaymentGateway.razorpay ↦ "RAZORPAY"
    | PaymentGateway.payu ↦ "PAYU"
    | PaymentGateway.cashfree ↦ "CASHFREE"
  ];
}

instance abbrev pub settlement_source_enum : StrEnum SettlementSource
settlement_source_enum = record {
  value_of = elim [
    | SettlementSource.bank ↦ "BANK"
    | SettlementSource.razorpay ↦ "RAZORPAY"
    | SettlementSource.payu ↦ "PAYU"
    | SettlementSource.cashfree ↦ "CASHFREE"
  ];
}

instance abbrev pub recipient_role_enum : StrEnum RecipientRole
recipient_role_enum = record {
  value_of = elim [
    | RecipientRole.store_manager ↦ "STORE_MANAGER"
    | RecipientRole.payment_gateway ↦ "PAYMENT_GATEWAY"
    | RecipientRole.bank ↦ "BANK"
    | RecipientRole.admin ↦ "ADMIN"
  ];
}

instance abbrev pub exception_reason_enum : StrEnum ExceptionReason
exception_reason_enum = record {
  value_of = elim [
    | ExceptionReason.cash_missing ↦ "CASH_MISSING"
    | ExceptionReason.online_missing ↦ "ONLINE_MISSING"
    | ExceptionReason.late_settlement ↦ "LATE_SETTLEMENT"
    | ExceptionReason.amount_short ↦ "AMOUNT_SHORT"
    | ExceptionReason.amount_excess ↦ "AMOUNT_EXCESS"
    | ExceptionReason.duplicate_settlement ↦ "DUPLICATE_SETTLEMENT"
    | ExceptionReason.unmatched_settlement ↦ "UNMATCHED_SETTLEMENT"
    | ExceptionReason.order_sum_mismatch ↦ "ORDER_SUM_MISMATCH"
    | ExceptionReason.fuzzy_match_review ↦ "FUZZY_MATCH_REVIEW"
  ];
}

instance abbrev pub obligation_status_enum : StrEnum ObligationStatus
obligation_status_enum = record {
  value_of = elim [
    | ObligationStatus.matched ↦ "MATCHED"
    | ObligationStatus.partially_matched ↦ "PARTIALLY_MATCHED"
    | ObligationStatus.excess ↦ "EXCESS"
    | ObligationStatus.duplicate ↦ "DUPLICATE"
    | ObligationStatus.unmatched ↦ "UNMATCHED"
  ];
}

instance abbrev pub sla_status_enum : StrEnum SlaStatus
sla_status_enum = record {
  value_of = elim [
    | SlaStatus.within_sla ↦ "WITHIN_SLA"
    | SlaStatus.breached ↦ "BREACHED"
    | SlaStatus.na ↦ "NA"
  ];
}

instance abbrev pub order_status_enum : StrEnum OrderStatus
order_status_enum = record {
  value_of = elim [ OrderStatus.placed ↦ "PLACED" | OrderStatus.cancelled ↦ "CANCELLED" ];
}

instance abbrev pub planner_action_enum : StrEnum PlannerAction
planner_action_enum = record {
  value_of = elim [
    | PlannerAction.wait ↦ "WAIT"
    | PlannerAction.email_store_manager ↦ "EMAIL_STORE_MANAGER"
    | PlannerAction.email_pg ↦ "EMAIL_PG"
    | PlannerAction.email_bank ↦ "EMAIL_BANK"
    | PlannerAction.escalate ↦ "ESCALATE"
    | PlannerAction.request_recheck ↦ "REQUEST_RECHECK"
  ];
}

instance abbrev pub notification_status_enum : StrEnum NotificationStatus
notification_status_enum = record {
  value_of = elim [
    | NotificationStatus.sent ↦ "SENT"
    | NotificationStatus.failed ↦ "FAILED"
    | NotificationStatus.skipped ↦ "SKIPPED"
  ];
}

instance abbrev pub payment_type_eq : Eq PaymentType
payment_type_eq = record { eq_dec = hlevel }

instance abbrev pub payment_gateway_eq : Eq PaymentGateway
payment_gateway_eq = record { eq_dec = hlevel }

instance abbrev pub order_status_eq : Eq OrderStatus
order_status_eq = record { eq_dec = hlevel }

instance abbrev pub recipient_role_eq : Eq RecipientRole
recipient_role_eq = record { eq_dec = hlevel }

instance abbrev pub obligation_status_eq : Eq ObligationStatus
obligation_status_eq = record { eq_dec = hlevel }

instance abbrev pub exception_reason_eq : Eq ExceptionReason
exception_reason_eq = record { eq_dec = hlevel }

instance abbrev pub sla_status_eq : Eq SlaStatus
sla_status_eq = record { eq_dec = hlevel }

instance abbrev pub planner_action_eq : Eq PlannerAction
planner_action_eq = record { eq_dec = hlevel }

instance abbrev pub notification_status_eq : Eq NotificationStatus
notification_status_eq = record { eq_dec = hlevel }
