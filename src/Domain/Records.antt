-- ===== src/Domain/Records.antt =====
-- src/reconcile/models/domain.py: the value objects. An amount is a number of paise, and a date its
-- `toordinal()`.
use retail_reconciliation_ag.Prelude.{
  ℕ, String, Option, none, some, Bool, true, false, not, Result, ok, raise, value_error, ℤ, truthy,
  if◌then◌else◌, ◌≡◌, ◌≢◌, ◌↔◌, ◌⊎◌, arith, inl, inr, refl, Bool-cases, string_eq, ◌==◌,
}
use retail_reconciliation_ag.Domain.Enums.{
  PaymentType, PaymentGateway, OrderStatus, SettlementSource, RecipientRole, ObligationStatus,
  ExceptionReason, SlaStatus, is_online,
}

pub record Order : Type 0 where
  pub order_id : String
  pub order_date : ℕ
  pub store_id : String
  pub amount : ℕ
  pub payment_type : PaymentType
  pub payment_amount : ℕ
  pub payment_gateway : Option PaymentGateway
  pub gateway_txn_id : Option String
  pub responsible_party : Option RecipientRole
  pub status : OrderStatus
  pub customer_name : Option String
  pub customer_email : Option String

abbrev is_none {ℓ} : {A : Type ℓ} → Option A → Bool
is_none none = true
is_none (some a) = false

-- `Order._check_payment_fields`
unfoldable pub check_payment_fields : Order → Result Order
unfolding is_online
check_payment_fields order =
    if is_online order.payment_type
    then if not (truthy order.gateway_txn_id)
      then raise value_error
      else if is_none order.payment_gateway
      then raise value_error
      else ok order
    else ok order

pub record Settlement : Type 0 where
  pub settlement_id : String
  pub settlement_date : ℕ
  pub payment_type : PaymentType
  pub amount : ℕ
  pub net_amount : ℕ
  pub source : SettlementSource
  pub fee : ℕ
  pub order_id : Option String
  pub gateway_txn_id : Option String
  pub reference_id : Option String

pub record Obligation : Type 0 where
  pub obligation_id : String
  pub order_id : String
  pub order_date : ℕ
  pub store_id : String
  pub payment_type : PaymentType
  pub expected_amount : ℕ
  pub payment_gateway : Option PaymentGateway
  pub gateway_txn_id : Option String
  pub responsible_party : Option RecipientRole
  pub customer_name : Option String
  pub customer_email : Option String

pub record MatchedPair : Type 0 where
  pub obligation : Obligation
  pub settlement : Settlement

pub record ExceptionRecord : Type 0 where
  pub reason : ExceptionReason
  pub status : ObligationStatus
  pub order_id : Option String
  pub settlement_id : Option String
  pub payment_type : Option PaymentType
  pub store_id : Option String
  pub payment_gateway : Option PaymentGateway
  pub expected_amount : Option ℕ
  pub actual_amount : Option ℕ
  pub responsible_party : Option RecipientRole
  pub age_days : Option ℤ
  pub sla_status : SlaStatus
  pub detail : Option String

-- An exception with the fields that have no default given, and the others at their default.
abbrev pub exception_record : ExceptionReason → ObligationStatus → ExceptionRecord
exception_record reason status = record {
  reason = reason;
  status = status;
  order_id = none;
  settlement_id = none;
  payment_type = none;
  store_id = none;
  payment_gateway = none;
  expected_amount = none;
  actual_amount = none;
  responsible_party = none;
  age_days = none;
  sla_status = SlaStatus.na;
  detail = none;
}

-- It pays by cash, or has what an online payment needs.
abbrev pub HasPaymentFields : Order → Type 0
HasPaymentFields order =
    (order.payment_type ≡ PaymentType.cash)
    ⊎ ((id : String) × (gateway : PaymentGateway) × (order.gateway_txn_id ≡ some id)
        × (id ≢ "")
        × (order.payment_gateway ≡ some gateway))

-- The two ways through `_check_payment_fields`.
check_payment_fields-cases :
    (order : Order)
    → (HasPaymentFields order × (check_payment_fields order ≡ ok order))
      ⊎ ((¬ HasPaymentFields order) × (check_payment_fields order ≡ raise value_error))
unfolding check_payment_fields is_online
check_payment_fields-cases order =
    by_fields order.payment_type order.gateway_txn_id order.payment_gateway refl refl refl
  where
    by_fields :
        (p : PaymentType) (t : Option String) (g : Option PaymentGateway)
        → order.payment_type ≡ p
        → order.gateway_txn_id ≡ t
        → order.payment_gateway ≡ g
        → (HasPaymentFields order × (check_payment_fields order ≡ ok order))
          ⊎ ((¬ HasPaymentFields order) × (check_payment_fields order ≡ raise value_error))
    by_fields PaymentType.cash t g e k l = inl (inl e, ground arith)
    by_fields p none g e k l = inr (λ h. ground arith, ground arith)
    by_fields p (some id) none e k l = inr (λ h. ground arith, ground arith)
    by_fields p (some id) (some gateway) e k l = elim (Bool-cases (id == "")) [
      | inl empty ↦ inr (λ h. ground arith, ground arith)
      | inr filled ↦ inl (inr (id, gateway, k, ground arith, l), ground arith)
    ]

-- An order passes exactly if its payment type is cash, or it carries a transaction id that is not
-- empty, and a gateway; the order that passes is the one that was given. Any other order raises
-- ValueError.
pub check_payment_fields-ok_iff :
    (order checked : Order)
    → ((check_payment_fields order ≡ ok checked) ↔ ((order ≡ checked) × HasPaymentFields order))
      × ((check_payment_fields order ≡ raise value_error) ↔ (¬ HasPaymentFields order))
check_payment_fields-ok_iff order checked = elim (check_payment_fields-cases order) [
  | inl (h, passed) ↦ (((λ e. (cc, h)), λ (same, k). cc), ((λ e. absurd (cc)), λ no. absurd (no h)))
  | inr (h, refused) ↦ (((λ e. absurd (cc)), λ (same, k). absurd (h k)), ((λ e. h), λ k. refused))
]
