-- ===== src/Parsers/Models.antt =====
-- src/reconcile/models/domain.py: `Order` and `Settlement` as pydantic validates them.
use retail_reconciliation_ag.Prelude.{
  ℕ, String, [], Option, none, some, Result, ok, raise, string_eq, truthy, not, if◌then◌else◌,
}
use retail_reconciliation_ag.Prelude.Dict.{Dict, get}
use retail_reconciliation_ag.Domain.Enums.{
  OrderStatus, payment_type_enum, payment_gateway_enum, settlement_source_enum, recipient_role_enum,
  order_status_enum,
}
use retail_reconciliation_ag.Domain.Records.{Order, Settlement, check_payment_fields}
use retail_reconciliation_ag.Domain.Decimal.{Decimal, quantize, subtract}
use retail_reconciliation_ag.Domain.Reading.{codes, read_decimal}
use retail_reconciliation_ag.Domain.Money.{to_money, checked}
use retail_reconciliation_ag.Parsers.Rows.{Validated, valid, invalid, crashed}
use retail_reconciliation_ag.Parsers.Fields.{
  Pydantic, and_then, ◌⊗◌, payment_types, gateways, roles, sources, statuses, issue_at, or_issue,
  required, optional, read_member, optional_text, some_valid, of_money, read_amount,
}

-- The value of `net_amount` after `_default_net_amount`: a text, the difference, none, or an
-- exception. `str` of a `Decimal` reads back as the same number.
pub data NetAmount : Type 0 where
  given : String → NetAmount
  difference_of : Decimal → NetAmount
  absent failed : NetAmount

abbrev pub or_failed : Option Decimal → NetAmount
or_failed none = failed
or_failed (some d) = difference_of d

abbrev pub difference_or_failed : Option Decimal → Option Decimal → NetAmount
difference_or_failed (some amount) (some fee) = or_failed (subtract amount fee)
difference_or_failed none fee = failed
difference_or_failed (some amount) none = failed

abbrev pub fee_of : Option String → String
fee_of none = "0"
fee_of (some fee) = fee

-- By the cells of `net_amount`, `amount` and `fee`; a cell that is there is not empty.
unfoldable pub default_net : Option String → Option String → Option String → NetAmount
unfolding read_decimal subtract
default_net (some net) amount fee = given net
default_net none none fee = absent
default_net none (some amount) fee =
    difference_or_failed (read_decimal (codes amount)) (read_decimal (codes (fee_of fee)))

unfoldable pub net_amount_of : Dict String String → NetAmount
unfolding get default_net
net_amount_of payload =
    default_net (get payload "net_amount") (get payload "amount") (get payload "fee")

module _ (lib : Pydantic) where
  abbrev pub payment_message : Order → String
  payment_message order =
      if not (truthy order.gateway_txn_id)
      then "Value error, gateway_txn_id is required for non-cash payments"
      else "Value error, payment_gateway is required for non-cash payments"

  abbrev pub checked_order : Order → Result Order → Validated Order
  checked_order order (ok o) = valid o
  checked_order order (raise e) =
      invalid (record { location = ""; message = payment_message order }) []

  -- `Order.model_validate(payload)`, of a payload with known fields.
  unfoldable pub validate_order : Dict String String → Validated Order
  unfolding get check_payment_fields to_money
  validate_order payload =
      and_then
        (required lib payload "order_id" valid
          ⊗ required lib payload "order_date"
              (λ cell. or_issue lib "order_date" (some cell) (lib.read_date cell))
          ⊗ required lib payload "store_id" valid
          ⊗ required lib payload "amount" (read_amount lib "amount")
          ⊗ required lib payload "payment_type" (read_member lib payment_types "payment_type")
          ⊗ required lib payload "payment_amount" (read_amount lib "payment_amount")
          ⊗ optional lib payload "payment_gateway" none
              (λ cell. some_valid (read_member lib gateways "payment_gateway" cell))
          ⊗ optional_text lib payload "gateway_txn_id"
          ⊗ optional lib payload "responsible_party" none
              (λ cell. some_valid (read_member lib roles "responsible_party" cell))
          ⊗ optional lib payload "status" OrderStatus.placed (read_member lib statuses "status")
          ⊗ optional_text lib payload "customer_name"
          ⊗ optional_text lib payload "customer_email")
        (λ (
          id,
          (
            date,
            (store, (amount, (kind, (due, (gateway, (txn, (party, (status, (name, email))))))))),
          ),
        ).
          let order : Order = record {
            order_id = id;
            order_date = date;
            store_id = store;
            amount = amount;
            payment_type = kind;
            payment_amount = due;
            payment_gateway = gateway;
            gateway_txn_id = txn;
            responsible_party = party;
            status = status;
            customer_name = name;
            customer_email = email;
          } in
          checked_order order (check_payment_fields order))

  abbrev pub read_net : NetAmount → Validated ℕ
  read_net (given cell) = read_amount lib "net_amount" cell
  read_net (difference_of d) = of_money lib "net_amount" none (checked (quantize d))
  read_net absent = issue_at lib "net_amount" none
  read_net failed = crashed

  -- `Settlement.model_validate(payload)`, of a payload with known fields.
  unfoldable pub validate_settlement : Dict String String → Validated Settlement
  unfolding get to_money quantize net_amount_of
  validate_settlement payload =
      and_then
        (required lib payload "settlement_id" valid
          ⊗ required lib payload "settlement_date"
              (λ cell. or_issue lib "settlement_date" (some cell) (lib.read_date cell))
          ⊗ required lib payload "payment_type" (read_member lib payment_types "payment_type")
          ⊗ required lib payload "amount" (read_amount lib "amount")
          ⊗ read_net (net_amount_of payload)
          ⊗ required lib payload "source" (read_member lib sources "source")
          ⊗ optional lib payload "fee" 0 (read_amount lib "fee")
          ⊗ optional_text lib payload "order_id"
          ⊗ optional_text lib payload "gateway_txn_id"
          ⊗ optional_text lib payload "reference_id")
        (λ (id, (date, (kind, (amount, (net, (source, (fee, (order, (txn, reference))))))))).
          valid (record {
            settlement_id = id;
            settlement_date = date;
            payment_type = kind;
            amount = amount;
            net_amount = net;
            source = source;
            fee = fee;
            order_id = order;
            gateway_txn_id = txn;
            reference_id = reference;
          }))
