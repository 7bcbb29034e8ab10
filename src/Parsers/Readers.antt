-- ===== src/Parsers/Readers.antt =====
-- src/reconcile/parsers/orders.py and settlements.py
use retail_reconciliation_ag.Prelude.{String, List, [], ◌∷◌, map, Option}
use retail_reconciliation_ag.Prelude.Dict.{Dict}
use retail_reconciliation_ag.Domain.Records.{Order, Settlement}
use retail_reconciliation_ag.Parsers.Base.{
  Parsed, then_parse, Source, Pandas, load_dataframe, require_columns,
}
use retail_reconciliation_ag.Parsers.Rows.{Validated, validate_rows}
use retail_reconciliation_ag.Parsers.Fields.{Pydantic}
use retail_reconciliation_ag.Parsers.Models.{validate_order, validate_settlement}

-- A column of each name for the field of the same name.
abbrev pub same_names : List String → Dict String String
same_names names = map (λ name. (name, name)) names

abbrev pub orders_required : List String
orders_required =
    "order_id" ∷ "order_date" ∷ "store_id" ∷ "amount" ∷ "payment_type" ∷ "payment_amount" ∷ "status"
    ∷ []

abbrev pub orders_field_map : Dict String String
orders_field_map = same_names (
    "order_id" ∷ "order_date" ∷ "store_id" ∷ "amount" ∷ "payment_type" ∷ "payment_amount"
    ∷ "payment_gateway" ∷ "gateway_txn_id" ∷ "responsible_party" ∷ "status" ∷ "customer_name"
    ∷ "customer_email" ∷ [])

abbrev pub settlements_required : List String
settlements_required =
    "settlement_id" ∷ "settlement_date" ∷ "payment_type" ∷ "amount" ∷ "source" ∷ []

abbrev pub settlements_field_map : Dict String String
settlements_field_map = same_names (
    "settlement_id" ∷ "settlement_date" ∷ "payment_type" ∷ "amount" ∷ "fee" ∷ "net_amount"
    ∷ "source" ∷ "order_id" ∷ "gateway_txn_id" ∷ "reference_id" ∷ [])

module _ (pandas : Pandas) (lib : Pydantic) (show : String → String) where
  -- What the two readers do, but for the names.
  abbrev pub read_table :
      {A : Type 0}
      → List String
      → String
      → (Dict String String → Validated A)
      → Dict String String
      → Source
      → Option String
      → Parsed (List A)
  read_table required file_label validate field_map source filename =
      then_parse (load_dataframe pandas show source filename) (λ frame.
        then_parse (require_columns frame required file_label)
          (λ _. validate_rows frame validate file_label field_map))

  unfoldable pub read_orders : Source → Option String → Parsed (List Order)
  unfolding load_dataframe require_columns validate_rows validate_order
  read_orders = read_table orders_required "Orders file" (validate_order lib) orders_field_map

  unfoldable pub read_settlements : Source → Option String → Parsed (List Settlement)
  unfolding load_dataframe require_columns validate_rows validate_settlement
  read_settlements =
      read_table settlements_required "Settlements file" (validate_settlement lib)
        settlements_field_map
