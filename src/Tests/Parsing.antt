-- ===== src/Tests/Parsing.antt =====
-- Amounts, and the readers of the files, on test data.
use retail_reconciliation_ag.Prelude.{
  text, repr, or_else, ◌+◌, ℕ, ◌^◌, ◌≤◌, ◌<◌, ◌&&◌, not, String, List, [], ◌∷◌, ◌++◌, map, none,
  some, false, contains, string_eq, negsuc, show_money, All, Mem, ◌≡◌, ◌≢◌, ◌⊎◌, ◌↔◌, inl, refl,
  arith,
}
use retail_reconciliation_ag.Prelude.Dict.{Dict, get}
use retail_reconciliation_ag.Domain.Records.{Order}
use retail_reconciliation_ag.Domain.Enums.{PaymentType, OrderStatus}
use retail_reconciliation_ag.Domain.Decimal.{quantized, invalid_operation, not_a_number}
use retail_reconciliation_ag.Domain.Reading.{codes, read_decimal}
use retail_reconciliation_ag.Domain.Money.{to_money}
use retail_reconciliation_ag.Domain.Money.Rounding.{IsNearest, to_money-IsNearest}
use retail_reconciliation_ag.Domain.Money.Texts.{to_money-show_money}
use retail_reconciliation_ag.Parsers.Base.{
  Parsed, parsed, parse_error, raised, Frame, frame, path, Pandas, bad_file, load_dataframe,
  require_columns, clean_cell, payload_of,
}
use retail_reconciliation_ag.Parsers.Rows.{
  valid, Issue, error_line, is_empty, payloads_of, validate_rows,
}
use retail_reconciliation_ag.Parsers.Fields.{Pydantic}
use retail_reconciliation_ag.Parsers.Models.{validate_order, net_amount_of, read_net}
use retail_reconciliation_ag.Parsers.Readers.{orders_required, orders_field_map, read_orders}
use retail_reconciliation_ag.Parsers.Complete.{validate_rows-parsed, validate_rows-reports}
use retail_reconciliation_ag.Parsers.Columns.{missing_line, require_columns-lem}
use retail_reconciliation_ag.Parsers.Crashes.{read_orders-raised}
use retail_reconciliation_ag.Parsers.NetAmounts.{net_amount_of-difference}

half_up_test : to_money (codes " 12.345 ") ≡ quantized false 1235
unfolding to_money
half_up_test = refl

underscore_test : to_money (codes "1_2e1") ≡ quantized false 12000
unfolding to_money
underscore_test = refl

blank_test : to_money (codes " ") ≡ quantized false 0
unfolding to_money
blank_test = refl

nan_test : to_money (codes "NaN") ≡ not_a_number
unfolding to_money
nan_test = refl

strip_test : clean_cell (some "  O 1 ") ≡ some "O 1"
unfolding clean_cell
strip_test = refl

to_money-show_money_example : to_money (codes (show_money 123456)) ≡ quantized false 123456
to_money-show_money_example = to_money-show_money 123456 (omega arith)

to_money-IsNearest_example :
    (p : ℕ) × IsNearest 12345 (negsuc 2) p
    × (((to_money (codes "12.345") ≡ quantized false p) × (p < 10 ^ 28))
        ⊎ ((to_money (codes "12.345") ≡ invalid_operation) × (10 ^ 28 ≤ p)))
unfolding read_decimal
to_money-IsNearest_example = to_money-IsNearest (codes "12.345") false 12345 (negsuc 2) refl

-- A library that reads every date as the day 100.
abbrev pub lib : Pydantic
lib = record { read_date = λ cell. some 100; message = λ field cell. "Input is not valid" }

-- A table of orders with one column more than it needs, and a row for each amount.
abbrev pub table : List String → Frame
table amounts = record {
  columns = orders_required ++ "note" ∷ [];
  rows =
      map (λ amount. "O1" ∷ "2024-01-01" ∷ "S1" ∷ amount ∷ "CASH" ∷ "10.00" ∷ "PLACED" ∷ "" ∷ [])
        amounts;
}

abbrev files : Frame → Pandas
files f = record { read_csv = λ source. frame f; read_excel = λ source. bad_file "missing" }

abbrev read : List String → Parsed (List Order)
read amounts = read_orders (files (table amounts)) lib (λ s. s) (path "Orders.CSV") none

abbrev cash_order : ℕ → Order
cash_order amount = record {
  order_id = "O1";
  order_date = 100;
  store_id = "S1";
  amount = amount;
  payment_type = PaymentType.cash;
  payment_amount = 1000;
  payment_gateway = none;
  gateway_txn_id = none;
  responsible_party = none;
  status = OrderStatus.placed;
  customer_name = none;
  customer_email = none;
}

read_orders_test : read ("10" ∷ " 20.5 " ∷ []) ≡ parsed (cash_order 1000 ∷ cash_order 2050 ∷ [])
unfolding read_orders
read_orders_test = refl

abbrev payloads : List String → List (Dict String String)
payloads amounts = payloads_of orders_field_map (table amounts)

abbrev payload_with : String → Dict String String
payload_with amount =
    ("order_id", "O1")
    ∷ ("order_date", "2024-01-01")
    ∷ ("store_id", "S1")
    ∷ ("amount", amount)
    ∷ ("payment_type", "CASH")
    ∷ ("payment_amount", "10.00")
    ∷ ("status", "PLACED")
    ∷ []

validate_rows-parsed_example :
    (validate_rows (table ("10" ∷ [])) (validate_order lib) "Orders file" orders_field_map
      ≡ parsed (cash_order 1000 ∷ []))
    ↔ ((is_empty (table ("10" ∷ [])) ≡ false)
        × (map (validate_order lib) (payloads ("10" ∷ [])) ≡ map valid (cash_order 1000 ∷ [])))
validate_rows-parsed_example =
    validate_rows-parsed (validate_order lib) (table ("10" ∷ [])) "Orders file" orders_field_map
      (cash_order 1000 ∷ [])

abbrev wrong_amount : Issue
wrong_amount = record { location = "amount"; message = "Input is not valid" }

validate_rows-reports_example :
    All
      (λ issue.
        Mem
          (text (
            "row "
            ∷ repr (1 + 2)
            ∷ ": "
            ∷ or_else (some issue.location) "row"
            ∷ ": "
            ∷ issue.message
            ∷ []))
          ("row 3: amount: Input is not valid" ∷ []))
      (wrong_amount ∷ [])
unfolding validate_rows validate_order clean_cell error_line
validate_rows-reports_example =
    validate_rows-reports (validate_order lib) (table ("10" ∷ "-1" ∷ [])) "Orders file"
      orders_field_map "Orders file has 1 validation error(s)."
      ("row 3: amount: Input is not valid" ∷ []) (payload_with "10" ∷ []) [] (payload_with "-1")
      wrong_amount [] refl refl refl refl

read_orders-raised_example : read ("10" ∷ "1,200" ∷ []) ≡ raised
unfolding load_dataframe require_columns to_money clean_cell get payload_of
read_orders-raised_example =
    read_orders-raised (files (table ("10" ∷ "1,200" ∷ []))) lib (λ s. s) (path "Orders.CSV") none
      (table ("10" ∷ "1,200" ∷ [])) (payload_with "10" ∷ []) [] (payload_with "1,200") "1,200" refl
      refl refl refl refl refl

require_columns-lem_example :
    (names : List String) × ((a : String)
      → contains names a ≡ (contains ("amount" ∷ "id" ∷ []) a && not (contains ("id" ∷ []) a)))
    × (((require_columns (record { columns = "id" ∷ []; rows = [] }) ("amount" ∷ "id" ∷ []) "File"
            ≡ parsed tt)
          × (names ≡ []))
        ⊎ ((message : String) × (require_columns
                (record { columns = "id" ∷ []; rows = [] })
                ("amount" ∷ "id" ∷ [])
                "File"
              ≡ parse_error message (map missing_line names))
            × (names ≢ [])))
require_columns-lem_example =
    require_columns-lem (record { columns = "id" ∷ []; rows = [] }) ("amount" ∷ "id" ∷ []) "File"

abbrev settled : Dict String String
settled = ("amount", show_money 12000) ∷ ("fee", show_money 250) ∷ []

net_amount_of-difference_example : read_net lib (net_amount_of settled) ≡ valid 11750
unfolding get
net_amount_of-difference_example =
    net_amount_of-difference lib settled 12000 250 (omega arith) (omega arith) refl refl (inl refl)
