-- ===== src/Reconciliation/Obligations.antt =====
-- src/reconcile/reconciliation/obligations.py
use retail_reconciliation_ag.Prelude.{
  ℕ, suc, ◌+◌, String, List, [], ◌∷◌, ◌++◌, Option, none, some, Bool, ℤ, pos, negsuc, sub_ℕ, abs,
  leb, ltb, Result, ok, ◌>>=◌, first, filter, text, show_money, string_eq, ◌==◌, if◌then◌else◌,
}
use retail_reconciliation_ag.Prelude.Dict.{Dict, push}
use retail_reconciliation_ag.Domain.Enums.{
  RecipientRole, placed, excess, partially_matched, order_sum_mismatch, order_status_eq,
}
use retail_reconciliation_ag.Domain.Records.{Order, Obligation, ExceptionRecord, exception_record}
use retail_reconciliation_ag.Domain.Keys.{make_obligation_id}

pub record ObligationBuildResult : Type 0 where
  pub obligations : List Obligation
  pub order_sum_exceptions : List ExceptionRecord

unfoldable pub to_obligation : Order → ℕ → Obligation
unfolding make_obligation_id
to_obligation order seq = record {
  obligation_id = make_obligation_id order.order_id order.payment_type order.gateway_txn_id seq;
  order_id = order.order_id;
  order_date = order.order_date;
  store_id = order.store_id;
  payment_type = order.payment_type;
  expected_amount = order.payment_amount;
  payment_gateway = order.payment_gateway;
  gateway_txn_id = order.gateway_txn_id;
  responsible_party = order.responsible_party;
  customer_name = order.customer_name;
  customer_email = order.customer_email;
}

-- The loop of `_group_by_order`, with the groups made so far.
unfoldable pub group_from : Dict String (List Order) → List Order → Dict String (List Order)
unfolding push
group_from grouped [] = grouped
group_from grouped (order ∷ orders) = group_from (push grouped order.order_id order) orders

unfoldable pub group_by_order : List Order → Dict String (List Order)
unfolding group_from
group_by_order orders = group_from [] orders

-- `sum(row.payment_amount for row in rows)`, exactly; a `Decimal` sum is rounded to 28 digits, so it
-- agrees with this one as long as the sums stay below 10 ^ 28 paise.
abbrev pub sum_paid : List Order → ℕ
sum_paid [] = 0
sum_paid (row ∷ rows) = row.payment_amount + sum_paid rows

-- The first responsible party that a row names.
abbrev pub first_party : List Order → Option RecipientRole
first_party [] = none
first_party (row ∷ rows) = elim row.responsible_party [ none ↦ first_party rows | some r ↦ some r ]

-- `str` of a difference of amounts.
show_difference : ℤ → String
unfolding show_money text
show_difference (pos n) = show_money n
show_difference (negsuc n) = text ("-" ∷ show_money (suc n) ∷ [])

-- The exception of an order whose rows sum to `paid` against a total of `total`.
unfoldable pub sum_mismatch : String → Order → List Order → ℕ → ℕ → ExceptionRecord
unfolding show_difference show_money text
sum_mismatch order_id row rows total paid =
    record (exception_record order_sum_mismatch
      (if ltb total paid then excess else partially_matched)) {
        order_id = some order_id;
        store_id = some row.store_id;
        expected_amount = some total;
        actual_amount = some paid;
        responsible_party = first_party rows;
        detail = some (
            text (
              "Order payment rows sum to "
              ∷ show_money paid
              ∷ " but the order total is "
              ∷ show_money total
              ∷ " (difference "
              ∷ show_difference (sub_ℕ paid total)
              ∷ ")."
              ∷ []));
      }

unfoldable pub order_sum_exception : String → List Order → ℕ → Result (Option ExceptionRecord)
unfolding sum_mismatch
order_sum_exception order_id rows tolerance = do
  row ← first rows
  let total = row.amount
  let paid = sum_paid rows
  ok (
      if leb (abs (sub_ℕ paid total)) tolerance
      then none
      else some (sum_mismatch order_id row rows total paid))

-- `for seq, order in enumerate(placed): obligations.append(_to_obligation(order, seq))`
unfoldable pub numbered : ℕ → List Order → List Obligation
unfolding to_obligation
numbered seq [] = []
numbered seq (order ∷ orders) = to_obligation order seq ∷ numbered (seq + 1) orders

abbrev pub is_placed : Order → Bool
is_placed row = row.status == placed

abbrev append_some : List ExceptionRecord → Option ExceptionRecord → List ExceptionRecord
append_some exceptions none = exceptions
append_some exceptions (some e) = exceptions ++ e ∷ []

-- The body of the loop of `build_obligations`, for the placed rows of an order.
unfoldable pub add_order :
    ℕ → ObligationBuildResult → String → List Order → Result ObligationBuildResult
unfolding numbered order_sum_exception
add_order tolerance built order_id [] = ok built
add_order tolerance built order_id (row ∷ rows) = do
  exception ← order_sum_exception order_id (row ∷ rows) tolerance
  ok (record {
    obligations = built.obligations ++ numbered 0 (row ∷ rows);
    order_sum_exceptions = append_some built.order_sum_exceptions exception;
  })

-- The loop of `build_obligations`, over the groups that are left.
unfoldable pub build_from :
    ℕ → ObligationBuildResult → Dict String (List Order) → Result ObligationBuildResult
unfolding add_order
build_from tolerance built [] = ok built
build_from tolerance built ((order_id, rows) ∷ groups) = do
  next ← add_order tolerance built order_id (filter is_placed rows)
  build_from tolerance next groups

abbrev pub nothing_built : ObligationBuildResult
nothing_built = record { obligations = []; order_sum_exceptions = [] }

unfoldable pub build_obligations : List Order → ℕ → Result ObligationBuildResult
unfolding build_from group_by_order
build_obligations orders amount_tolerance =
    build_from amount_tolerance nothing_built (group_by_order orders)
