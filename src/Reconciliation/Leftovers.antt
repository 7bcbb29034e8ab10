-- ===== src/Reconciliation/Leftovers.antt =====
-- src/reconcile/reconciliation/matcher.py: the classification of what key matching leaves over, and
-- `reconcile`.
use retail_reconciliation_ag.Prelude.{
  ℕ, List, [], ◌∷◌, ◌++◌, map, none, some, not, ℤ, Result, ok, ◌>>=◌, text, ◌==◌, if◌then◌else◌,
}
use retail_reconciliation_ag.Prelude.Dict.{Dict}
use retail_reconciliation_ag.Domain.Enums.{
  PaymentType, ExceptionReason, SlaStatus, is_online, unmatched, cash_missing, online_missing,
  late_settlement, unmatched_settlement, within_sla, sla_status_eq,
}
use retail_reconciliation_ag.Domain.Records.{
  Settlement, Obligation, MatchedPair, ExceptionRecord, exception_record,
}
use retail_reconciliation_ag.Reconciliation.Matcher.{gateway_from_source, reconcile_keys}
use retail_reconciliation_ag.Reconciliation.Sla.{compute_age_days, sla_status}

-- The `if` of `_missing_obligation_exception`.
unfoldable pub missing_reason : PaymentType → SlaStatus → ExceptionReason
unfolding is_online
missing_reason payment_type status_value =
    if not (is_online payment_type)
    then cash_missing
    else if status_value == within_sla
    then late_settlement
    else online_missing

unfoldable pub missing_obligation_exception : Dict PaymentType ℤ → ℕ → Obligation → ExceptionRecord
unfolding missing_reason sla_status text
missing_obligation_exception grace_days as_of_date obligation =
    let (status_value, age) = sla_status obligation as_of_date grace_days in
    record (exception_record (missing_reason obligation.payment_type status_value) unmatched) {
      order_id = some obligation.order_id;
      payment_type = some obligation.payment_type;
      store_id = some obligation.store_id;
      payment_gateway = obligation.payment_gateway;
      expected_amount = some obligation.expected_amount;
      actual_amount = none;
      responsible_party = obligation.responsible_party;
      age_days = some age;
      sla_status = status_value;
      detail =
          some (text ("No settlement found for obligation " ∷ obligation.obligation_id ∷ "." ∷ []));
    }

unfoldable pub unmatched_settlement_exception : ℕ → Settlement → ExceptionRecord
unfolding gateway_from_source compute_age_days text
unmatched_settlement_exception as_of_date settlement =
    record (exception_record unmatched_settlement unmatched) {
      settlement_id = some settlement.settlement_id;
      payment_type = some settlement.payment_type;
      payment_gateway = gateway_from_source settlement.source;
      actual_amount = some settlement.amount;
      age_days = some (compute_age_days settlement.settlement_date as_of_date);
      detail =
          some (text ("Settlement " ∷ settlement.settlement_id ∷ " has no matching order." ∷ []));
    }

unfoldable pub classify_leftovers :
    List Obligation → List Settlement → Dict PaymentType ℤ → ℕ → List ExceptionRecord
classify_leftovers unmatched_obligations unmatched_settlements grace_days as_of_date =
    map (missing_obligation_exception grace_days as_of_date) unmatched_obligations
    ++ map (unmatched_settlement_exception as_of_date) unmatched_settlements

pub record ReconciliationResult : Type 0 where
  pub matched : List MatchedPair
  pub exceptions : List ExceptionRecord
  pub unmatched_obligations : List Obligation
  pub unmatched_settlements : List Settlement

-- `reconcile`, whose configuration gives the tolerance and the days of grace.
unfoldable pub reconcile :
    List Obligation → List Settlement → ℕ → Dict PaymentType ℤ → ℕ → Result ReconciliationResult
unfolding reconcile_keys classify_leftovers
reconcile obligations settlements amount_tolerance sla_grace_days as_of_date = do
  key_result ← reconcile_keys obligations settlements amount_tolerance
  let leftovers =
      classify_leftovers key_result.unmatched_obligations key_result.unmatched_settlements
        sla_grace_days as_of_date
  ok (record {
    matched = key_result.matched;
    exceptions = key_result.exceptions ++ leftovers;
    unmatched_obligations = key_result.unmatched_obligations;
    unmatched_settlements = key_result.unmatched_settlements;
  })
