-- ===== src/Tests/Matching.antt =====
-- Matching, classification and obligations on test data.
use retail_reconciliation_ag.Prelude.{
  String, [], ◌∷◌, ◌++◌, map, some, false, ◌≡◌, ◌≢◌, ok, All, Perm, Nodup, filter, contains,
  string_eq, option_eq, ℤ, ◌≤◌, ◌+◌, pos_part, neg_part, raise, value_error, ◌↔◌, ◌==◌,
}
use retail_reconciliation_ag.Prelude.Dict.{get}
use retail_reconciliation_ag.Domain.Enums.{
  PaymentType, payment_type_eq, late_settlement, cash_missing,
}
use retail_reconciliation_ag.Domain.Records.{
  check_payment_fields, HasPaymentFields, check_payment_fields-ok_iff,
}
use retail_reconciliation_ag.Reconciliation.Matcher.{
  KeyMatchResult, reconcile_keys, candidates_of, index_from, empty_index,
}
use retail_reconciliation_ag.Reconciliation.Leftovers.{
  ReconciliationResult, reconcile, missing_obligation_exception,
}
use retail_reconciliation_ag.Reconciliation.Obligations.{
  ObligationBuildResult, build_obligations, is_placed,
}
use retail_reconciliation_ag.Reconciliation.Matching.Candidates.{
  shares_key, reference_candidates, candidates_of-eq-reference,
}
use retail_reconciliation_ag.Reconciliation.Matching.Missed.{no_missed_match}
use retail_reconciliation_ag.Reconciliation.Matching.Conservation.{
  due, pair_due, exception_due, obligations_conserved,
}
use retail_reconciliation_ag.Reconciliation.Matching.Pairs.{
  IsSound, matched-IsSound, id_of, settlements_used_once,
}
use retail_reconciliation_ag.Reconciliation.Matching.Reasons.{IsExplained, exceptions-IsExplained}
use retail_reconciliation_ag.Reconciliation.Classified.{
  is_about_obligation, is_about_settlement, reconcile_accounts, missing_reason_lem,
}
use retail_reconciliation_ag.Reconciliation.Building.{
  obligation_facts, order_facts, is_mismatched, build_obligations_lem,
}
use retail_reconciliation_ag.Tests.{card_order, orders, obligations, settlements, card_due, config}

no_missed_match_example :
    (r : KeyMatchResult) × (reconcile_keys obligations settlements 100 ≡ ok r)
    × All (λ o. All (λ s. shares_key o s ≡ false) r.unmatched_settlements) r.unmatched_obligations
no_missed_match_example = no_missed_match obligations settlements 100

obligations_conserved_example :
    (r : KeyMatchResult) × (reconcile_keys obligations settlements 100 ≡ ok r)
    × Perm
        (map pair_due r.matched
          ++ (map exception_due r.exceptions ++ map due r.unmatched_obligations))
        (map due obligations)
obligations_conserved_example = obligations_conserved obligations settlements 100

matched-IsSound_example :
    (r : KeyMatchResult) × (reconcile_keys obligations settlements 100 ≡ ok r)
    × All (IsSound obligations settlements 100) r.matched
matched-IsSound_example = matched-IsSound obligations settlements 100

settlements_used_once_example :
    (r : KeyMatchResult) × (reconcile_keys obligations settlements 100 ≡ ok r)
    × Nodup (map id_of r.matched)
    × All (λ s. All (λ p. id_of p ≢ s.settlement_id) r.matched) r.unmatched_settlements
settlements_used_once_example = settlements_used_once obligations settlements 100

exceptions-IsExplained_example :
    (r : KeyMatchResult) × (reconcile_keys obligations settlements 100 ≡ ok r)
    × All (IsExplained obligations settlements 100) r.exceptions
exceptions-IsExplained_example = exceptions-IsExplained obligations settlements 100

candidates_of-eq-reference_example :
    candidates_of (index_from empty_index settlements) ("P2" ∷ []) card_due
    ≡ reference_candidates settlements ("P2" ∷ []) card_due
candidates_of-eq-reference_example = candidates_of-eq-reference settlements ("P2" ∷ []) card_due

reconcile_accounts_example :
    (r : ReconciliationResult) × (reconcile obligations settlements 100
        config.reconciliation.sla_grace_days 110
      ≡ ok r)
    × Perm
        (map pair_due r.matched ++ map exception_due (filter is_about_obligation r.exceptions))
        (map due obligations)
    × (map (λ e. e.settlement_id) (filter is_about_settlement r.exceptions)
        ≡ map (λ s. some s.settlement_id) r.unmatched_settlements)
reconcile_accounts_example =
    reconcile_accounts obligations settlements 100 config.reconciliation.sla_grace_days 110

missing_reason_example :
    (((missing_obligation_exception config.reconciliation.sla_grace_days 101 card_due).reason
        ≡ late_settlement)
      ↔ ((PaymentType.card ≢ PaymentType.cash)
          × (grace : ℤ) × (get config.reconciliation.sla_grace_days PaymentType.card ≡ some grace)
          × (101 + neg_part grace ≤ 100 + pos_part grace)))
    × (((missing_obligation_exception config.reconciliation.sla_grace_days 101 card_due).reason
          ≡ cash_missing)
        ↔ (PaymentType.card ≡ PaymentType.cash))
missing_reason_example = missing_reason_lem config.reconciliation.sla_grace_days 101 card_due

build_obligations_example :
    (r : ObligationBuildResult) × (build_obligations orders 100 ≡ ok r)
    × Perm (map obligation_facts r.obligations) (map order_facts (filter is_placed orders))
    × ((k : String)
        → contains (map (λ e. e.order_id) r.order_sum_exceptions) (some k)
          ≡ is_mismatched 100 (filter is_placed (filter (λ o. o.order_id == k) orders)))
build_obligations_example = build_obligations_lem orders 100

check_payment_fields_example :
    ((check_payment_fields card_order ≡ ok card_order)
      ↔ ((card_order ≡ card_order) × HasPaymentFields card_order))
    × ((check_payment_fields card_order ≡ raise value_error) ↔ (¬ HasPaymentFields card_order))
check_payment_fields_example = check_payment_fields-ok_iff card_order card_order
