-- ===== src/Reconciliation/Matcher.antt =====
-- src/reconcile/reconciliation/matcher.py
use retail_reconciliation_ag.Prelude.{
  ℕ, String, List, [], ◌∷◌, ◌++◌, map, Option, none, some, Bool, true, false, not, ℤ, pos, sub_ℕ,
  negsuc, abs, leb, Result, ok, raise, key_error, ◌>>=◌, first, filter, contains, length, text,
  join, repr, show_money, ◌==◌, string_eq, pair_eq, if◌then◌else◌,
}
use retail_reconciliation_ag.Prelude.Dict.{Dict, get_or, push}
use retail_reconciliation_ag.Domain.Enums.{
  PaymentType, PaymentGateway, SettlementSource, ObligationStatus, ExceptionReason, matched,
  partially_matched, excess, duplicate, amount_short, amount_excess, duplicate_settlement,
  payment_type_eq, obligation_status_eq, sla_status_eq,
}
use retail_reconciliation_ag.Domain.Records.{
  Settlement, Obligation, MatchedPair, ExceptionRecord, exception_record,
}

pub record KeyMatchResult : Type 0 where
  pub matched : List MatchedPair
  pub exceptions : List ExceptionRecord
  pub unmatched_obligations : List Obligation
  pub unmatched_settlements : List Settlement

-- `_AMOUNT_REASON[status]`
unfoldable pub amount_reason : ObligationStatus → Result ExceptionReason
amount_reason partially_matched = ok amount_short
amount_reason excess = ok amount_excess
amount_reason _ = raise key_error

is_negative : ℤ → Bool
is_negative (pos n) = false
is_negative (negsuc n) = true

unfoldable pub amount_status : ℕ → ℕ → ℕ → ObligationStatus
unfolding is_negative
amount_status expected actual tolerance =
    let diff = sub_ℕ actual expected in
    if leb (abs diff) tolerance
    then matched
    else if is_negative diff
    then partially_matched
    else excess

unfoldable pub gateway_from_source : SettlementSource → Option PaymentGateway
gateway_from_source SettlementSource.bank = none
gateway_from_source SettlementSource.razorpay = some PaymentGateway.razorpay
gateway_from_source SettlementSource.payu = some PaymentGateway.payu
gateway_from_source SettlementSource.cashfree = some PaymentGateway.cashfree

unfoldable pub amount_exception :
    Obligation → Settlement → ObligationStatus → Result ExceptionRecord
unfolding amount_reason text show_money
amount_exception obligation settlement status = do
  reason ← amount_reason status
  ok (record (exception_record reason status) {
    order_id = some obligation.order_id;
    settlement_id = some settlement.settlement_id;
    payment_type = some obligation.payment_type;
    store_id = some obligation.store_id;
    payment_gateway = obligation.payment_gateway;
    expected_amount = some obligation.expected_amount;
    actual_amount = some settlement.amount;
    responsible_party = obligation.responsible_party;
    detail = some (
        text (
          "Expected "
          ∷ show_money obligation.expected_amount
          ∷ ", settled "
          ∷ show_money settlement.amount
          ∷ " (settlement "
          ∷ settlement.settlement_id
          ∷ ")."
          ∷ []));
  })

unfoldable pub duplicate_exception : Obligation → List Settlement → Result ExceptionRecord
unfolding text join repr
duplicate_exception obligation settlements = do
  settlement ← first settlements
  ok (record (exception_record duplicate_settlement duplicate) {
    order_id = some obligation.order_id;
    settlement_id = some settlement.settlement_id;
    payment_type = some obligation.payment_type;
    store_id = some obligation.store_id;
    payment_gateway = obligation.payment_gateway;
    expected_amount = some obligation.expected_amount;
    actual_amount = some settlement.amount;
    responsible_party = obligation.responsible_party;
    detail = some (
        text (
          repr (length settlements)
          ∷ " settlements satisfy this obligation: "
          ∷ join ", " (map (λ s. s.settlement_id) settlements)
          ∷ "."
          ∷ []));
  })

-- The dictionaries `by_txn` and `by_order_type` of `reconcile_keys`.
pub record Index : Type 0 where
  pub by_txn : Dict String (List Settlement)
  pub by_order_type : Dict (String × PaymentType) (List Settlement)

unfoldable pub index_txn :
    Option String → Settlement → Dict String (List Settlement) → Dict String (List Settlement)
index_txn none settlement d = d
index_txn (some txn) settlement d = if txn == "" then d else push d txn settlement

unfoldable pub index_order :
    Option String
    → Settlement
    → Dict (String × PaymentType) (List Settlement)
    → Dict (String × PaymentType) (List Settlement)
index_order none settlement d = d
index_order (some order_id) settlement d =
    if order_id == "" then d else push d (order_id, settlement.payment_type) settlement

-- The first loop of `reconcile_keys`, over the settlements that are left.
unfoldable pub index_from : Index → List Settlement → Index
index_from index [] = index
index_from index (settlement ∷ settlements) =
    index_from
      (record {
        by_txn = index_txn settlement.gateway_txn_id settlement index.by_txn;
        by_order_type = index_order settlement.order_id settlement index.by_order_type;
      })
      settlements

abbrev pub empty_index : Index
empty_index = record { by_txn = []; by_order_type = [] }

-- `live(candidates)`
unfoldable pub live : List String → List Settlement → List Settlement
live consumed = filter (λ s. not (contains consumed s.settlement_id))

unfoldable pub txn_candidates : Index → List String → Option String → List Settlement
txn_candidates index consumed none = []
txn_candidates index consumed (some txn) =
    if txn == "" then [] else live consumed (get_or index.by_txn txn [])

unfoldable pub order_candidates :
    Index → List String → Obligation → List Settlement → List Settlement
order_candidates index consumed obligation [] =
    live consumed (get_or index.by_order_type (obligation.order_id, obligation.payment_type) [])
order_candidates index consumed obligation (s ∷ candidates) = s ∷ candidates

-- The settlements that the second loop considers for an obligation.
unfoldable pub candidates_of : Index → List String → Obligation → List Settlement
unfolding txn_candidates order_candidates
candidates_of index consumed obligation =
    order_candidates index consumed obligation
      (txn_candidates index consumed obligation.gateway_txn_id)

-- The variables of the second loop.
pub record Scan : Type 0 where
  pub consumed : List String
  pub matched : List MatchedPair
  pub exceptions : List ExceptionRecord
  pub unmatched_obligations : List Obligation

-- The body of the second loop, for the candidates of the obligation.
unfoldable pub settle : ℕ → Scan → Obligation → List Settlement → Result Scan
unfolding amount_exception duplicate_exception amount_status
settle tolerance scan obligation [] =
    ok (record scan { unmatched_obligations = scan.unmatched_obligations ++ obligation ∷ [] })
settle tolerance scan obligation (s ∷ []) =
    let status = amount_status obligation.expected_amount s.amount tolerance in
    let consumed = s.settlement_id ∷ scan.consumed in
    if status == matched
    then ok (record scan {
      consumed = consumed;
      matched = scan.matched ++ record { obligation = obligation; settlement = s } ∷ [];
    })
    else (do
      exception ← amount_exception obligation s status
      ok (record scan { consumed = consumed; exceptions = scan.exceptions ++ exception ∷ [] }))
settle tolerance scan obligation (s ∷ t ∷ candidates) = do
  exception ← duplicate_exception obligation (s ∷ t ∷ candidates)
  ok (record scan {
    consumed = map (λ c. c.settlement_id) (s ∷ t ∷ candidates) ++ scan.consumed;
    exceptions = scan.exceptions ++ exception ∷ [];
  })

-- The second loop, over the obligations that are left.
unfoldable pub match_from : Index → ℕ → Scan → List Obligation → Result Scan
match_from index tolerance scan [] = ok scan
match_from index tolerance scan (obligation ∷ obligations) = do
  next ← settle tolerance scan obligation (candidates_of index scan.consumed obligation)
  match_from index tolerance next obligations

abbrev pub empty_scan : Scan
empty_scan = record { consumed = []; matched = []; exceptions = []; unmatched_obligations = [] }

unfoldable pub reconcile_keys : List Obligation → List Settlement → ℕ → Result KeyMatchResult
reconcile_keys obligations settlements tolerance = do
  scan ← match_from (index_from empty_index settlements) tolerance empty_scan obligations
  ok (record {
    matched = scan.matched;
    exceptions = scan.exceptions;
    unmatched_obligations = scan.unmatched_obligations;
    unmatched_settlements = filter (λ s. not (contains scan.consumed s.settlement_id)) settlements;
  })
