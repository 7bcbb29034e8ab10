-- ===== src/Agent/Fuzzy.antt =====
-- src/reconcile/agent/nodes.py: what `fuzzy_node` makes of the proposed pairings.
use retail_reconciliation_ag.Prelude.{
  String, List, [], ◌∷◌, ◌++◌, Option, some, text, leb, string_eq, if◌then◌else◌,
}
use retail_reconciliation_ag.Prelude.Dict.{Dict, get, set, delete}
use retail_reconciliation_ag.Domain.Enums.{fuzzy_match_review, ObligationStatus}
use retail_reconciliation_ag.Domain.Records.{
  Obligation, Settlement, MatchedPair, ExceptionRecord, exception_record,
}
use retail_reconciliation_ag.Config.{FuzzyMatchConfig}
use retail_reconciliation_ag.Agent.Schemas.{FuzzyPairing}

-- `sorted(pairings, key=lambda p: p.confidence, reverse=True)`, which keeps the order of equals.
unfoldable pub insert : FuzzyPairing → List FuzzyPairing → List FuzzyPairing
insert p [] = p ∷ []
insert p (q ∷ qs) =
    let rest = insert p qs in if leb q.confidence p.confidence then p ∷ q ∷ qs else q ∷ rest

unfoldable pub by_confidence : List FuzzyPairing → List FuzzyPairing
unfolding insert
by_confidence [] = []
by_confidence (p ∷ ps) = insert p (by_confidence ps)

unfoldable pub fuzzy_review_exception : Obligation → Settlement → String → ExceptionRecord
unfolding text
fuzzy_review_exception obligation settlement rationale =
    record (exception_record fuzzy_match_review ObligationStatus.unmatched) {
      order_id = some obligation.order_id;
      settlement_id = some settlement.settlement_id;
      payment_type = some obligation.payment_type;
      store_id = some obligation.store_id;
      payment_gateway = obligation.payment_gateway;
      expected_amount = some obligation.expected_amount;
      actual_amount = some settlement.amount;
      detail = some (text ("Possible match (needs review): " ∷ rationale ∷ []));
    }

-- `{key(x): x for x in xs}`, added to a dictionary.
unfoldable pub index_by : {A : Type 0} → (A → String) → Dict String A → List A → Dict String A
index_by key d [] = d
index_by key d (x ∷ xs) = index_by key (set d (key x) x) xs

-- A pairing that was acted on: the type of its event, the order and the rationale.
pub record FuzzyEvent : Type 0 where
  pub event_type : String
  pub order_id : String
  pub detail : String

-- The variables of the loop.
pub record Pairings : Type 0 where
  pub obl_by_order : Dict String Obligation
  pub settle_by_id : Dict String Settlement
  pub matched : List MatchedPair
  pub exceptions : List ExceptionRecord
  pub auto_applied : List FuzzyPairing
  pub events : List FuzzyEvent

-- The two deletions.
abbrev pub consume : String → String → Pairings → Pairings
consume order_id settlement_id st = record st {
  obl_by_order = delete st.obl_by_order order_id;
  settle_by_id = delete st.settle_by_id settlement_id;
}

-- What the two thresholds make of a pairing whose rows are there.
unfoldable pub apply_pairing :
    FuzzyMatchConfig
    → FuzzyPairing
    → String
    → String
    → Obligation
    → Settlement
    → Pairings
    → Pairings
unfolding fuzzy_review_exception
apply_pairing config p order_id settlement_id obligation settlement st =
    if leb config.auto_apply_threshold p.confidence
    then consume order_id settlement_id (record st {
      matched = st.matched ++ record { obligation = obligation; settlement = settlement } ∷ [];
      auto_applied = st.auto_applied ++ p ∷ [];
      events =
          st.events
          ++ record {
            event_type = "fuzzy_auto_applied";
            order_id = obligation.order_id;
            detail = p.rationale;
          }
            ∷ [];
    })
    else if leb config.review_threshold p.confidence
    then consume order_id settlement_id (record st {
      exceptions = st.exceptions ++ fuzzy_review_exception obligation settlement p.rationale ∷ [];
      events =
          st.events
          ++ record {
            event_type = "fuzzy_review_flagged";
            order_id = obligation.order_id;
            detail = p.rationale;
          }
            ∷ [];
    })
    else st

-- The lookups of a pairing with both ids.
unfoldable pub look_up :
    FuzzyMatchConfig
    → FuzzyPairing
    → String
    → String
    → Option Obligation
    → Option Settlement
    → Pairings
    → Pairings
unfolding apply_pairing
look_up config p order_id settlement_id (some obligation) (some settlement) st =
    apply_pairing config p order_id settlement_id obligation settlement st
look_up config p order_id settlement_id _ _ st = st

-- One round of the loop, by the ids of the pairing.
unfoldable pub try_pairing :
    FuzzyMatchConfig → FuzzyPairing → Option String → Option String → Pairings → Pairings
unfolding look_up
try_pairing config p (some order_id) (some settlement_id) st =
    look_up config p order_id settlement_id (get st.obl_by_order order_id)
      (get st.settle_by_id settlement_id) st
try_pairing config p _ _ st = st

unfoldable pub pair_from : FuzzyMatchConfig → List FuzzyPairing → Pairings → Pairings
unfolding try_pairing
pair_from config [] st = st
pair_from config (p ∷ ps) st =
    pair_from config ps (try_pairing config p p.order_id p.settlement_id st)

-- The dictionaries and lists before the loop, and the loop.
unfoldable pub apply_proposal :
    FuzzyMatchConfig
    → List FuzzyPairing
    → List Obligation
    → List Settlement
    → List MatchedPair
    → List ExceptionRecord
    → Pairings
unfolding by_confidence index_by pair_from
apply_proposal config pairings obligations settlements matched exceptions =
    pair_from config (by_confidence pairings) (record {
      obl_by_order = index_by (λ o. o.order_id) [] obligations;
      settle_by_id = index_by (λ s. s.settlement_id) [] settlements;
      matched = matched;
      exceptions = exceptions;
      auto_applied = [];
      events = [];
    })
