-- ===== src/Agent/Named.antt =====
-- Short ids, from node to node of the graph (src/reconcile/agent/nodes.py).
use retail_reconciliation_ag.Prelude.{
  String, List, [], ◌∷◌, map, Option, none, some, ◌≡◌, refl, leb, All, All-imp, All-append,
  Bool-cases, inl, inr, string_eq,
}
use retail_reconciliation_ag.Prelude.Dict.{Dict, get, set, All-set, All-delete, All-get}
use retail_reconciliation_ag.Prelude.Effects.{Succeeds}
use retail_reconciliation_ag.Domain.Records.{Obligation, Settlement, MatchedPair, ExceptionRecord}
use retail_reconciliation_ag.Config.{FuzzyMatchConfig}
use retail_reconciliation_ag.Reconciliation.Leftovers.{
  missing_obligation_exception, unmatched_settlement_exception, classify_leftovers,
}
use retail_reconciliation_ag.Notifications.Service.{Mailbox}
use retail_reconciliation_ag.Agent.Schemas.{FuzzyPairing}
use retail_reconciliation_ag.Agent.Fuzzy.{
  Pairings, index_by, by_confidence, apply_pairing, look_up, try_pairing, fuzzy_review_exception,
  pair_from, apply_proposal,
}
use retail_reconciliation_ag.Agent.State.{ReconciliationState, AgentDependencies, outside}
use retail_reconciliation_ag.Agent.Nodes.{
  reconcile_update, reconcile_node, proposed, fuzzy_node, classify_node,
}
use retail_reconciliation_ag.Agent.Graph.{route_after_reconcile, fuzzy_edge}
use retail_reconciliation_ag.Agent.Llm.Subjects.{HasShortIds}
use retail_reconciliation_ag.Agent.Naming.{
  IsShortObligation, HasShortId, All-map, reconcile_keys-short,
}

index_by-short :
    {A : Type 0} (P : A → Type 0) (key : A → String) (d : Dict String A) (xs : List A)
    → All (λ e. P e.1) d
    → All P xs
    → All (λ e. P e.1) (index_by key d xs)
unfolding index_by
index_by-short P key d [] h k = h
index_by-short P key d (x ∷ xs) h k =
    index_by-short P key (set d (key x) x) xs (All-set (λ i v. P v) d (key x) x h k.0) k.1

-- The rows of a state of the loop have short ids, and so do its exceptions.
abbrev Named : Pairings → Type 0
Named st =
    All (λ e. IsShortObligation e.1) st.obl_by_order
    × All (λ e. HasShortId e.1) st.settle_by_id
    × All HasShortIds st.exceptions

module _ (config : FuzzyMatchConfig) (p : FuzzyPairing) where
  apply_pairing-Named :
      (i j : String) (o : Obligation) (s : Settlement) (st : Pairings)
      → get st.obl_by_order i ≡ some o
      → get st.settle_by_id j ≡ some s
      → Named st
      → Named (apply_pairing config p i j o s st)
  unfolding apply_pairing fuzzy_review_exception
  apply_pairing-Named i j o s st h k named =
      let order = All-get (λ i o. IsShortObligation o) st.obl_by_order i o named.0 h in
      let settlement = All-get (λ j s. HasShortId s) st.settle_by_id j s named.1 k in
      let orders = All-delete (λ i o. IsShortObligation o) st.obl_by_order i named.0 in
      let ids = All-delete (λ j s. HasShortId s) st.settle_by_id j named.1 in
      elim (Bool-cases (leb config.auto_apply_threshold p.confidence)) [
        | inl applied ↦ rw applied (orders, ids, named.2)
        | inr low ↦ rw low (elim (Bool-cases (leb config.review_threshold p.confidence)) [
          | inl flagged ↦
              rw flagged
                (orders, ids, All-append _ st.exceptions _ named.2 ((order, settlement), tt))
          | inr ignored ↦ rw ignored named
        ])
      ]

  look_up-Named :
      (i j : String) (o : Option Obligation) (s : Option Settlement) (st : Pairings)
      → get st.obl_by_order i ≡ o
      → get st.settle_by_id j ≡ s
      → Named st
      → Named (look_up config p i j o s st)
  unfolding look_up
  look_up-Named i j (some o) (some s) st h k named = apply_pairing-Named i j o s st h k named
  look_up-Named i j none s st h k named = named
  look_up-Named i j (some o) none st h k named = named

  try_pairing-Named :
      (i j : Option String) (st : Pairings) → Named st → Named (try_pairing config p i j st)
  unfolding try_pairing
  try_pairing-Named (some i) (some j) st named = look_up-Named i j _ _ st refl refl named
  try_pairing-Named none j st named = named
  try_pairing-Named (some i) none st named = named

pair_from-Named :
    (config : FuzzyMatchConfig) (ps : List FuzzyPairing) (st : Pairings)
    → Named st
    → Named (pair_from config ps st)
unfolding pair_from
pair_from-Named config [] st named = named
pair_from-Named config (p ∷ ps) st named =
    pair_from-Named config ps _ (try_pairing-Named config p p.order_id p.settlement_id st named)

apply_proposal-Named :
    (config : FuzzyMatchConfig) (pairings : List FuzzyPairing) (obligations : List Obligation)
    → (settlements : List Settlement) (matched : List MatchedPair)
    → (exceptions : List ExceptionRecord) → All IsShortObligation obligations
    → All HasShortId settlements
    → All HasShortIds exceptions
    → Named (apply_proposal config pairings obligations settlements matched exceptions)
unfolding apply_proposal
apply_proposal-Named config pairings obligations settlements matched exceptions h k l =
    pair_from-Named config (by_confidence pairings) _ (
      index_by-short IsShortObligation (λ o. o.order_id) [] obligations tt h,
      index_by-short HasShortId (λ s. s.settlement_id) [] settlements tt k,
      l,
    )

-- The rows of the files have short ids, and so have the exceptions of the sums.
abbrev pub IsGiven : ReconciliationState → Type 0
IsGiven state =
    All IsShortObligation state.obligations
    × All HasShortId state.settlements
    × All HasShortIds state.order_sum_exceptions

-- The rows that are left have short ids, and so have the exceptions.
abbrev pub IsMatched : ReconciliationState → Type 0
IsMatched state =
    All IsShortObligation state.unmatched_obligations
    × All HasShortId state.unmatched_settlements
    × All HasShortIds state.exceptions

abbrev pub IsNamed : ReconciliationState → Type 0
IsNamed state = All HasShortIds state.exceptions

module _ {N : Type 0} (deps : AgentDependencies N) where
  pub reconcile_node-Succeeds :
      (state : ReconciliationState) (mailbox : Mailbox N)
      → IsGiven state
      → Succeeds IsMatched (reconcile_node deps state mailbox)
  unfolding reconcile_node reconcile_update
  reconcile_node-Succeeds state mailbox h =
      let (r, returned, exceptions, obligations, settlements) =
        reconcile_keys-short state.obligations state.settlements
          deps.config.reconciliation.amount_tolerance h.0 h.1 in
      rw returned
        (obligations, settlements, All-append _ state.order_sum_exceptions _ h.2 exceptions)

  fuzzy_node-Succeeds :
      (state : ReconciliationState) (mailbox : Mailbox N)
      → IsMatched state
      → Succeeds IsMatched (fuzzy_node deps state mailbox)
  unfolding fuzzy_node
  fuzzy_node-Succeeds state mailbox h =
      let call = deps.llm.propose_fuzzy state.unmatched_obligations state.unmatched_settlements in
      let pairings = (proposed deps state.run_id (outside call mailbox).0).0 in
      let named =
        apply_proposal-Named deps.config.fuzzy_match pairings state.unmatched_obligations
          state.unmatched_settlements state.matched state.exceptions h.0 h.1 h.2 in
      (
        All-map IsShortObligation (λ e. e.1) _ named.0,
        All-map HasShortId (λ e. e.1) _ named.1,
        named.2,
      )

  pub fuzzy_edge-Succeeds :
      (state : ReconciliationState) (mailbox : Mailbox N)
      → IsMatched state
      → Succeeds IsMatched (fuzzy_edge deps state mailbox)
  unfolding fuzzy_edge
  fuzzy_edge-Succeeds state mailbox h = elim (Bool-cases (route_after_reconcile deps state)) [
    | inl taken ↦ rw taken (fuzzy_node-Succeeds state mailbox h)
    | inr passed ↦ rw passed h
  ]

  pub classify_node-Succeeds :
      (state : ReconciliationState) (mailbox : Mailbox N)
      → IsMatched state
      → Succeeds IsNamed (classify_node deps state mailbox)
  unfolding classify_node classify_leftovers missing_obligation_exception
      unmatched_settlement_exception
  classify_node-Succeeds state mailbox h = All-append HasShortIds state.exceptions _ h.2 (
      All-append HasShortIds (map _ state.unmatched_obligations) _
        (All-map HasShortIds _ state.unmatched_obligations
          (All-imp _ _ (λ o short_id. (short_id, tt)) state.unmatched_obligations h.0))
        (All-map HasShortIds _ state.unmatched_settlements
          (All-imp _ _ (λ s short_id. (tt, short_id)) state.unmatched_settlements h.1)))
