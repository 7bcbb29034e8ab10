-- ===== src/Agent/Justified.antt =====
-- The pairs that `fuzzy_node` makes are justified by the proposal (src/reconcile/agent/nodes.py).
use retail_reconciliation_ag.Prelude.{
  ◌≤◌, String, List, [], ◌∷◌, Option, none, some, Mem, All, All-imp, All-append, All-mem, ◌≡◌, refl,
  ◌⊎◌, inl, inr, leb, leb→le, Bool-cases, string_eq, ap, ◌∙◌,
}
use retail_reconciliation_ag.Prelude.Dict.{Dict, get, set, All-set, All-delete, All-get}
use retail_reconciliation_ag.Domain.Records.{Obligation, Settlement, MatchedPair, ExceptionRecord}
use retail_reconciliation_ag.Config.{FuzzyMatchConfig}
use retail_reconciliation_ag.Agent.Schemas.{FuzzyPairing}
use retail_reconciliation_ag.Agent.Fuzzy.{
  insert, by_confidence, index_by, Pairings, apply_pairing, look_up, try_pairing, pair_from,
  apply_proposal,
}

module _ {A : Type 0} (key : A → String) where
  -- An entry of the dictionary holds one of the elements, under its key.
  index_by-All :
      (d : Dict String A) (xs ys : List A)
      → All (λ x. Mem x ys) xs
      → All (λ e. (e.0 ≡ key e.1) × Mem e.1 ys) d
      → All (λ e. (e.0 ≡ key e.1) × Mem e.1 ys) (index_by key d xs)
  unfolding index_by
  index_by-All d [] ys h k = k
  index_by-All d (x ∷ xs) ys h k =
      index_by-All (set d (key x) x) xs ys h.1
        (All-set (λ i v. (i ≡ key v) × Mem v ys) d (key x) x k (refl, h.0))

-- A proposed pairing names the rows of the pair, both were unmatched, and the confidence reaches the
-- threshold.
pub record IsJustified (config : FuzzyMatchConfig) (pairings : List FuzzyPairing)
    (obligations : List Obligation) (settlements : List Settlement) (m : MatchedPair) : Type 0 where
  pub pairing : FuzzyPairing
  pub is_proposed : Mem pairing pairings
  pub order_named : pairing.order_id ≡ some m.obligation.order_id
  pub settlement_named : pairing.settlement_id ≡ some m.settlement.settlement_id
  pub is_confident : config.auto_apply_threshold ≤ pairing.confidence
  pub obligation_given : Mem m.obligation obligations
  pub settlement_given : Mem m.settlement settlements

module _ (config : FuzzyMatchConfig) (pairings : List FuzzyPairing) (obligations : List Obligation)
    (settlements : List Settlement) (matched : List MatchedPair) where
  -- The pair was there before, or is justified.
  abbrev Earned : MatchedPair → Type 0
  Earned m = Mem m matched ⊎ IsJustified config pairings obligations settlements m

  abbrev Sound : Pairings → Type 0
  Sound st =
      All (λ e. (e.0 ≡ e.1.order_id) × Mem e.1 obligations) st.obl_by_order
      × All (λ e. (e.0 ≡ e.1.settlement_id) × Mem e.1 settlements) st.settle_by_id
      × All Earned st.matched

  apply_pairing-Sound :
      (p : FuzzyPairing) (i j : String) (o : Obligation) (s : Settlement) (st : Pairings)
      → Mem p pairings
      → p.order_id ≡ some i
      → p.settlement_id ≡ some j
      → get st.obl_by_order i ≡ some o
      → get st.settle_by_id j ≡ some s
      → Sound st
      → Sound (apply_pairing config p i j o s st)
  unfolding apply_pairing
  apply_pairing-Sound p i j o s st given pi pj h k sound =
      let order =
        All-get (λ i o. (i ≡ o.order_id) × Mem o obligations) st.obl_by_order i o sound.0 h in
      let settlement =
        All-get (λ j s. (j ≡ s.settlement_id) × Mem s settlements) st.settle_by_id j s sound.1 k in
      let orders =
        All-delete (λ i o. (i ≡ o.order_id) × Mem o obligations) st.obl_by_order i sound.0 in
      let ids =
        All-delete (λ j s. (j ≡ s.settlement_id) × Mem s settlements) st.settle_by_id j sound.1 in
      elim (Bool-cases (leb config.auto_apply_threshold p.confidence)) [
        | inl applied ↦ rw applied (
          orders,
          ids,
          All-append Earned st.matched _ sound.2 (
            inr (record {
              pairing = p;
              is_proposed = given;
              order_named = pi ∙ ap some order.0;
              settlement_named = pj ∙ ap some settlement.0;
              is_confident = leb→le _ _ applied;
              obligation_given = order.1;
              settlement_given = settlement.1;
            }),
            tt,
          ),
        )
        | inr low ↦ rw low (elim (Bool-cases (leb config.review_threshold p.confidence)) [
          | inl flagged ↦ rw flagged (orders, ids, sound.2)
          | inr ignored ↦ rw ignored sound
        ])
      ]

  look_up-Sound :
      (p : FuzzyPairing) (i j : String) (o : Option Obligation) (s : Option Settlement)
      (st : Pairings)
      → Mem p pairings
      → p.order_id ≡ some i
      → p.settlement_id ≡ some j
      → get st.obl_by_order i ≡ o
      → get st.settle_by_id j ≡ s
      → Sound st
      → Sound (look_up config p i j o s st)
  unfolding look_up
  look_up-Sound p i j (some o) (some s) st given pi pj h k sound =
      apply_pairing-Sound p i j o s st given pi pj h k sound
  look_up-Sound p i j none s st given pi pj h k sound = sound
  look_up-Sound p i j (some o) none st given pi pj h k sound = sound

  try_pairing-Sound :
      (p : FuzzyPairing) (i j : Option String) (st : Pairings)
      → Mem p pairings
      → p.order_id ≡ i
      → p.settlement_id ≡ j
      → Sound st
      → Sound (try_pairing config p i j st)
  unfolding try_pairing
  try_pairing-Sound p (some i) (some j) st given pi pj sound =
      look_up-Sound p i j _ _ st given pi pj refl refl sound
  try_pairing-Sound p none j st given pi pj sound = sound
  try_pairing-Sound p (some i) none st given pi pj sound = sound

  pair_from-Sound :
      (ps : List FuzzyPairing) (st : Pairings)
      → All (λ p. Mem p pairings) ps
      → Sound st
      → Sound (pair_from config ps st)
  unfolding pair_from
  pair_from-Sound [] st given sound = sound
  pair_from-Sound (p ∷ ps) st given sound =
      pair_from-Sound ps _ given.1 (try_pairing-Sound p _ _ st given.0 refl refl sound)

insert-All :
    (P : FuzzyPairing → Type 0) (p : FuzzyPairing) (qs : List FuzzyPairing)
    → P p
    → All P qs
    → All P (insert p qs)
unfolding insert
insert-All P p [] h k = (h, tt)
insert-All P p (q ∷ qs) h k = elim (Bool-cases (leb q.confidence p.confidence)) [
  | inl less ↦ rw less (h, k)
  | inr more ↦ rw more (k.0, insert-All P p qs h k.1)
]

by_confidence-All :
    (P : FuzzyPairing → Type 0) (ps : List FuzzyPairing) → All P ps → All P (by_confidence ps)
unfolding by_confidence
by_confidence-All P [] h = tt
by_confidence-All P (p ∷ ps) h = insert-All P p _ h.0 (by_confidence-All P ps h.1)

-- Each pair that the node leaves was matched before, or is justified: a proposed pairing with a
-- confidence of at least the threshold for automatic use names its order and its settlement, and both
-- were among the unmatched rows.
pub apply_proposal-IsJustified :
    (config : FuzzyMatchConfig) (pairings : List FuzzyPairing)
    → (obligations : List Obligation) (settlements : List Settlement)
    → (matched : List MatchedPair) (exceptions : List ExceptionRecord)
    → All
        (λ m. Mem m matched ⊎ IsJustified config pairings obligations settlements m)
        (apply_proposal config pairings obligations settlements matched exceptions).matched
unfolding apply_proposal
apply_proposal-IsJustified config pairings obligations settlements matched exceptions =
    (pair_from-Sound config pairings obligations settlements matched (by_confidence pairings) _
      (by_confidence-All (λ p. Mem p pairings) pairings (All-mem pairings))
      (
        index_by-All (λ o. o.order_id) [] obligations obligations (All-mem obligations) tt,
        index_by-All (λ s. s.settlement_id) [] settlements settlements (All-mem settlements) tt,
        All-imp _ _ (λ m given. inl given) matched (All-mem matched),
      )).2
