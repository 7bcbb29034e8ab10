-- ===== src/Agent/Llm/Proposals.antt =====
-- What `MockLLMClient.propose_fuzzy` proposes (src/reconcile/agent/llm.py).
use mathlib.Core.List.{mem-cons_self, mem-cons_of_mem}
use mathlib.Core.Path.{subst}
use retail_reconciliation_ag.Prelude.{
  String, List, [], ◌∷◌, none, some, true, false, contains, string_eq, nat_eq, ◌==◌, Mem, All,
  All-imp, All-intro, sym, ◌≡◌, ◌≢◌, Option-cases, ◌⊎◌, inl, inr, refl, arith, Bool-cases,
}
use retail_reconciliation_ag.Domain.Records.{Obligation, Settlement}
use retail_reconciliation_ag.Agent.Schemas.{FuzzyPairing}
use retail_reconciliation_ag.Agent.Llm.Mock.{
  find_settlement, mock_pairing, propose_from, propose_fuzzy,
}
use retail_reconciliation_ag.Agent.Llm.Search.{
  IsMatchFor, find_settlement-IsMatchFor, find_settlement-none,
}

-- The settlements of the pairings differ from each other.
abbrev pub UseDistinctSettlements : List FuzzyPairing → Type 0
UseDistinctSettlements [] = Unit
UseDistinctSettlements (p ∷ ps) =
    All (λ q. p.settlement_id ≢ q.settlement_id) ps × UseDistinctSettlements ps

-- A pairing names the obligation or the settlement.
abbrev pub IsNamed : List FuzzyPairing → Obligation → Settlement → Type 0
IsNamed ps o s =
    (p : FuzzyPairing) × Mem p ps
    × ((p.order_id ≡ some o.order_id) ⊎ (p.settlement_id ≡ some s.settlement_id))

-- The two are named, or the settlement was used before.
abbrev IsSettled : List String → List FuzzyPairing → Obligation → Settlement → Type 0
IsSettled used ps o s =
    s.amount ≡ o.expected_amount → (contains used s.settlement_id ≡ true) ⊎ IsNamed ps o s

still-IsSettled :
    (used : List String) (p : FuzzyPairing) (ps : List FuzzyPairing) (o : Obligation)
    (t s : Settlement)
    → p.settlement_id ≡ some t.settlement_id
    → IsSettled (t.settlement_id ∷ used) ps o s
    → IsSettled used (p ∷ ps) o s
still-IsSettled used p ps o t s e h same = elim (h same) [
  | inr (q, m, names) ↦ inr (q, mem-cons_of_mem p m, names)
  | inl seen ↦ elim (Bool-cases (t.settlement_id == s.settlement_id)) [
    | inl now ↦ inr (p, mem-cons_self, inr (ground (arith, e)))
    | inr earlier ↦ inl (ground arith)
  ]
]

module _ (settlements : List Settlement) where
  -- A pairing of rows that were given, with equal amounts, whose settlement is not used yet.
  pub record IsProposal (used : List String) (obligations : List Obligation) (p : FuzzyPairing)
      : Type 0 where
    pub obligation : Obligation
    pub settlement : Settlement
    pub listed : Mem obligation obligations
    pub suits : IsMatchFor used obligation settlements settlement
    pub same : p ≡ mock_pairing obligation settlement

  wider :
      (used : List String) (i : String) (o : Obligation) (os : List Obligation) (p : FuzzyPairing)
      → IsProposal (i ∷ used) os p
      → IsProposal used (o ∷ os) p
  wider used i o os p h = record {
    obligation = h.obligation;
    settlement = h.settlement;
    listed = mem-cons_of_mem o h.listed;
    suits = record {
      given = h.suits.given;
      fresh = ground (arith, h.suits.fresh);
      same_amount = h.suits.same_amount;
    };
    same = h.same;
  }

  propose_from-none :
      (used : List String) (o : Obligation) (os : List Obligation)
      → find_settlement used o settlements ≡ none
      → propose_from settlements used (o ∷ os) ≡ propose_from settlements used os
  unfolding propose_from
  propose_from-none used o os e = rw (e, propose_from) refl

  propose_from-some :
      (used : List String) (o : Obligation) (os : List Obligation) (s : Settlement)
      → find_settlement used o settlements ≡ some s
      → propose_from settlements used (o ∷ os)
        ≡ mock_pairing o s ∷ propose_from settlements (s.settlement_id ∷ used) os
  unfolding propose_from mock_pairing
  propose_from-some used o os s e = rw (e, propose_from) refl

  propose_from-IsProposal :
      (used : List String) (os : List Obligation)
      → All (IsProposal used os) (propose_from settlements used os)
  unfolding propose_from
  propose_from-IsProposal used [] = tt
  propose_from-IsProposal used (o ∷ os) = elim (Option-cases (find_settlement used o settlements)) [
    | inl missing ↦ rw (propose_from-none used o os missing) (
        All-imp _ _
          (λ p h. record {
            obligation = h.obligation;
            settlement = h.settlement;
            listed = mem-cons_of_mem o h.listed;
            suits = h.suits;
            same = h.same;
          })
          _ (propose_from-IsProposal used os))
    | inr (s, found) ↦ rw (propose_from-some used o os s found) (
      record {
        obligation = o;
        settlement = s;
        listed = mem-cons_self;
        suits = find_settlement-IsMatchFor used o settlements s found;
        same = refl;
      },
      All-imp _ _ (λ p h. wider used s.settlement_id o os p h) _
          (propose_from-IsProposal (s.settlement_id ∷ used) os),
    )
  ]

  later-differs :
      (used : List String) (o : Obligation) (s : Settlement) (p : FuzzyPairing)
      (left : List Obligation)
      → IsProposal (s.settlement_id ∷ used) left p
      → (mock_pairing o s).settlement_id ≢ p.settlement_id
  unfolding mock_pairing
  later-differs used o s p left h e = ground (arith, h.suits.fresh, h.same)

  propose_from-distinct :
      (used : List String) (os : List Obligation)
      → UseDistinctSettlements (propose_from settlements used os)
  unfolding propose_from
  propose_from-distinct used [] = tt
  propose_from-distinct used (o ∷ os) = elim (Option-cases (find_settlement used o settlements)) [
    | inl missing ↦ rw (propose_from-none used o os missing) (propose_from-distinct used os)
    | inr (s, found) ↦ rw (propose_from-some used o os s found) (
      All-imp _ _ (λ p h. later-differs used o s p os h) _
          (propose_from-IsProposal (s.settlement_id ∷ used) os),
      propose_from-distinct (s.settlement_id ∷ used) os,
    )
  ]

  abbrev AllSettled : List String → List Obligation → List FuzzyPairing → Type 0
  AllSettled used os ps = All (λ o. All (IsSettled used ps o) settlements) os

  propose_from-IsSettled :
      (used : List String) (os : List Obligation)
      → AllSettled used os (propose_from settlements used os)
  unfolding propose_from mock_pairing
  propose_from-IsSettled used [] = tt
  propose_from-IsSettled used (o ∷ os) = elim (Option-cases (find_settlement used o settlements)) [
    | inl missing ↦ subst (AllSettled used (o ∷ os)) (sym (propose_from-none used o os missing)) (
      All-imp _ _ (λ s h e. inl (h e)) settlements
          (find_settlement-none used o settlements missing),
      propose_from-IsSettled used os,
    )
    | inr (t, found) ↦
        subst (AllSettled used (o ∷ os)) (sym (propose_from-some used o os t found)) (
          All-intro _ (λ s e. inr (mock_pairing o t, mem-cons_self, inl refl)) settlements,
          All-imp _ _
              (λ o' h.
                All-imp _ _ (λ s k. still-IsSettled used (mock_pairing o t) _ o' t s refl k)
                  settlements h)
              os (propose_from-IsSettled (t.settlement_id ∷ used) os),
        )
  ]

-- Each pairing that the mock client proposes is of a given obligation and a given settlement with
-- equal amounts, and no two of them have the same settlement. None is missed: an obligation and a
-- settlement have different amounts, or some proposed pairing names one of the two.
pub propose_fuzzy_lem :
    (obligations : List Obligation) (settlements : List Settlement)
    → All (IsProposal settlements [] obligations) (propose_fuzzy obligations settlements).pairings
      × UseDistinctSettlements (propose_fuzzy obligations settlements).pairings
      × All
          (λ o.
            All
              (λ s.
                (s.amount ≢ o.expected_amount)
                ⊎ IsNamed (propose_fuzzy obligations settlements).pairings o s)
              settlements)
          obligations
unfolding propose_fuzzy
propose_fuzzy_lem obligations settlements = (
  propose_from-IsProposal settlements [] obligations,
  propose_from-distinct settlements [] obligations,
  All-imp _ _ (λ o h. All-imp _ _ (λ s k. named o s k) settlements h) obligations
      (propose_from-IsSettled settlements [] obligations),
)
  where
    unused : {P : Type 0} → (false ≡ true) ⊎ P → P
    unused (inl e) = absurd (ground arith)
    unused (inr p) = p

    named :
        (o : Obligation) (s : Settlement)
        → IsSettled [] (propose_from settlements [] obligations) o s
        → (s.amount ≢ o.expected_amount) ⊎ IsNamed (propose_from settlements [] obligations) o s
    named o s k = elim (nat_eq.eq_dec s.amount o.expected_amount) [
      | yes e ↦ inr (unused (k e))
      | no n ↦ inl n
    ]
