-- ===== src/Agent/Llm/Search.antt =====
-- What the inner loop of `MockLLMClient.propose_fuzzy` finds (src/reconcile/agent/llm.py).
use mathlib.Core.List.{mem-cons_self, mem-cons_of_mem}
use retail_reconciliation_ag.Prelude.{
  String, List, [], ◌∷◌, none, some, true, false, contains, string_eq, nat_eq, ◌==◌, eq_of_test,
  Mem, All, sym, ◌≡◌, inl, inr, arith, Bool-cases,
}
use retail_reconciliation_ag.Domain.Records.{Obligation, Settlement}
use retail_reconciliation_ag.Agent.Llm.Mock.{find_settlement}

-- What a settlement that is found satisfies.
pub record IsMatchFor (used : List String) (o : Obligation) (settlements : List Settlement)
    (s : Settlement) : Type 0 where
  pub given : Mem s settlements
  pub fresh : contains used s.settlement_id ≡ false
  pub same_amount : s.amount ≡ o.expected_amount

later :
    (used : List String) (o : Obligation) (t : Settlement) (settlements : List Settlement)
    (s : Settlement)
    → IsMatchFor used o settlements s
    → IsMatchFor used o (t ∷ settlements) s
later used o t settlements s h = record {
  given = mem-cons_of_mem t h.given;
  fresh = h.fresh;
  same_amount = h.same_amount;
}

pub find_settlement-IsMatchFor :
    (used : List String) (o : Obligation) (settlements : List Settlement) (s : Settlement)
    → find_settlement used o settlements ≡ some s
    → IsMatchFor used o settlements s
unfolding find_settlement
find_settlement-IsMatchFor used o [] s h = absurd (ground arith)
find_settlement-IsMatchFor used o (t ∷ settlements) s h =
    elim (Bool-cases (contains used t.settlement_id)) [
      | inl seen ↦
          later used o t settlements s
            (find_settlement-IsMatchFor used o settlements s (ground arith))
      | inr fresh ↦ elim (Bool-cases (t.amount == o.expected_amount)) [
        | inr other ↦
            later used o t settlements s
              (find_settlement-IsMatchFor used o settlements s (ground arith))
        | inl same ↦
            let found : t ≡ s = ground arith in
            rw (sym found) (record {
              given = mem-cons_self;
              fresh = fresh;
              same_amount = eq_of_test t.amount o.expected_amount same;
            })
      ]
    ]

-- Where none is found, each settlement with the amount of the obligation is used.
pub find_settlement-none :
    (used : List String) (o : Obligation) (settlements : List Settlement)
    → find_settlement used o settlements ≡ none
    → All (λ s. s.amount ≡ o.expected_amount → contains used s.settlement_id ≡ true) settlements
unfolding find_settlement
find_settlement-none used o [] h = tt
find_settlement-none used o (t ∷ settlements) h =
    (λ e. ground arith, find_settlement-none used o settlements (ground arith))
