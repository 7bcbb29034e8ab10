-- ===== src/Reconciliation/Matching/Reasons.antt =====
-- The exceptions of key matching say why they were raised.
use retail_reconciliation_ag.Prelude.{
  ℕ, List, ◌∷◌, some, true, ok, ◌≡◌, arith, All, All-mem, All-append, Mem, ◌+◌, ◌≤◌, ◌<◌, length,
  filter, string_eq,
}
use retail_reconciliation_ag.Domain.Enums.{
  partially_matched, excess, duplicate, amount_short, amount_excess, duplicate_settlement,
}
use retail_reconciliation_ag.Domain.Records.{Settlement, Obligation, ExceptionRecord}
use retail_reconciliation_ag.Reconciliation.Matcher.{
  Scan, KeyMatchResult, reconcile_keys, amount_exception, duplicate_exception,
}
use retail_reconciliation_ag.Reconciliation.Matching.Candidates.{
  shares_key, Candidate, candidates_of-Candidate, candidates_of-length,
}
use retail_reconciliation_ag.Reconciliation.Matching.Steps.{
  Settled, missing, paired, short, over, doubled, reconcile_keys_ind, outcome,
}

-- The obligation and the settlement are inputs that agree on a key, and the exception names both,
-- with their amounts.
pub record Concerns (obligations : List Obligation) (settlements : List Settlement) (o : Obligation)
    (s : Settlement) (e : ExceptionRecord) : Type 0 where
  pub obligation_given : Mem o obligations
  pub settlement_given : Mem s settlements
  pub keys_agree : shares_key o s ≡ true
  pub order_id : e.order_id ≡ some o.order_id
  pub settlement_id : e.settlement_id ≡ some s.settlement_id
  pub expected : e.expected_amount ≡ some o.expected_amount
  pub actual : e.actual_amount ≡ some s.amount

-- The three reasons that key matching gives.
pub data IsExplained (obligations : List Obligation) (settlements : List Settlement) (tolerance : ℕ)
    (e : ExceptionRecord) : Type 0 where
  too_little :
      (o : Obligation) (s : Settlement)
      → Concerns obligations settlements o s e
      → e.reason ≡ amount_short
      → e.status ≡ partially_matched
      → s.amount + tolerance < o.expected_amount
      → IsExplained obligations settlements tolerance e
  too_much :
      (o : Obligation) (s : Settlement)
      → Concerns obligations settlements o s e
      → e.reason ≡ amount_excess
      → e.status ≡ excess
      → o.expected_amount + tolerance < s.amount
      → IsExplained obligations settlements tolerance e
  several :
      (o : Obligation) (s : Settlement)
      → Concerns obligations settlements o s e
      → 2 ≤ length (filter (shares_key o) settlements)
      → e.reason ≡ duplicate_settlement
      → e.status ≡ duplicate
      → IsExplained obligations settlements tolerance e

module _ (obligations : List Obligation) (settlements : List Settlement) (tolerance : ℕ)
    (scan : Scan) (o : Obligation) (given : Mem o obligations) where
  short-IsExplained :
      (s : Settlement) (e : ExceptionRecord)
      → Candidate settlements scan.consumed o s
      → s.amount + tolerance < o.expected_amount
      → amount_exception o s partially_matched ≡ ok e
      → IsExplained obligations settlements tolerance e
  unfolding amount_exception
  short-IsExplained s e c lt h =
      too_little o s
        (record {
          obligation_given = given;
          settlement_given = c.0;
          keys_agree = c.1;
          order_id = ground arith;
          settlement_id = ground arith;
          expected = ground arith;
          actual = ground arith;
        })
        (ground arith) (ground arith) lt

  over-IsExplained :
      (s : Settlement) (e : ExceptionRecord)
      → Candidate settlements scan.consumed o s
      → o.expected_amount + tolerance < s.amount
      → amount_exception o s excess ≡ ok e
      → IsExplained obligations settlements tolerance e
  unfolding amount_exception
  over-IsExplained s e c lt h =
      too_much o s
        (record {
          obligation_given = given;
          settlement_given = c.0;
          keys_agree = c.1;
          order_id = ground arith;
          settlement_id = ground arith;
          expected = ground arith;
          actual = ground arith;
        })
        (ground arith) (ground arith) lt

  doubled-IsExplained :
      (s t : Settlement) (cs : List Settlement) (e : ExceptionRecord)
      → All (Candidate settlements scan.consumed o) (s ∷ t ∷ cs)
      → length (s ∷ t ∷ cs) ≤ length (filter (shares_key o) settlements)
      → duplicate_exception o (s ∷ t ∷ cs) ≡ ok e
      → IsExplained obligations settlements tolerance e
  unfolding duplicate_exception
  doubled-IsExplained s t cs e c n h =
      several o s
        (record {
          obligation_given = given;
          settlement_given = c.0.0;
          keys_agree = c.0.1;
          order_id = ground arith;
          settlement_id = ground arith;
          expected = ground arith;
          actual = ground arith;
        })
        (omega arith) (ground arith) (ground arith)

  round-IsExplained :
      (next : Scan) (cs : List Settlement)
      → All (Candidate settlements scan.consumed o) cs
      → length cs ≤ length (filter (shares_key o) settlements)
      → Settled tolerance scan o cs next
      → All (IsExplained obligations settlements tolerance) scan.exceptions
      → All (IsExplained obligations settlements tolerance) next.exceptions
  round-IsExplained next cs c n missing h = h
  round-IsExplained next cs c n (paired s _ _) h = h
  round-IsExplained next cs c n (short s e lt k) h =
      All-append _ scan.exceptions _ h (short-IsExplained s e c.0 lt k, tt)
  round-IsExplained next cs c n (over s e lt k) h =
      All-append _ scan.exceptions _ h (over-IsExplained s e c.0 lt k, tt)
  round-IsExplained next cs c n (doubled s t rest e k) h =
      All-append _ scan.exceptions _ h (doubled-IsExplained s t rest e c n k, tt)

-- `reconcile_keys` returns, and each of its exceptions is about an obligation and a settlement that
-- agree on a key and whose ids and amounts it carries; it says AMOUNT_SHORT or AMOUNT_EXCESS if the
-- settled amount is below or above the expected one by more than the tolerance, and
-- DUPLICATE_SETTLEMENT only if two or more rows of the file agree with the obligation on a key.
pub exceptions-IsExplained :
    (obligations : List Obligation) (settlements : List Settlement) (tolerance : ℕ)
    → (r : KeyMatchResult) × (reconcile_keys obligations settlements tolerance ≡ ok r)
      × All (IsExplained obligations settlements tolerance) r.exceptions
exceptions-IsExplained obligations settlements tolerance =
    let (scan, returned, (_, explained)) =
      reconcile_keys_ind obligations settlements tolerance
        (λ scan os.
          All (λ o. Mem o obligations) os
          × All (IsExplained obligations settlements tolerance) scan.exceptions)
        (λ scan next o os settled h. (
          h.0.1,
          round-IsExplained obligations settlements tolerance scan o h.0.0 next _
              (candidates_of-Candidate settlements scan.consumed o)
              (candidates_of-length settlements scan.consumed o) settled h.1,
        ))
        (All-mem obligations, tt) in
    (outcome settlements scan, returned, explained)
