-- ===== src/Reconciliation/Matching/Steps.antt =====
-- One round of the second loop of `reconcile_keys`, and a rule for the whole loop.
use retail_reconciliation_ag.Prelude.{
  filter, not, contains, string_eq, ℕ, List, [], ◌∷◌, ◌++◌, map, ok, ◌≡◌, refl, arith, ◌⊎◌, inl,
  inr, ◌≤◌, ◌<◌, ◌+◌,
}
use retail_reconciliation_ag.Domain.Enums.{obligation_status_eq, matched, partially_matched, excess}
use retail_reconciliation_ag.Domain.Records.{Settlement, Obligation, ExceptionRecord}
use retail_reconciliation_ag.Reconciliation.Matcher.{
  Index, Scan, amount_status, amount_exception, duplicate_exception, settle, match_from,
  candidates_of, KeyMatchResult, reconcile_keys, index_from, empty_index, empty_scan,
}

-- The three statuses, each with the comparison of the amounts that it stands for.
pub amount_status_cases :
    (expected actual tolerance : ℕ)
    → ((amount_status expected actual tolerance ≡ matched)
        × (actual ≤ expected + tolerance)
        × (expected ≤ actual + tolerance))
      ⊎ ((amount_status expected actual tolerance ≡ partially_matched)
          × (actual + tolerance < expected))
      ⊎ ((amount_status expected actual tolerance ≡ excess) × (expected + tolerance < actual))
unfolding amount_status
amount_status_cases expected actual tolerance = ground arith

-- What a round does to the variables of the loop, one constructor for each way through its body.
pub data Settled (tolerance : ℕ) (scan : Scan) (o : Obligation)
    : List Settlement → Scan → Type 0 where
  missing :
      Settled tolerance scan o []
        (record scan { unmatched_obligations = scan.unmatched_obligations ++ o ∷ [] })
  paired :
      (s : Settlement)
      → s.amount ≤ o.expected_amount + tolerance
      → o.expected_amount ≤ s.amount + tolerance
      → Settled tolerance scan o (s ∷ []) (record scan {
        consumed = s.settlement_id ∷ scan.consumed;
        matched = scan.matched ++ record { obligation = o; settlement = s } ∷ [];
      })
  short :
      (s : Settlement) (e : ExceptionRecord)
      → s.amount + tolerance < o.expected_amount
      → amount_exception o s partially_matched ≡ ok e
      → Settled tolerance scan o (s ∷ []) (record scan {
        consumed = s.settlement_id ∷ scan.consumed;
        exceptions = scan.exceptions ++ e ∷ [];
      })
  over :
      (s : Settlement) (e : ExceptionRecord)
      → o.expected_amount + tolerance < s.amount
      → amount_exception o s excess ≡ ok e
      → Settled tolerance scan o (s ∷ []) (record scan {
        consumed = s.settlement_id ∷ scan.consumed;
        exceptions = scan.exceptions ++ e ∷ [];
      })
  doubled :
      (s t : Settlement) (cs : List Settlement) (e : ExceptionRecord)
      → duplicate_exception o (s ∷ t ∷ cs) ≡ ok e
      → Settled tolerance scan o (s ∷ t ∷ cs) (record scan {
        consumed = map (λ c. c.settlement_id) (s ∷ t ∷ cs) ++ scan.consumed;
        exceptions = scan.exceptions ++ e ∷ [];
      })

-- Every round returns, and in one of these ways.
pub settle-Settled :
    (tolerance : ℕ) (scan : Scan) (o : Obligation) (cs : List Settlement)
    → (next : Scan) × (settle tolerance scan o cs ≡ ok next) × Settled tolerance scan o cs next
unfolding settle
settle-Settled tolerance scan o [] = (_, refl, missing)
settle-Settled tolerance scan o (s ∷ []) =
    elim (amount_status_cases o.expected_amount s.amount tolerance) [
      | inl (e, h, k) ↦ (_, rw e, paired s h k)
      | inr (inl (e, h)) ↦ (_, rw e, short s _ h refl)
      | inr (inr (e, h)) ↦ (_, rw e, over s _ h refl)
    ]
settle-Settled tolerance scan o (s ∷ t ∷ cs) = (_, refl, doubled s t cs _ refl)

module _ (index : Index) (tolerance : ℕ) where
  -- What holds before the loop and is kept by each round holds after it, and the loop returns.
  pub match_from_ind :
      (P : Scan → List Obligation → Type 0)
      → ((scan next : Scan) (o : Obligation) (os : List Obligation)
          → Settled tolerance scan o (candidates_of index scan.consumed o) next
          → P scan (o ∷ os)
          → P next os)
      → (scan : Scan) (os : List Obligation) → P scan os
      → (last : Scan) × (match_from index tolerance scan os ≡ ok last) × P last []
  unfolding match_from
  match_from_ind P step scan [] h = (scan, refl, h)
  match_from_ind P step scan (o ∷ os) h =
      let (next, returned, settled) =
        settle-Settled tolerance scan o (candidates_of index scan.consumed o) in
      rw returned (match_from_ind P step next os (step scan next o os settled h))

-- What `reconcile_keys` returns when the second loop has ended.
abbrev pub outcome : List Settlement → Scan → KeyMatchResult
outcome settlements scan = record {
  matched = scan.matched;
  exceptions = scan.exceptions;
  unmatched_obligations = scan.unmatched_obligations;
  unmatched_settlements = filter (λ s. not (contains scan.consumed s.settlement_id)) settlements;
}

-- `reconcile_keys` returns, and an invariant of its loop holds of what it returns.
pub reconcile_keys_ind :
    (obligations : List Obligation) (settlements : List Settlement) (tolerance : ℕ)
    (P : Scan → List Obligation → Type 0)
    → ((scan next : Scan) (o : Obligation) (os : List Obligation)
        → Settled tolerance scan o
            (candidates_of (index_from empty_index settlements) scan.consumed o)
            next
        → P scan (o ∷ os)
        → P next os)
    → P empty_scan obligations
    → (scan : Scan) × (reconcile_keys obligations settlements tolerance
        ≡ ok (outcome settlements scan))
      × P scan []
unfolding reconcile_keys
reconcile_keys_ind obligations settlements tolerance P step start =
    let (scan, returned, last) =
      match_from_ind (index_from empty_index settlements) tolerance P step empty_scan obligations
        start in
    (scan, rw returned, last)
