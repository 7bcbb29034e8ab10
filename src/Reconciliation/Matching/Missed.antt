-- ===== src/Reconciliation/Matching/Missed.antt =====
-- Key matching leaves no pair over that it could have considered.
use retail_reconciliation_ag.Prelude.{
  contains-append, ℕ, List, [], ◌∷◌, ◌++◌, map, String, true, false, not, ok, ◌≡◌, refl, arith, All,
  All-imp, All-append, All-filter, contains, string_eq, contains-append,
}
use retail_reconciliation_ag.Domain.Records.{Settlement, Obligation}
use retail_reconciliation_ag.Reconciliation.Matcher.{Scan, KeyMatchResult, reconcile_keys}
use retail_reconciliation_ag.Reconciliation.Matching.Candidates.{shares_key, candidates_of-nil}
use retail_reconciliation_ag.Reconciliation.Matching.Steps.{
  Settled, missing, paired, short, over, doubled, reconcile_keys_ind, outcome,
}

-- Every settlement of the file that agrees with the obligation on a key is consumed.
abbrev Exhausted : List Settlement → List String → Obligation → Type 0
Exhausted settlements consumed o =
    All (λ s. shares_key o s ≡ true → contains consumed s.settlement_id ≡ true) settlements

module _ (settlements : List Settlement) where
  Exhausted-append :
      (xs ys : List String) (os : List Obligation)
      → All (Exhausted settlements ys) os
      → All (Exhausted settlements (xs ++ ys)) os
  Exhausted-append xs ys =
      All-imp _ _ (λ o. All-imp _ _ (λ s f e. contains-append xs ys _ (f e)) settlements)

  round-Exhausted :
      (tolerance : ℕ) (scan next : Scan) (o : Obligation) (cs : List Settlement)
      → (cs ≡ [] → Exhausted settlements scan.consumed o)
      → Settled tolerance scan o cs next
      → All (Exhausted settlements scan.consumed) scan.unmatched_obligations
      → All (Exhausted settlements next.consumed) next.unmatched_obligations
  round-Exhausted tolerance scan next o cs none_left missing h =
      All-append _ scan.unmatched_obligations (o ∷ []) h (none_left refl, tt)
  round-Exhausted tolerance scan next o cs none_left (paired s _ _) h =
      Exhausted-append (s.settlement_id ∷ []) scan.consumed _ h
  round-Exhausted tolerance scan next o cs none_left (short s e _ _) h =
      Exhausted-append (s.settlement_id ∷ []) scan.consumed _ h
  round-Exhausted tolerance scan next o cs none_left (over s e _ _) h =
      Exhausted-append (s.settlement_id ∷ []) scan.consumed _ h
  round-Exhausted tolerance scan next o cs none_left (doubled s t rest e _) h =
      Exhausted-append (map (λ c. c.settlement_id) (s ∷ t ∷ rest)) scan.consumed _ h

-- `reconcile_keys` returns, and no obligation that it leaves unmatched agrees with a settlement that
-- it leaves unmatched: neither on a non-empty transaction id, nor on order id and payment type.
pub no_missed_match :
    (obligations : List Obligation) (settlements : List Settlement) (tolerance : ℕ)
    → (r : KeyMatchResult) × (reconcile_keys obligations settlements tolerance ≡ ok r)
      × All (λ o. All (λ s. shares_key o s ≡ false) r.unmatched_settlements) r.unmatched_obligations
no_missed_match obligations settlements tolerance =
    let (scan, returned, exhausted) =
      reconcile_keys_ind obligations settlements tolerance
        (λ scan os. All (Exhausted settlements scan.consumed) scan.unmatched_obligations)
        (λ scan next o os settled h.
          round-Exhausted settlements tolerance scan next o _
            (candidates_of-nil settlements scan.consumed o) settled h)
        tt in
    (
      outcome settlements scan,
      returned,
      All-imp _ _
          (λ o h.
            All-imp _ _ (λ s g. ground (arith, g.0)) _
              (All-filter _ (λ s. not (contains scan.consumed s.settlement_id)) settlements h))
          scan.unmatched_obligations exhausted,
    )
