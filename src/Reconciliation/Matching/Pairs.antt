-- ===== src/Reconciliation/Matching/Pairs.antt =====
-- The pairs that key matching makes are right, and use no settlement twice.
use mathlib.Core.HLevel.{⊥_prop}
use mathlib.Core.List.{
  Nodup-cons, Nodup-nil, mem-append, eq-or-mem_of_mem-cons, not-mem-nil, map-append,
}
use mathlib.Core.Logic.Or
use retail_reconciliation_ag.Prelude.{
  contains-append, ℕ, List, [], ◌∷◌, ◌++◌, map, String, true, not, ok, ◌≡◌, ◌≢◌, arith, All,
  All-imp, All-append, All-filter, contains, Mem, All-mem, string_eq, ◌≤◌, ◌+◌, Nodup,
}
use retail_reconciliation_ag.Domain.Records.{Settlement, Obligation, MatchedPair}
use retail_reconciliation_ag.Reconciliation.Matcher.{Scan, KeyMatchResult, reconcile_keys}
use retail_reconciliation_ag.Reconciliation.Matching.Candidates.{
  shares_key, Candidate, candidates_of-Candidate,
}
use retail_reconciliation_ag.Reconciliation.Matching.Steps.{
  Settled, missing, paired, short, over, doubled, reconcile_keys_ind, outcome,
}

-- The pair joins an obligation and a settlement of the inputs that agree on a key, and whose amounts
-- differ by at most the tolerance.
pub record IsSound (obligations : List Obligation) (settlements : List Settlement) (tolerance : ℕ)
    (p : MatchedPair) : Type 0 where
  pub from_obligations : Mem p.obligation obligations
  pub from_settlements : Mem p.settlement settlements
  pub keys_agree : shares_key p.obligation p.settlement ≡ true
  pub not_above : p.settlement.amount ≤ p.obligation.expected_amount + tolerance
  pub not_below : p.obligation.expected_amount ≤ p.settlement.amount + tolerance

module _ (obligations : List Obligation) (settlements : List Settlement) (tolerance : ℕ) where
  round-IsSound :
      (scan next : Scan) (o : Obligation) (cs : List Settlement)
      → Mem o obligations
      → All (Candidate settlements scan.consumed o) cs
      → Settled tolerance scan o cs next
      → All (IsSound obligations settlements tolerance) scan.matched
      → All (IsSound obligations settlements tolerance) next.matched
  round-IsSound scan next o cs m c (paired s above below) h = All-append _ scan.matched _ h (
    record {
      from_obligations = m;
      from_settlements = c.0.0;
      keys_agree = c.0.1;
      not_above = above;
      not_below = below;
    },
    tt,
  )
  round-IsSound scan next o cs m c missing h = h
  round-IsSound scan next o cs m c (short s e _ _) h = h
  round-IsSound scan next o cs m c (over s e _ _) h = h
  round-IsSound scan next o cs m c (doubled s t rest e _) h = h

  -- `reconcile_keys` returns, and each of its pairs joins an obligation and a settlement of the
  -- inputs that agree on a key and whose amounts differ by at most the tolerance.
  pub matched-IsSound :
      (r : KeyMatchResult) × (reconcile_keys obligations settlements tolerance ≡ ok r)
      × All (IsSound obligations settlements tolerance) r.matched
  matched-IsSound =
      let (scan, returned, (_, sound)) =
        reconcile_keys_ind obligations settlements tolerance
          (λ scan os.
            All (λ o. Mem o obligations) os
            × All (IsSound obligations settlements tolerance) scan.matched)
          (λ scan next o os settled h. (
            h.0.1,
            round-IsSound scan next o _ h.0.0 (candidates_of-Candidate settlements scan.consumed o)
                settled h.1,
          ))
          (All-mem obligations, tt) in
      (outcome settlements scan, returned, sound)

abbrev pub id_of : MatchedPair → String
id_of p = p.settlement.settlement_id

Nodup-snoc {ℓ} :
    {A : Type ℓ} (xs : List A) (a : A) → Nodup xs → All (λ x. x ≢ a) xs → Nodup (xs ++ a ∷ [])
Nodup-snoc [] a d h = Nodup-cons.1 (not-mem-nil, Nodup-nil)
Nodup-snoc (x ∷ xs) a d h = Nodup-cons.1 (
  λ m.
      Or.elim ⊥_prop (mem-append.0 m) (Nodup-cons.0 d).0
        (λ n. Or.elim ⊥_prop (eq-or-mem_of_mem-cons n) h.0 not-mem-nil),
  Nodup-snoc xs a (Nodup-cons.0 d).1 h.1,
)

-- The pairs have distinct settlements, all of them consumed.
record IsOnce (scan : Scan) : Type 0 where
  consumed : All (λ p. contains scan.consumed (id_of p) ≡ true) scan.matched
  distinct : Nodup (map id_of scan.matched)

All-map {ℓ} :
    {A B : Type ℓ} (P : B → Type 0) (f : A → B) (xs : List A)
    → All (λ x. P (f x)) xs
    → All P (map f xs)
All-map P f [] h = tt
All-map P f (x ∷ xs) h = (h.0, All-map P f xs h.1)

module _ (settlements : List Settlement) (tolerance : ℕ) where
  round-IsOnce :
      (scan next : Scan) (o : Obligation) (cs : List Settlement)
      → All (Candidate settlements scan.consumed o) cs
      → Settled tolerance scan o cs next
      → IsOnce scan
      → IsOnce next
  round-IsOnce scan next o cs c (paired s above below) h = record {
    consumed =
        All-append _ scan.matched _ (All-imp _ _ (λ p k. ground arith) _ h.consumed)
          (ground arith, tt);
    distinct = rw map-append (
        Nodup-snoc _ _ h.distinct (
          All-map (λ i. i ≢ s.settlement_id) id_of _
            (All-imp _ _ (λ p k e. ground (arith, c.0.2)) _ h.consumed)));
  }
  round-IsOnce scan next o cs c missing h = record { consumed = h.consumed; distinct = h.distinct }
  round-IsOnce scan next o cs c (short s e _ _) h = record {
    consumed = All-imp _ _ (λ p k. ground arith) _ h.consumed;
    distinct = h.distinct;
  }
  round-IsOnce scan next o cs c (over s e _ _) h = record {
    consumed = All-imp _ _ (λ p k. ground arith) _ h.consumed;
    distinct = h.distinct;
  }
  round-IsOnce scan next o cs c (doubled s t rest e _) h = record {
    consumed =
        All-imp _ _ (λ p k. contains-append (map (λ c. c.settlement_id) (s ∷ t ∷ rest)) _ _ k) _
          h.consumed;
    distinct = h.distinct;
  }

-- `reconcile_keys` returns; the settlements of its pairs have distinct ids, and none of them has the
-- id of a settlement that is left unmatched.
pub settlements_used_once :
    (obligations : List Obligation) (settlements : List Settlement) (tolerance : ℕ)
    → (r : KeyMatchResult) × (reconcile_keys obligations settlements tolerance ≡ ok r)
      × Nodup (map id_of r.matched)
      × All (λ s. All (λ p. id_of p ≢ s.settlement_id) r.matched) r.unmatched_settlements
settlements_used_once obligations settlements tolerance =
    let (scan, returned, once) =
      reconcile_keys_ind obligations settlements tolerance (λ scan os. IsOnce scan)
        (λ scan next o os settled h.
          round-IsOnce settlements tolerance scan next o _
            (candidates_of-Candidate settlements scan.consumed o) settled h)
        (record { consumed = tt; distinct = Nodup-nil }) in
    (
      outcome settlements scan,
      returned,
      once.distinct,
      All-imp _ _ (λ s g. All-imp _ _ (λ p k e. ground (arith, g.1)) scan.matched once.consumed) _
          (All-filter _ (λ s. not (contains scan.consumed s.settlement_id)) settlements
            (All-mem settlements)),
    )
