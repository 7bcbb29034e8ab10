-- ===== src/Reconciliation/Matching/Conservation.antt =====
-- Key matching loses no obligation and invents none.
use mathlib.Core.List.{map-append, append_assoc, append-nil, perm_middle}
use mathlib.Core.List.Perm
use retail_reconciliation_ag.Prelude.{
  ℕ, List, [], ◌∷◌, ◌++◌, map, String, Option, some, ok, ◌≡◌, arith, Perm,
}
use retail_reconciliation_ag.Domain.Enums.{PaymentType, partially_matched, excess}
use retail_reconciliation_ag.Domain.Records.{Settlement, Obligation, MatchedPair, ExceptionRecord}
use retail_reconciliation_ag.Reconciliation.Matcher.{
  Scan, KeyMatchResult, reconcile_keys, amount_exception, duplicate_exception,
}
use retail_reconciliation_ag.Reconciliation.Matching.Steps.{
  Settled, missing, paired, short, over, doubled, reconcile_keys_ind, outcome,
}

-- What is due: an order id, a payment type and an amount.
abbrev pub Due : Type 0
Due = Option String × Option PaymentType × Option ℕ

abbrev pub due : Obligation → Due
due o = (some o.order_id, some o.payment_type, some o.expected_amount)

abbrev pub pair_due : MatchedPair → Due
pair_due p = due p.obligation

abbrev pub exception_due : ExceptionRecord → Due
exception_due e = (e.order_id, e.payment_type, e.expected_amount)

-- An element may be moved from the rest to the end of each of three lists before it.
module _ {ℓ} {A : Type ℓ} (x : A) where
  last-perm : (xs ys : List A) → Perm (x ∷ (xs ++ ys)) ((xs ++ x ∷ []) ++ ys)
  last-perm xs ys = Perm.symm (rw (append_assoc xs (x ∷ []) ys) (perm_middle xs ys))

  pub middle-perm : (a b c : List A) → Perm (a ++ (b ++ x ∷ c)) (x ∷ (a ++ (b ++ c)))
  middle-perm a b c = Perm.trans (Perm.append_left a (perm_middle b c)) (perm_middle a (b ++ c))

  first_list-perm :
      (a b c rest : List A)
      → Perm (a ++ (b ++ (c ++ x ∷ rest))) ((a ++ x ∷ []) ++ (b ++ (c ++ rest)))
  first_list-perm a b c rest =
      Perm.trans (Perm.append_left a (middle-perm b c rest))
        (Perm.trans (perm_middle a (b ++ (c ++ rest))) (last-perm a (b ++ (c ++ rest))))

  second_list-perm :
      (a b c rest : List A)
      → Perm (a ++ (b ++ (c ++ x ∷ rest))) (a ++ ((b ++ x ∷ []) ++ (c ++ rest)))
  second_list-perm a b c rest =
      Perm.append_left a (Perm.trans (middle-perm b c rest) (last-perm b (c ++ rest)))

  third_list-perm :
      (a b c rest : List A)
      → Perm (a ++ (b ++ (c ++ x ∷ rest))) (a ++ (b ++ ((c ++ x ∷ []) ++ rest)))
  third_list-perm a b c rest = rw (append_assoc c (x ∷ []) rest) (Perm.refl _)

amount_exception-due :
    (o : Obligation) (s : Settlement) (e : ExceptionRecord)
    → ((amount_exception o s partially_matched ≡ ok e) → exception_due e ≡ due o)
      × ((amount_exception o s excess ≡ ok e) → exception_due e ≡ due o)
unfolding amount_exception
amount_exception-due o s e = ((λ h. ground arith), (λ h. ground arith))

duplicate_exception-due :
    (o : Obligation) (s : Settlement) (ss : List Settlement) (e : ExceptionRecord)
    → duplicate_exception o (s ∷ ss) ≡ ok e
    → exception_due e ≡ due o
unfolding duplicate_exception
duplicate_exception-due o s ss e h = ground arith

-- What the variables of the loop and the obligations left stand for.
abbrev accounted : Scan → List Obligation → List Due
accounted scan os =
    map pair_due scan.matched
    ++ (map exception_due scan.exceptions ++ (map due scan.unmatched_obligations ++ map due os))

round-accounted :
    (tolerance : ℕ) (scan next : Scan) (o : Obligation) (os : List Obligation)
    (cs : List Settlement)
    → Settled tolerance scan o cs next
    → Perm (accounted scan (o ∷ os)) (accounted next os)
round-accounted tolerance scan next o os cs missing = rw map-append (
    third_list-perm (due o) (map pair_due scan.matched) (map exception_due scan.exceptions)
      (map due scan.unmatched_obligations) (map due os))
round-accounted tolerance scan next o os cs (paired s above below) = rw map-append (
    first_list-perm (due o) (map pair_due scan.matched) (map exception_due scan.exceptions)
      (map due scan.unmatched_obligations) (map due os))
round-accounted tolerance scan next o os cs (short s e _ h) =
    rw (map-append, (amount_exception-due o s e).0 h)
      (second_list-perm (due o) (map pair_due scan.matched) (map exception_due scan.exceptions)
        (map due scan.unmatched_obligations) (map due os))
round-accounted tolerance scan next o os cs (over s e _ h) =
    rw (map-append, (amount_exception-due o s e).1 h)
      (second_list-perm (due o) (map pair_due scan.matched) (map exception_due scan.exceptions)
        (map due scan.unmatched_obligations) (map due os))
round-accounted tolerance scan next o os cs (doubled s t rest e h) =
    rw (map-append, duplicate_exception-due o s (t ∷ rest) e h)
      (second_list-perm (due o) (map pair_due scan.matched) (map exception_due scan.exceptions)
        (map due scan.unmatched_obligations) (map due os))

-- `reconcile_keys` returns, and what is due in its pairs, its exceptions and its unmatched
-- obligations is, counted with multiplicity, exactly what is due in the obligations that it was given.
pub obligations_conserved :
    (obligations : List Obligation) (settlements : List Settlement) (tolerance : ℕ)
    → (r : KeyMatchResult) × (reconcile_keys obligations settlements tolerance ≡ ok r)
      × Perm
          (map pair_due r.matched
            ++ (map exception_due r.exceptions ++ map due r.unmatched_obligations))
          (map due obligations)
obligations_conserved obligations settlements tolerance =
    let (scan, returned, kept) =
      reconcile_keys_ind obligations settlements tolerance
        (λ scan os. Perm (accounted scan os) (map due obligations))
        (λ scan next o os settled h.
          Perm.trans (Perm.symm (round-accounted tolerance scan next o os _ settled)) h)
        (Perm.refl _) in
    (outcome settlements scan, returned, rw append-nil at kept)
