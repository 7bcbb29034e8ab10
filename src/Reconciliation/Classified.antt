-- ===== src/Reconciliation/Classified.antt =====
-- What the classification of leftovers and the whole of `reconcile` guarantee
-- (src/reconcile/reconciliation/matcher.py, src/reconcile/reconciliation/sla.py).
use mathlib.Core.Path.{subst}
use mathlib.Core.List.{map-append, append-nil}
use retail_reconciliation_ag.Prelude.{
  ℕ, List, [], ◌∷◌, ◌++◌, map, Bool, true, false, not, Option, some, none, ℤ, pos, negsuc, pos_part,
  neg_part, ◌+◌, ◌≤◌, ◌≢◌, ◌≤ℤ◌, ok, ◌≡◌, ◌↔◌, refl, ap, arith, All, Perm, filter, filter-append,
  ◌==◌, All-imp,
}
use retail_reconciliation_ag.Prelude.Dict.{Dict, get}
use retail_reconciliation_ag.Domain.Enums.{
  PaymentType, within_sla, cash_missing, late_settlement, unmatched_settlement, exception_reason_eq,
  payment_type_eq,
}
use retail_reconciliation_ag.Domain.Records.{Settlement, Obligation, ExceptionRecord}
use retail_reconciliation_ag.Reconciliation.Matcher.{KeyMatchResult}
use retail_reconciliation_ag.Reconciliation.Sla.{within_grace, compute_age_days}
use retail_reconciliation_ag.Reconciliation.Leftovers.{
  missing_obligation_exception, unmatched_settlement_exception, classify_leftovers, reconcile,
  ReconciliationResult,
}
use retail_reconciliation_ag.Reconciliation.Matching.Conservation.{
  due, pair_due, exception_due, obligations_conserved,
}
use retail_reconciliation_ag.Reconciliation.Matching.Reasons.{
  IsExplained, too_little, too_much, several, exceptions-IsExplained,
}

within_grace-eq-within_sla :
    (g : Option ℤ) (age : ℤ)
    → within_grace g age ≡ within_sla
    → (grace : ℤ) × (g ≡ some grace) × (age ≤ℤ grace)
unfolding within_grace
within_grace-eq-within_sla none age h = cc
within_grace-eq-within_sla (some grace) age h = (grace, refl, ground arith)

within_grace-some :
    (g : Option ℤ) (age grace : ℤ) → g ≡ some grace → age ≤ℤ grace → within_grace g age ≡ within_sla
unfolding within_grace
within_grace-some g age grace e h = rw e (ground arith)

module _ (grace_days : Dict PaymentType ℤ) (as_of_date : ℕ) (o : Obligation) where
  age-le_iff :
      (grace : ℤ)
      → (compute_age_days o.order_date as_of_date ≤ℤ grace)
        ↔ (as_of_date + neg_part grace ≤ o.order_date + pos_part grace)
  unfolding compute_age_days
  age-le_iff (pos n) = (ground arith, ground arith)
  age-le_iff (negsuc n) = (ground arith, ground arith)

  late_iff : ((missing_obligation_exception grace_days as_of_date o).reason ≡ late_settlement) ↔ (
      (o.payment_type ≢ PaymentType.cash)
      × (grace : ℤ) × (get grace_days o.payment_type ≡ some grace)
      × (as_of_date + neg_part grace ≤ o.order_date + pos_part grace))
  unfolding missing_obligation_exception
  late_iff = (
    λ h.
        let (grace, known, within) =
          within_grace-eq-within_sla (get grace_days o.payment_type)
            (compute_age_days o.order_date as_of_date) (ground arith) in
        (ground arith, grace, known, (age-le_iff grace).0 within),
    λ (online, grace, known, within). ground (
      arith,
      within_grace-some (get grace_days o.payment_type) (compute_age_days o.order_date as_of_date)
          grace known ((age-le_iff grace).1 within),
    ),
  )

  cash_iff :
      ((missing_obligation_exception grace_days as_of_date o).reason ≡ cash_missing)
      ↔ (o.payment_type ≡ PaymentType.cash)
  unfolding missing_obligation_exception
  cash_iff = (ground arith, ground arith)

  -- The reason of a missing payment: it is late, and not yet missing, exactly if its type is not cash
  -- and has days of grace, and the date of the run is at most that many days, which may be negative,
  -- after the date of the order; it is a missing deposit exactly if it is a payment in cash.
  pub missing_reason_lem :
      (((missing_obligation_exception grace_days as_of_date o).reason ≡ late_settlement) ↔ (
        (o.payment_type ≢ PaymentType.cash)
        × (grace : ℤ) × (get grace_days o.payment_type ≡ some grace)
        × (as_of_date + neg_part grace ≤ o.order_date + pos_part grace)))
      × (((missing_obligation_exception grace_days as_of_date o).reason ≡ cash_missing)
          ↔ (o.payment_type ≡ PaymentType.cash))
  missing_reason_lem = (late_iff, cash_iff)

-- The exception is about an obligation.
abbrev pub is_about_obligation : ExceptionRecord → Bool
is_about_obligation e = not (e.reason == unmatched_settlement)

abbrev pub is_about_settlement : ExceptionRecord → Bool
is_about_settlement e = e.reason == unmatched_settlement

filter-map-all {ℓ} :
    {A B : Type ℓ} (p : B → Bool) (f : A → B)
    → ((x : A) → p (f x) ≡ true)
    → (xs : List A) → filter p (map f xs) ≡ map f xs
filter-map-all p f h [] = refl
filter-map-all p f h (x ∷ xs) = ground (arith, h x, filter-map-all p f h xs)

filter-map-none {ℓ} :
    {A B : Type ℓ} (p : B → Bool) (f : A → B)
    → ((x : A) → p (f x) ≡ false)
    → (xs : List A) → filter p (map f xs) ≡ []
filter-map-none p f h [] = refl
filter-map-none p f h (x ∷ xs) = ground (arith, h x, filter-map-none p f h xs)

filter_of_All {ℓ} :
    {A : Type ℓ} (p : A → Bool) (xs : List A) → All (λ x. p x ≡ true) xs → filter p xs ≡ xs
filter_of_All p [] h = refl
filter_of_All p (x ∷ xs) h = ground (arith, filter_of_All p xs h.1)

not_of_All {ℓ} :
    {A : Type ℓ} (p : A → Bool) (xs : List A) → All (λ x. not (p x) ≡ true) xs → filter p xs ≡ []
not_of_All p [] h = refl
not_of_All p (x ∷ xs) h = ground (arith, not_of_All p xs h.1)

module _ (grace_days : Dict PaymentType ℤ) (as_of_date : ℕ) where
  missing-reason :
      (o : Obligation)
      → is_about_obligation (missing_obligation_exception grace_days as_of_date o) ≡ true
  unfolding missing_obligation_exception
  missing-reason o = ground arith

  stray-reason :
      (s : Settlement) → is_about_settlement (unmatched_settlement_exception as_of_date s) ≡ true
  unfolding unmatched_settlement_exception
  stray-reason s = refl

  missing-due :
      (os : List Obligation)
      → map exception_due (map (missing_obligation_exception grace_days as_of_date) os) ≡ map due os
  unfolding missing_obligation_exception
  missing-due [] = refl
  missing-due (o ∷ os) = ap (◌∷◌ (due o)) (missing-due os)

  stray-ids :
      (ss : List Settlement)
      → map (λ e. e.settlement_id) (map (unmatched_settlement_exception as_of_date) ss)
        ≡ map (λ s. some s.settlement_id) ss
  unfolding unmatched_settlement_exception
  stray-ids [] = refl
  stray-ids (s ∷ ss) = ap (◌∷◌ (some s.settlement_id)) (stray-ids ss)

explained-reason :
    (obligations : List Obligation) (settlements : List Settlement) (tolerance : ℕ)
    (e : ExceptionRecord)
    → IsExplained obligations settlements tolerance e
    → is_about_obligation e ≡ true
explained-reason obligations settlements tolerance e (too_little o s c r _ _) = rw r
explained-reason obligations settlements tolerance e (too_much o s c r _ _) = rw r
explained-reason obligations settlements tolerance e (several o s c _ r _) = rw r

module _ (r : KeyMatchResult) (grace_days : Dict PaymentType ℤ) (as_of_date : ℕ)
    (explained : All (λ e. is_about_obligation e ≡ true) r.exceptions) where
  abbrev all_exceptions : List ExceptionRecord
  all_exceptions =
      r.exceptions
      ++ classify_leftovers r.unmatched_obligations r.unmatched_settlements grace_days as_of_date

  about_obligations :
      filter is_about_obligation all_exceptions
      ≡ r.exceptions
        ++ map (missing_obligation_exception grace_days as_of_date) r.unmatched_obligations
  unfolding classify_leftovers
  about_obligations = rw (
    filter-append is_about_obligation r.exceptions,
    filter-append is_about_obligation
        (map (missing_obligation_exception grace_days as_of_date) r.unmatched_obligations),
    filter_of_All is_about_obligation r.exceptions explained,
    filter-map-all is_about_obligation (missing_obligation_exception grace_days as_of_date)
        (missing-reason grace_days as_of_date),
    filter-map-none is_about_obligation (unmatched_settlement_exception as_of_date)
        (λ s. ap not (stray-reason grace_days as_of_date s)),
    append-nil,
  )

  about_settlements :
      filter is_about_settlement all_exceptions
      ≡ map (unmatched_settlement_exception as_of_date) r.unmatched_settlements
  unfolding classify_leftovers
  about_settlements = rw (
    filter-append is_about_settlement r.exceptions,
    filter-append is_about_settlement
        (map (missing_obligation_exception grace_days as_of_date) r.unmatched_obligations),
    not_of_All is_about_settlement r.exceptions explained,
    filter-map-none is_about_settlement (missing_obligation_exception grace_days as_of_date)
        (λ o. ground (arith, missing-reason grace_days as_of_date o)),
    filter-map-all is_about_settlement (unmatched_settlement_exception as_of_date)
        (stray-reason grace_days as_of_date),
  )

-- `reconcile` returns. What is due in its pairs and in those of its exceptions that are about an
-- obligation is, counted with multiplicity, exactly what is due in the obligations; and its
-- UNMATCHED_SETTLEMENT exceptions name the settlements that it leaves unmatched, each once, in order.
pub reconcile_accounts :
    (obligations : List Obligation) (settlements : List Settlement) (tolerance : ℕ)
    (grace_days : Dict PaymentType ℤ) (as_of_date : ℕ)
    → (r : ReconciliationResult) × (reconcile obligations settlements tolerance grace_days
          as_of_date
        ≡ ok r)
      × Perm
          (map pair_due r.matched ++ map exception_due (filter is_about_obligation r.exceptions))
          (map due obligations)
      × (map (λ e. e.settlement_id) (filter is_about_settlement r.exceptions)
          ≡ map (λ s. some s.settlement_id) r.unmatched_settlements)
unfolding reconcile
reconcile_accounts obligations settlements tolerance grace_days as_of_date =
    let (r, returned, conserved) = obligations_conserved obligations settlements tolerance in
    let (q, returned', explained) = exceptions-IsExplained obligations settlements tolerance in
    let same : q ≡ r = cc (returned, returned') in
    let about : All (λ e. is_about_obligation e ≡ true) r.exceptions =
      All-imp _ _ (explained-reason obligations settlements tolerance) r.exceptions (
        subst (λ k. All (IsExplained obligations settlements tolerance) k.exceptions) same
          explained) in
    (
      record {
        matched = r.matched;
        exceptions = all_exceptions r grace_days as_of_date about;
        unmatched_obligations = r.unmatched_obligations;
        unmatched_settlements = r.unmatched_settlements;
      },
      rw returned,
      rw (about_obligations r grace_days as_of_date about, map-append, missing-due) conserved,
      rw (about_settlements r grace_days as_of_date about)
          (stray-ids grace_days as_of_date r.unmatched_settlements),
    )
