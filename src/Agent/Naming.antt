-- ===== src/Agent/Naming.antt =====
-- Short ids, from the rows of the files to the exceptions of key matching
-- (src/reconcile/reconciliation/, src/reconcile/agent/nodes.py).
use Prim.Native.String.{count}
use mathlib.Core.Path.{subst}
use retail_reconciliation_ag.Prelude.{
  ℕ, ◌+◌, ◌≤◌, String, List, [], ◌∷◌, map, ok, ◌≡◌, refl, sym, leb, abs, sub_ℕ, filter, All,
  All-imp, All-append, All-filter, Mem, ◌==◌, string_eq, Bool-cases, inl, inr,
}
use retail_reconciliation_ag.Prelude.Dict.{Dict, push}
use retail_reconciliation_ag.Domain.Records.{Order, Obligation, Settlement, ExceptionRecord}
use retail_reconciliation_ag.Reconciliation.Obligations.{
  ObligationBuildResult, group_from, sum_paid, sum_mismatch, numbered, is_placed, add_order,
  build_from, build_obligations, nothing_built,
}
use mathlib.Core.List.{eq-or-mem_of_mem-cons, not-mem-nil}
use mathlib.Core.Logic.Or
use native.Mathlib.Bridge.{le_prop}
use retail_reconciliation_ag.Reconciliation.Matcher.{KeyMatchResult, Scan, reconcile_keys}
use retail_reconciliation_ag.Reconciliation.Matching.Steps.{
  Settled, missing, paired, short, over, doubled, reconcile_keys_ind, outcome,
}
use retail_reconciliation_ag.Reconciliation.Matching.Reasons.{
  Concerns, IsExplained, too_little, too_much, several, exceptions-IsExplained,
}
use retail_reconciliation_ag.Agent.Llm.Subjects.{HasShortIds}

-- The ids of the rows have at most 160 characters.
abbrev pub HasShortOrderId : Order → Type 0
HasShortOrderId row = count row.order_id ≤ 160

abbrev pub IsShortObligation : Obligation → Type 0
IsShortObligation o = count o.order_id ≤ 160

abbrev pub HasShortId : Settlement → Type 0
HasShortId s = count s.settlement_id ≤ 160

pub All-map {ℓ} :
    {A B : Type ℓ} (P : B → Type 0) (f : A → B) (xs : List A)
    → All (λ x. P (f x)) xs
    → All P (map f xs)
All-map P f [] h = tt
All-map P f (x ∷ xs) h = (h.0, All-map P f xs h.1)

abbrev ShortGroup : String × List Order → Type 0
ShortGroup g = (count g.0 ≤ 160) × All HasShortOrderId g.1

push-short :
    (d : Dict String (List Order)) (row : Order)
    → All ShortGroup d
    → HasShortOrderId row
    → All ShortGroup (push d row.order_id row)
unfolding push
push-short [] row h k = ((k, (k, tt)), tt)
push-short ((j, rows) ∷ d) row h k = elim (Bool-cases (j == row.order_id)) [
  | inl same ↦ rw same ((h.0.0, All-append _ rows (row ∷ []) h.0.1 (k, tt)), h.1)
  | inr other ↦ rw other (h.0, push-short d row h.1 k)
]

group_from-short :
    (d : Dict String (List Order)) (rows : List Order)
    → All ShortGroup d
    → All HasShortOrderId rows
    → All ShortGroup (group_from d rows)
unfolding group_from
group_from-short d [] h k = h
group_from-short d (row ∷ rows) h k =
    group_from-short (push d row.order_id row) rows (push-short d row h k.0) k.1

numbered-short :
    (seq : ℕ) (rows : List Order)
    → All HasShortOrderId rows
    → All IsShortObligation (numbered seq rows)
unfolding numbered
numbered-short seq [] h = tt
numbered-short seq (row ∷ rows) h = (h.0, numbered-short (seq + 1) rows h.1)

-- What is built names orders by short ids.
abbrev pub ShortBuilt : ObligationBuildResult → Type 0
ShortBuilt built =
    All IsShortObligation built.obligations × All HasShortIds built.order_sum_exceptions

add_order-short :
    (tolerance : ℕ) (built : ObligationBuildResult) (k : String) (rows : List Order)
    → count k ≤ 160
    → All HasShortOrderId rows
    → ShortBuilt built
    → (next : ObligationBuildResult) × (add_order tolerance built k rows ≡ ok next)
      × ShortBuilt next
unfolding add_order
add_order-short tolerance built k [] n h b = (built, refl, b)
add_order-short tolerance built k (row ∷ rows) n h b =
    let obligations = All-append _ built.obligations _ b.0 (numbered-short 0 (row ∷ rows) h) in
    elim (Bool-cases (leb (abs (sub_ℕ (sum_paid (row ∷ rows)) row.amount)) tolerance)) [
      | inl close ↦ rw close (_, refl, (obligations, b.1))
      | inr far ↦ rw far (
        _,
        refl,
        (
          obligations,
          All-append _ built.order_sum_exceptions _ b.1 (unfold sum_mismatch in ((n, tt), tt)),
        ),
      )
    ]

build_from-short :
    (tolerance : ℕ) (built : ObligationBuildResult) (groups : Dict String (List Order))
    → All ShortGroup groups
    → ShortBuilt built
    → (r : ObligationBuildResult) × (build_from tolerance built groups ≡ ok r) × ShortBuilt r
unfolding build_from
build_from-short tolerance built [] h b = (built, refl, b)
build_from-short tolerance built ((k, rows) ∷ groups) h b =
    let (next, returned, named) =
      add_order-short tolerance built k (filter is_placed rows) h.0.0
        (All-imp _ _ (λ row f. f.0) _ (All-filter _ is_placed rows h.0.1)) b in
    rw returned (build_from-short tolerance next groups h.1 named)

pub build_obligations-short :
    (orders : List Order) (tolerance : ℕ)
    → All HasShortOrderId orders
    → (r : ObligationBuildResult) × (build_obligations orders tolerance ≡ ok r) × ShortBuilt r
unfolding build_obligations
build_obligations-short orders tolerance h =
    build_from-short tolerance nothing_built (group_from [] orders)
      (group_from-short [] orders tt h) (tt, tt)

All-lookup {ℓ} :
    {A : Type ℓ} (P : A → Type 0)
    → ((x : A) → IsProp (P x))
    → (xs : List A) (x : A) → All P xs
    → Mem x xs
    → P x
All-lookup P single [] x h m = absurd (not-mem-nil m)
All-lookup P single (y ∷ ys) x h m =
    Or.elim (single x) (eq-or-mem_of_mem-cons m) (λ e. subst P (sym e) h.0)
      (λ k. All-lookup P single ys x h.1 k)

-- The obligation of an explained exception is given, and so is its settlement.
explained-short :
    (obligations : List Obligation) (settlements : List Settlement) (tolerance : ℕ)
    (e : ExceptionRecord)
    → All IsShortObligation obligations
    → All HasShortId settlements
    → IsExplained obligations settlements tolerance e
    → HasShortIds e
explained-short obligations settlements tolerance e h k x = elim x [
  | too_little o s c _ _ _ ↦ named o s c
  | too_much o s c _ _ _ ↦ named o s c
  | several o s c _ _ _ ↦ named o s c
]
  where
    named :
        (o : Obligation) (s : Settlement) → Concerns obligations settlements o s e → HasShortIds e
    named o s c =
        rw (c.order_id, c.settlement_id)
          (
            All-lookup IsShortObligation (λ o. le_prop) obligations o h c.obligation_given,
            All-lookup HasShortId (λ s. le_prop) settlements s k c.settlement_given,
          )

-- The obligations that key matching leaves were given.
round-left :
    (tolerance : ℕ) (scan next : Scan) (o : Obligation) (os : List Obligation)
    (cs : List Settlement)
    → Settled tolerance scan o cs next
    → All IsShortObligation (o ∷ os) × All IsShortObligation scan.unmatched_obligations
    → All IsShortObligation os × All IsShortObligation next.unmatched_obligations
round-left tolerance scan next o os cs missing h =
    (h.0.1, All-append _ scan.unmatched_obligations (o ∷ []) h.1 (h.0.0, tt))
round-left tolerance scan next o os cs (paired s _ _) h = (h.0.1, h.1)
round-left tolerance scan next o os cs (short s e _ _) h = (h.0.1, h.1)
round-left tolerance scan next o os cs (over s e _ _) h = (h.0.1, h.1)
round-left tolerance scan next o os cs (doubled s t rest e _) h = (h.0.1, h.1)

pub reconcile_keys-short :
    (obligations : List Obligation) (settlements : List Settlement) (tolerance : ℕ)
    → All IsShortObligation obligations
    → All HasShortId settlements
    → (r : KeyMatchResult) × (reconcile_keys obligations settlements tolerance ≡ ok r)
      × All HasShortIds r.exceptions
      × All IsShortObligation r.unmatched_obligations
      × All HasShortId r.unmatched_settlements
reconcile_keys-short obligations settlements tolerance h k =
    let (scan, returned, (_, left)) =
      reconcile_keys_ind obligations settlements tolerance
        (λ scan os. All IsShortObligation os × All IsShortObligation scan.unmatched_obligations)
        (λ scan next o os settled held. round-left tolerance scan next o os _ settled held)
        (h, tt) in
    let (r, returned', explained) = exceptions-IsExplained obligations settlements tolerance in
    let same : r ≡ outcome settlements scan = cc (returned, returned') in
    (
      outcome settlements scan,
      returned,
      All-imp _ _ (λ e x. explained-short obligations settlements tolerance e h k x) scan.exceptions
          (subst (λ q. All (IsExplained obligations settlements tolerance) q.exceptions) same
            explained),
      left,
      All-imp _ _ (λ s f. f.0) _ (All-filter _ _ settlements k),
    )
