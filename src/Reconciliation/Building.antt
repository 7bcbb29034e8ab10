-- ===== src/Reconciliation/Building.antt =====
-- What `build_obligations` guarantees (src/reconcile/reconciliation/obligations.py).
use mathlib.Core.List.{map-append, append_assoc, append-nil, perm_append_comm}
use mathlib.Core.List.Perm
use retail_reconciliation_ag.Prelude.{
  ℕ, ◌+◌, String, List, [], ◌∷◌, ◌++◌, map, Option, none, some, Bool, true, false, not, leb, abs,
  sub_ℕ, contains, filter, filter-append, ok, ◌≡◌, refl, sym, ap, ◌∙◌, arith, Perm, ◌==◌, ◌&&◌,
  ◌||◌, contains-append-or, string_eq, option_eq, if◌then◌else◌, Bool-cases, inl, inr,
}
use retail_reconciliation_ag.Prelude.Dict.{
  Dict, get, get_or, push, get_or-push, HasDistinctKeys, push-HasDistinctKeys,
}
use retail_reconciliation_ag.Domain.Enums.{PaymentType, order_status_eq}
use retail_reconciliation_ag.Domain.Records.{Order, Obligation}
use retail_reconciliation_ag.Reconciliation.Obligations.{
  ObligationBuildResult, group_from, sum_paid, sum_mismatch, numbered, is_placed, add_order,
  build_from, build_obligations, nothing_built,
}

-- The group of an order id is the rows with that id, in file order.
pub group_from-filter :
    (k : String) (grouped : Dict String (List Order)) (orders : List Order)
    → get_or (group_from grouped orders) k []
      ≡ get_or grouped k [] ++ filter (λ o. o.order_id == k) orders
unfolding group_from
group_from-filter k grouped [] = sym (append-nil _)
group_from-filter k grouped (o ∷ orders) =
    group_from-filter k (push grouped o.order_id o) orders
    ∙ ground (
      arith,
      get_or-push grouped o.order_id k o,
      append_assoc (get_or grouped k []) (o ∷ []) (filter (λ o. o.order_id == k) orders),
    )

group_of :
    (k : String) (orders : List Order)
    → get_or (group_from [] orders) k [] ≡ filter (λ o. o.order_id == k) orders
unfolding get
group_of k orders = group_from-filter k [] orders

group_from-HasDistinctKeys :
    (grouped : Dict String (List Order)) (orders : List Order)
    → HasDistinctKeys grouped
    → HasDistinctKeys (group_from grouped orders)
unfolding group_from
group_from-HasDistinctKeys grouped [] h = h
group_from-HasDistinctKeys grouped (o ∷ orders) h =
    group_from-HasDistinctKeys (push grouped o.order_id o) orders
      (push-HasDistinctKeys grouped o.order_id o h)

-- The rows of an order do not sum to its total, by more than the tolerance.
abbrev pub is_mismatched : ℕ → List Order → Bool
is_mismatched tolerance [] = false
is_mismatched tolerance (row ∷ rows) =
    not (leb (abs (sub_ℕ (sum_paid (row ∷ rows)) row.amount)) tolerance)

abbrev exception_ids : ObligationBuildResult → List (Option String)
exception_ids built = map (λ e. e.order_id) built.order_sum_exceptions

-- One order: its exception if it is mismatched, and its obligations.
abbrev Adds : ℕ → ObligationBuildResult → String → List Order → ObligationBuildResult → Type 0
Adds tolerance built k rows next =
    (next.obligations ≡ built.obligations ++ numbered 0 rows)
    × (exception_ids next
        ≡ exception_ids built ++ (if is_mismatched tolerance rows then some k ∷ [] else []))

add_order-Adds :
    (tolerance : ℕ) (built : ObligationBuildResult) (k : String) (rows : List Order)
    → (next : ObligationBuildResult) × (add_order tolerance built k rows ≡ ok next)
      × Adds tolerance built k rows next
unfolding add_order
add_order-Adds tolerance built k [] = (built, refl, (sym (append-nil _), sym (append-nil _)))
add_order-Adds tolerance built k (row ∷ rows) =
    elim (Bool-cases (leb (abs (sub_ℕ (sum_paid (row ∷ rows)) row.amount)) tolerance)) [
      | inl close ↦ (
        record {
          obligations = built.obligations ++ numbered 0 (row ∷ rows);
          order_sum_exceptions = built.order_sum_exceptions;
        },
        rw close,
        (refl, rw close (sym (append-nil _))),
      )
      | inr far ↦ (
        record {
          obligations = built.obligations ++ numbered 0 (row ∷ rows);
          order_sum_exceptions =
              built.order_sum_exceptions
              ++ sum_mismatch k row (row ∷ rows) row.amount (sum_paid (row ∷ rows)) ∷ [];
        },
        rw far,
        (refl, rw far (map-append _ built.order_sum_exceptions _)),
      )
    ]

-- What an obligation takes from its row: order id, payment type, amount and transaction id.
abbrev pub Facts : Type 0
Facts = String × PaymentType × ℕ × Option String

abbrev pub obligation_facts : Obligation → Facts
obligation_facts o = (o.order_id, o.payment_type, o.expected_amount, o.gateway_txn_id)

abbrev pub order_facts : Order → Facts
order_facts o = (o.order_id, o.payment_type, o.payment_amount, o.gateway_txn_id)

facts-numbered :
    (seq : ℕ) (rows : List Order) → map obligation_facts (numbered seq rows) ≡ map order_facts rows
unfolding numbered
facts-numbered seq [] = refl
facts-numbered seq (row ∷ rows) = ap (◌∷◌ (order_facts row)) (facts-numbered (seq + 1) rows)

-- The placed rows of all groups, one group after the other.
abbrev placed_rows : Dict String (List Order) → List Order
placed_rows [] = []
placed_rows ((k, rows) ∷ groups) = filter is_placed rows ++ placed_rows groups

-- The exceptions so far, and that of the group of `k`, if it is mismatched.
abbrev Reports :
    ℕ → ObligationBuildResult → Dict String (List Order) → ObligationBuildResult → Type 0
Reports tolerance built groups r =
    (k : String)
    → contains (exception_ids r) (some k) ≡ (
        contains (exception_ids built) (some k)
        || is_mismatched tolerance (filter is_placed (get_or groups k [])))

grow :
    (built next : ObligationBuildResult) (j : String) (rows : List Order)
    (groups : Dict String (List Order))
    → next.obligations ≡ built.obligations ++ numbered 0 rows
    → map obligation_facts next.obligations ++ map order_facts (placed_rows groups)
      ≡ map obligation_facts built.obligations ++ map order_facts (rows ++ placed_rows groups)
grow built next j rows groups h =
    rw
      (
        h,
        map-append obligation_facts built.obligations (numbered 0 rows),
        facts-numbered 0 rows,
        map-append order_facts rows (placed_rows groups),
      )
      (append_assoc (map obligation_facts built.obligations) (map order_facts rows) _)

one_more :
    (ids : List (Option String)) (j k : String) (m : Bool)
    → contains (ids ++ (if m then some j ∷ [] else [])) (some k)
      ≡ (contains ids (some k) || (m && (j == k)))
one_more ids j k true = ground (arith, contains-append-or ids (some j ∷ []) (some k))
one_more ids j k false = ground (arith, contains-append-or ids [] (some k))

get_or-here :
    (j : String) (rows : List Order) (groups : Dict String (List Order)) (k : String)
    → get_or ((j, rows) ∷ groups) k [] ≡ (if j == k then rows else get_or groups k [])
unfolding get
get_or-here j rows groups k = ground arith

get_or-absent :
    (groups : Dict String (List Order)) (j k : String)
    → get groups j ≡ none
    → (j == k) ≡ true
    → get_or groups k [] ≡ []
get_or-absent groups j k fresh e = ground arith

or_here : (a m : Bool) → (a || (m && true) || false) ≡ (a || m)
or_here a m = ground arith

or_there : (a m b : Bool) → ((a || (m && false)) || b) ≡ (a || b)
or_there a m b = ground arith

module _ (tolerance : ℕ) where
  report_here :
      (ids : List (Option String)) (j : String) (rows : List Order)
      (groups : Dict String (List Order)) (k : String)
      → get groups j ≡ none
      → (contains
            (ids ++ (if is_mismatched tolerance (filter is_placed rows) then some j ∷ [] else []))
            (some k)
          || is_mismatched tolerance (filter is_placed (get_or groups k [])))
        ≡ (contains ids (some k)
            || is_mismatched tolerance (filter is_placed (get_or ((j, rows) ∷ groups) k [])))
  report_here ids j rows groups k fresh =
      rw
        (
          one_more ids j k (is_mismatched tolerance (filter is_placed rows)),
          get_or-here j rows groups k,
        )
        (elim (Bool-cases (j == k)) [
          | inl same ↦
              rw (same, get_or-absent groups j k fresh same) (or_here (contains ids (some k)) _)
          | inr other ↦ rw other (or_there (contains ids (some k)) _ _)
        ])

build_from-Reports :
    (tolerance : ℕ) (built : ObligationBuildResult) (groups : Dict String (List Order))
    → HasDistinctKeys groups
    → (r : ObligationBuildResult) × (build_from tolerance built groups ≡ ok r)
      × (map obligation_facts r.obligations
          ≡ map obligation_facts built.obligations ++ map order_facts (placed_rows groups))
      × Reports tolerance built groups r
unfolding build_from
build_from-Reports tolerance built [] h =
    (built, refl, sym (append-nil _), λ k. unfold get in ground arith)
build_from-Reports tolerance built ((j, rows) ∷ groups) h =
    let placed_here = filter is_placed rows in
    let (next, added, (obligations, exceptions)) = add_order-Adds tolerance built j placed_here in
    let (r, returned, facts, reports) = build_from-Reports tolerance next groups h.1 in
    (
      r,
      rw added returned,
      facts ∙ grow built next j placed_here groups obligations,
      λ k.
          reports k
          ∙ rw exceptions (report_here tolerance (exception_ids built) j rows groups k h.0),
    )

-- Two lists in front of a third may change places.
front_comm {ℓ} : {A : Type ℓ} (a b c : List A) → Perm ((a ++ b) ++ c) (b ++ (a ++ c))
front_comm a b c =
    Perm.trans (Perm.append_right c (perm_append_comm a b)) (rw (append_assoc b a c) (Perm.refl _))

placed_rows-push :
    (d : Dict String (List Order)) (k : String) (o : Order)
    → Perm (placed_rows (push d k o)) (filter is_placed (o ∷ []) ++ placed_rows d)
unfolding push
placed_rows-push [] k o = Perm.refl _
placed_rows-push ((j, rows) ∷ d) k o = elim (Bool-cases (j == k)) [
  | inl same ↦
      rw (same, filter-append is_placed rows (o ∷ []))
        (front_comm (filter is_placed rows) (filter is_placed (o ∷ [])) (placed_rows d))
  | inr other ↦ rw other (
      Perm.trans (Perm.append_left (filter is_placed rows) (placed_rows-push d k o)) (
        rw (← append_assoc (filter is_placed rows) (filter is_placed (o ∷ [])) (placed_rows d))
          (front_comm (filter is_placed rows) (filter is_placed (o ∷ [])) (placed_rows d))))
]

placed_rows-group_from :
    (d : Dict String (List Order)) (orders : List Order)
    → Perm (placed_rows (group_from d orders)) (placed_rows d ++ filter is_placed orders)
unfolding group_from
placed_rows-group_from d [] = rw append-nil (Perm.refl _)
placed_rows-group_from d (o ∷ orders) =
    Perm.trans (placed_rows-group_from (push d o.order_id o) orders) (
      Perm.trans (Perm.append_right (filter is_placed orders) (placed_rows-push d o.order_id o)) (
        rw (filter-append is_placed (o ∷ []) orders)
          (front_comm (filter is_placed (o ∷ [])) (placed_rows d) (filter is_placed orders))))

-- `build_obligations` returns. Its obligations are the placed rows, each once: what they take from
-- their rows is, counted with multiplicity, what the placed rows hold. And there is an exception for
-- an order id exactly if the placed rows with that id are mismatched: their amounts sum to more or
-- less than the total in the first of them, by more than the tolerance.
pub build_obligations_lem :
    (orders : List Order) (tolerance : ℕ)
    → (r : ObligationBuildResult) × (build_obligations orders tolerance ≡ ok r)
      × Perm (map obligation_facts r.obligations) (map order_facts (filter is_placed orders))
      × ((k : String)
          → contains (map (λ e. e.order_id) r.order_sum_exceptions) (some k)
            ≡ is_mismatched tolerance (filter is_placed (filter (λ o. o.order_id == k) orders)))
unfolding build_obligations
build_obligations_lem orders tolerance =
    let groups : Dict String (List Order) = group_from [] orders in
    let (r, returned, facts, reports) =
      build_from-Reports tolerance nothing_built groups (group_from-HasDistinctKeys [] orders tt) in
    (
      r,
      returned,
      rw facts (Perm.map order_facts (placed_rows-group_from [] orders)),
      λ k.
          reports k
          ∙ ap (λ rows. is_mismatched tolerance (filter is_placed rows)) (group_of k orders),
    )
