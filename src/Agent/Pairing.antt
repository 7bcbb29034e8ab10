-- ===== src/Agent/Pairing.antt =====
-- The rows that `fuzzy_node` accounts for, when it acts on the proposed pairings
-- (src/reconcile/agent/nodes.py).
use retail_reconciliation_ag.Prelude.{
  ℕ, String, List, [], ◌∷◌, ◌++◌, map, Perm, Option, none, some, false, All, All-intro, ◌≡◌, refl,
  arith, sym, ◌==◌, string_eq, inl, inr, leb, ◌∙◌, ap, Bool-cases,
}
use mathlib.Core.List.{map-append, append_assoc, append-nil}
use mathlib.Core.List.Perm
use mathlib.Core.Path.{subst}
use retail_reconciliation_ag.Prelude.Dict.{Dict, get, set, delete, values, get-set}
use retail_reconciliation_ag.Reconciliation.Matching.Conservation.{
  Due, due, pair_due, exception_due, middle-perm,
}
use retail_reconciliation_ag.Domain.Records.{Obligation, Settlement, MatchedPair, ExceptionRecord}
use retail_reconciliation_ag.Config.{FuzzyMatchConfig}
use retail_reconciliation_ag.Agent.Schemas.{FuzzyPairing}
use retail_reconciliation_ag.Agent.Fuzzy.{
  by_confidence, index_by, Pairings, apply_pairing, look_up, try_pairing, fuzzy_review_exception,
  pair_from, apply_proposal,
}

-- No two elements have the same key.
abbrev pub IsDistinctBy : {A : Type 0} → (A → String) → List A → Type 0
IsDistinctBy key [] = Unit
IsDistinctBy key (x ∷ xs) = All (λ y. (key x == key y) ≡ false) xs × IsDistinctBy key xs

module _ {A : Type 0} where
  values-set :
      (d : Dict String A) (k : String) (v : A)
      → get d k ≡ none
      → values (set d k v) ≡ values d ++ v ∷ []
  unfolding get set
  values-set [] k v h = refl
  values-set ((j, w) ∷ d) k v h = ground (arith, values-set d k v)

  delete-perm :
      (d : Dict String A) (k : String) (v : A)
      → get d k ≡ some v
      → Perm (values d) (v ∷ values (delete d k))
  unfolding get delete
  delete-perm [] k v h = absurd (ground arith)
  delete-perm ((j, w) ∷ d) k v h = elim (Bool-cases (j == k)) [
    | inl same ↦ let found : w ≡ v = ground arith in rw (same, found) (Perm.refl _)
    | inr other ↦
        rw other (Perm.trans (Perm.cons w (delete-perm d k v (ground arith))) (Perm.swap v w _))
  ]

module _ {A : Type 0} (key : A → String) where
  fresh-set :
      (d : Dict String A) (x : A) (ys : List A)
      → All (λ y. (key x == key y) ≡ false) ys
      → All (λ y. get d (key y) ≡ none) ys
      → All (λ y. get (set d (key x) x) (key y) ≡ none) ys
  fresh-set d x [] h k = tt
  fresh-set d x (y ∷ ys) h k = (rw (get-set d (key x) (key y) x, h.0) k.0, fresh-set d x ys h.1 k.1)

  index_by-values :
      (d : Dict String A) (xs : List A)
      → IsDistinctBy key xs
      → All (λ x. get d (key x) ≡ none) xs
      → values (index_by key d xs) ≡ values d ++ xs
  unfolding index_by
  index_by-values d [] h k = sym (append-nil _)
  index_by-values d (x ∷ xs) h k =
      index_by-values (set d (key x) x) xs h.1 (fresh-set d x xs h.0 k.1)
      ∙ ap (λ l. l ++ xs) (values-set d (key x) x k.0)
      ∙ append_assoc (values d) (x ∷ []) xs

  index_by-values_lem : (xs : List A) → IsDistinctBy key xs → values (index_by key [] xs) ≡ xs
  index_by-values_lem xs h =
      index_by-values [] xs h
        (All-intro (λ x. get {V = A} [] (key x) ≡ none) (λ x. unfold get in refl) xs)

-- An element that leaves the first list may come in at the end of the second or of the third.
module _ {A : Type 0} (x : A) (a left b c : List A) (leaves : Perm a (x ∷ left)) where
  to_second-perm : Perm (left ++ ((b ++ x ∷ []) ++ c)) (a ++ (b ++ c))
  to_second-perm =
      rw (append_assoc b (x ∷ []) c)
        (Perm.trans (middle-perm x left b c) (Perm.symm (Perm.append_right (b ++ c) leaves)))

  to_third-perm : Perm (left ++ (b ++ (c ++ x ∷ []))) (a ++ (b ++ c))
  to_third-perm = rw (sym (append_assoc b c (x ∷ []))) (
      Perm.trans (rw (append-nil) at (middle-perm x left (b ++ c) []))
        (Perm.symm (Perm.append_right (b ++ c) leaves)))

-- What a settlement brings in: its id and amount.
abbrev pub Receipt : Type 0
Receipt = Option String × Option ℕ

abbrev pub receipt : Settlement → Receipt
receipt s = (some s.settlement_id, some s.amount)

abbrev pub pair_receipt : MatchedPair → Receipt
pair_receipt p = receipt p.settlement

abbrev pub exception_receipt : ExceptionRecord → Receipt
exception_receipt e = (e.settlement_id, e.actual_amount)

-- The rows that a state of the loop accounts for, of either side.
abbrev pub orders_held : Pairings → List Due
orders_held st =
    map due (values st.obl_by_order) ++ (map pair_due st.matched ++ map exception_due st.exceptions)

abbrev pub settlements_held : Pairings → List Receipt
settlements_held st =
    map receipt (values st.settle_by_id)
    ++ (map pair_receipt st.matched ++ map exception_receipt st.exceptions)

-- A round accounts for the same rows.
abbrev KeepsRows : Pairings → Pairings → Type 0
KeepsRows next st =
    Perm (orders_held next) (orders_held st) × Perm (settlements_held next) (settlements_held st)

same-KeepsRows : (st : Pairings) → KeepsRows st st
same-KeepsRows st = (Perm.refl _, Perm.refl _)

apply_pairing-KeepsRows :
    (config : FuzzyMatchConfig) (p : FuzzyPairing) (i j : String) (o : Obligation) (s : Settlement)
    → (st : Pairings) → get st.obl_by_order i ≡ some o
    → get st.settle_by_id j ≡ some s
    → KeepsRows (apply_pairing config p i j o s st) st
unfolding apply_pairing fuzzy_review_exception
apply_pairing-KeepsRows config p i j o s st h k =
    let order_leaves = Perm.map due (delete-perm st.obl_by_order i o h) in
    let settlement_leaves = Perm.map receipt (delete-perm st.settle_by_id j s k) in
    elim (Bool-cases (leb config.auto_apply_threshold p.confidence)) [
      | inl applied ↦ rw applied (
        rw map-append (
            to_second-perm (due o) _ _ (map pair_due st.matched) (map exception_due st.exceptions)
              order_leaves),
        rw map-append (
            to_second-perm (receipt s) _ _ (map pair_receipt st.matched)
              (map exception_receipt st.exceptions) settlement_leaves),
      )
      | inr low ↦ rw low (elim (Bool-cases (leb config.review_threshold p.confidence)) [
        | inl flagged ↦ rw flagged (
          rw map-append (
              to_third-perm (due o) _ _ (map pair_due st.matched) (map exception_due st.exceptions)
                order_leaves),
          rw map-append (
              to_third-perm (receipt s) _ _ (map pair_receipt st.matched)
                (map exception_receipt st.exceptions) settlement_leaves),
        )
        | inr ignored ↦ rw ignored (same-KeepsRows st)
      ])
    ]

look_up-KeepsRows :
    (config : FuzzyMatchConfig) (p : FuzzyPairing) (i j : String)
    → (o : Option Obligation) (s : Option Settlement) (st : Pairings) → get st.obl_by_order i ≡ o
    → get st.settle_by_id j ≡ s
    → KeepsRows (look_up config p i j o s st) st
unfolding look_up
look_up-KeepsRows config p i j (some o) (some s) st h k =
    apply_pairing-KeepsRows config p i j o s st h k
look_up-KeepsRows config p i j none s st h k = same-KeepsRows st
look_up-KeepsRows config p i j (some o) none st h k = same-KeepsRows st

try_pairing-KeepsRows :
    (config : FuzzyMatchConfig) (p : FuzzyPairing) (i j : Option String) (st : Pairings)
    → KeepsRows (try_pairing config p i j st) st
unfolding try_pairing
try_pairing-KeepsRows config p (some i) (some j) st =
    look_up-KeepsRows config p i j _ _ st refl refl
try_pairing-KeepsRows config p none j st = same-KeepsRows st
try_pairing-KeepsRows config p (some i) none st = same-KeepsRows st

pair_from-KeepsRows :
    (config : FuzzyMatchConfig) (ps : List FuzzyPairing) (st : Pairings)
    → KeepsRows (pair_from config ps st) st
unfolding pair_from
pair_from-KeepsRows config [] st = same-KeepsRows st
pair_from-KeepsRows config (p ∷ ps) st =
    let first = try_pairing-KeepsRows config p p.order_id p.settlement_id st in
    let rest = pair_from-KeepsRows config ps (try_pairing config p p.order_id p.settlement_id st) in
    (Perm.trans rest.0 first.0, Perm.trans rest.1 first.1)

-- Where the unmatched obligations differ in their order ids, and the unmatched settlements in their
-- ids, the pairings lose no row of either side and invent none: what is due in the obligations still
-- unmatched, in the pairs and in the exceptions is, counted with multiplicity, what was due in these
-- three before, and likewise for the ids and amounts of the settlements.
pub apply_proposal-KeepsRows :
    (config : FuzzyMatchConfig) (pairings : List FuzzyPairing)
    → (obligations : List Obligation) (settlements : List Settlement)
    → (matched : List MatchedPair) (exceptions : List ExceptionRecord)
    → IsDistinctBy (λ o. o.order_id) obligations
    → IsDistinctBy (λ s. s.settlement_id) settlements
    → Perm
        (orders_held (apply_proposal config pairings obligations settlements matched exceptions))
        (map due obligations ++ (map pair_due matched ++ map exception_due exceptions))
      × Perm
          (settlements_held
            (apply_proposal config pairings obligations settlements matched exceptions))
          (map receipt settlements
            ++ (map pair_receipt matched ++ map exception_receipt exceptions))
unfolding apply_proposal
apply_proposal-KeepsRows config pairings obligations settlements matched exceptions h k =
    let st : Pairings = record {
      obl_by_order = index_by (λ o. o.order_id) [] obligations;
      settle_by_id = index_by (λ s. s.settlement_id) [] settlements;
      matched = matched;
      exceptions = exceptions;
      auto_applied = [];
      events = [];
    } in
    let kept = pair_from-KeepsRows config (by_confidence pairings) st in
    (
      subst
          (λ os.
            Perm (orders_held (pair_from config (by_confidence pairings) st))
              (map due os ++ (map pair_due matched ++ map exception_due exceptions)))
          (index_by-values_lem (λ o. o.order_id) obligations h) kept.0,
      subst
          (λ ss.
            Perm (settlements_held (pair_from config (by_confidence pairings) st))
              (map receipt ss ++ (map pair_receipt matched ++ map exception_receipt exceptions)))
          (index_by-values_lem (λ s. s.settlement_id) settlements k) kept.1,
    )
