-- ===== src/Reconciliation/Matching/Candidates.antt =====
-- The candidates of an obligation, as the dictionaries of `reconcile_keys` give them, are those that
-- a search through all settlements would find.
use retail_reconciliation_ag.Prelude.{
  ℕ, ◌≤◌, length, String, List, [], ◌∷◌, ◌++◌, true, false, Bool, not, ◌&&◌, ◌||◌, Option, none,
  some, ◌≡◌, refl, arith, sym, ◌∙◌, if◌then◌else◌, ◌==◌, Bool-cases, inl, inr, filter,
  filter-filter-eq-nil, All-zip, contains, truthy, All, All-filter, All-mem, All-imp, Mem,
  string_eq, pair_eq, option_eq, ap,
}
use mathlib.Core.List.{append_assoc, append-nil}
use retail_reconciliation_ag.Prelude.Dict.{Dict, get, get_or, get_or-push}
use retail_reconciliation_ag.Domain.Enums.{PaymentType, payment_type_eq}
use retail_reconciliation_ag.Domain.Records.{Settlement, Obligation}
use retail_reconciliation_ag.Reconciliation.Matcher.{
  Index, index_from, index_txn, index_order, txn_candidates, order_candidates, empty_index, live,
  candidates_of,
}

-- The settlement carries the obligation's transaction id, which is not empty.
abbrev pub shares_txn : Obligation → Settlement → Bool
shares_txn o s = truthy o.gateway_txn_id && (s.gateway_txn_id == o.gateway_txn_id)

-- The settlement carries the obligation's order id, which is not empty, and its payment type.
abbrev pub shares_order : Obligation → Settlement → Bool
shares_order o s =
    truthy s.order_id && (s.order_id == some o.order_id) && (s.payment_type == o.payment_type)

abbrev pub first_found {ℓ} : {A : Type ℓ} → List A → List A → List A
first_found [] ys = ys
first_found (x ∷ xs) ys = x ∷ xs

abbrev only {ℓ} : {A : Type ℓ} → Bool → A → List A
only true a = a ∷ []
only false a = []

module _ {ℓ} {A : Type ℓ} where
  only-append :
      (xs ys : List A) (b : Bool) (a : A)
      → (xs ++ only b a) ++ ys ≡ xs ++ (if b then a ∷ ys else ys)
  only-append xs ys true a = append_assoc xs (a ∷ []) ys
  only-append xs ys false a = append_assoc xs [] ys

get_or-index_txn :
    (txn : String) (o : Option String) (s : Settlement) (d : Dict String (List Settlement))
    → (txn == "") ≡ false
    → get_or (index_txn o s d) txn [] ≡ get_or d txn [] ++ only (o == some txn) s
unfolding index_txn
get_or-index_txn txn none s d h = sym (append-nil _)
get_or-index_txn txn (some t) s d h =
    ground (arith, get_or-push d t txn s, append-nil (get_or d txn []))

by_txn-filter :
    (txn : String) (index : Index) (ss : List Settlement)
    → (txn == "") ≡ false
    → get_or (index_from index ss).by_txn txn []
      ≡ get_or index.by_txn txn [] ++ filter (λ s. s.gateway_txn_id == some txn) ss
unfolding index_from
by_txn-filter txn index [] h = sym (append-nil _)
by_txn-filter txn index (s ∷ ss) h =
    by_txn-filter txn
      (record {
        by_txn = index_txn s.gateway_txn_id s index.by_txn;
        by_order_type = index_order s.order_id s index.by_order_type;
      })
      ss h
    ∙ ap (λ l. l ++ filter (λ s. s.gateway_txn_id == some txn) ss)
        (get_or-index_txn txn s.gateway_txn_id s index.by_txn h)
    ∙ only-append (get_or index.by_txn txn []) _ (s.gateway_txn_id == some txn) s

-- The test that the second dictionary stands for, at a key.
abbrev at_key : String → PaymentType → Settlement → Bool
at_key order_id payment_type s =
    truthy s.order_id && (s.order_id == some order_id) && (s.payment_type == payment_type)

get_or-index_order :
    (k : String) (p : PaymentType) (o : Option String) (s : Settlement)
    (d : Dict (String × PaymentType) (List Settlement))
    → get_or (index_order o s d) (k, p) []
      ≡ get_or d (k, p) [] ++ only (truthy o && (o == some k) && (s.payment_type == p)) s
unfolding index_order
get_or-index_order k p none s d = sym (append-nil _)
get_or-index_order k p (some t) s d =
    ground (arith, get_or-push d (t, s.payment_type) (k, p) s, append-nil (get_or d (k, p) []))

by_order-filter :
    (k : String) (p : PaymentType) (index : Index) (ss : List Settlement)
    → get_or (index_from index ss).by_order_type (k, p) []
      ≡ get_or index.by_order_type (k, p) [] ++ filter (at_key k p) ss
unfolding index_from
by_order-filter k p index [] = sym (append-nil _)
by_order-filter k p index (s ∷ ss) =
    by_order-filter k p
      (record {
        by_txn = index_txn s.gateway_txn_id s index.by_txn;
        by_order_type = index_order s.order_id s index.by_order_type;
      })
      ss
    ∙ ap (λ l. l ++ filter (at_key k p) ss)
        (get_or-index_order k p s.order_id s index.by_order_type)
    ∙ only-append (get_or index.by_order_type (k, p) []) _ (at_key k p s) s

-- The candidates without dictionaries: the live settlements that share the transaction id, or, if
-- there are none, those that share order id and payment type.
unfoldable pub reference_candidates : List Settlement → List String → Obligation → List Settlement
reference_candidates settlements consumed o =
    first_found (live consumed (filter (shares_txn o) settlements))
      (live consumed (filter (shares_order o) settlements))

filter-none {ℓ} : {A : Type ℓ} (xs : List A) → filter (λ x. false) xs ≡ []
filter-none [] = refl
filter-none (x ∷ xs) = filter-none xs

txn_candidates-reference :
    (settlements : List Settlement) (consumed : List String) (t : Option String)
    → txn_candidates (index_from empty_index settlements) consumed t
      ≡ live consumed (filter (λ s. truthy t && (s.gateway_txn_id == t)) settlements)
unfolding txn_candidates live
txn_candidates-reference settlements consumed none =
    ap (live consumed) (sym (filter-none settlements)) ∙ unfold live in refl
txn_candidates-reference settlements consumed (some t) = elim (Bool-cases (t == "")) [
  | inl e ↦ rw e (unfold live in rw (filter-none settlements))
  | inr e ↦ rw e (ap (live consumed) (unfold get in by_txn-filter t empty_index settlements e))
]

-- For every obligation, whatever is consumed, the indexed search finds exactly the candidates that a
-- search through the settlements finds.
pub candidates_of-eq-reference :
    (settlements : List Settlement) (consumed : List String) (o : Obligation)
    → candidates_of (index_from empty_index settlements) consumed o
      ≡ reference_candidates settlements consumed o
unfolding candidates_of reference_candidates order_candidates
candidates_of-eq-reference settlements consumed o =
    rw (txn_candidates-reference settlements consumed o.gateway_txn_id)
      (or_by_order (live consumed (filter (shares_txn o) settlements)))
  where
    or_by_order :
        (found : List Settlement)
        → order_candidates (index_from empty_index settlements) consumed o found
          ≡ first_found found (live consumed (filter (shares_order o) settlements))
    or_by_order [] =
        ap (live consumed)
          (unfold get in by_order-filter o.order_id o.payment_type empty_index settlements)
    or_by_order (x ∷ xs) = refl

first_found-nil {ℓ} : {A : Type ℓ} (xs ys : List A) → first_found xs ys ≡ [] → (xs ≡ []) × (ys ≡ [])
first_found-nil [] ys h = (refl, h)
first_found-nil (x ∷ xs) ys h = cc

-- The obligation and the settlement agree on one of the two keys.
abbrev pub shares_key : Obligation → Settlement → Bool
shares_key o s = shares_txn o s || shares_order o s

module _ (settlements : List Settlement) (consumed : List String) (o : Obligation) where
  abbrev pub Candidate : Settlement → Type 0
  Candidate s =
      Mem s settlements × (shares_key o s ≡ true) × (contains consumed s.settlement_id ≡ false)

  live-Candidate :
      (p : Settlement → Bool)
      → ((s : Settlement) → p s ≡ true → shares_key o s ≡ true)
      → All Candidate (live consumed (filter p settlements))
  unfolding live
  live-Candidate p f =
      All-imp _ _ (λ s h. (h.0.0, f s h.0.1, ground arith)) _
        (All-filter _ _ _ (All-filter _ p settlements (All-mem settlements)))

  All-first_found :
      (xs ys : List Settlement)
      → All Candidate xs
      → All Candidate ys
      → All Candidate (first_found xs ys)
  All-first_found [] ys h k = k
  All-first_found (x ∷ xs) ys h k = h

  -- A candidate is a settlement of the file that agrees on a key and is not consumed.
  pub candidates_of-Candidate :
      All Candidate (candidates_of (index_from empty_index settlements) consumed o)
  candidates_of-Candidate = rw candidates_of-eq-reference (
      unfold reference_candidates in
      All-first_found _ _ (live-Candidate (shares_txn o) (λ s h. ground arith))
        (live-Candidate (shares_order o) (λ s h. ground arith)))

  live-length :
      (p : Settlement → Bool) (ss : List Settlement)
      → ((s : Settlement) → p s ≡ true → shares_key o s ≡ true)
      → length (live consumed (filter p ss)) ≤ length (filter (shares_key o) ss)
  unfolding live
  live-length p [] f = omega arith
  live-length p (s ∷ ss) f = elim (Bool-cases (p s)) [
    | inl here ↦ rw (here, f s here) (ground (arith, live-length p ss f))
    | inr not_here ↦ rw not_here (ground (arith, live-length p ss f))
  ]

  length-first_found :
      (n : ℕ) (xs ys : List Settlement)
      → length xs ≤ n
      → length ys ≤ n
      → length (first_found xs ys) ≤ n
  length-first_found n [] ys h k = k
  length-first_found n (x ∷ xs) ys h k = h

  -- There are no more candidates than rows that agree on a key.
  pub candidates_of-length :
      length (candidates_of (index_from empty_index settlements) consumed o)
      ≤ length (filter (shares_key o) settlements)
  candidates_of-length = rw candidates_of-eq-reference (
      unfold reference_candidates in
      length-first_found _ _ _ (live-length (shares_txn o) settlements (λ s h. ground arith))
        (live-length (shares_order o) settlements (λ s h. ground arith)))

  live-nil :
      (p : Settlement → Bool)
      → live consumed (filter p settlements) ≡ []
      → All (λ s. p s ≡ true → contains consumed s.settlement_id ≡ true) settlements
  unfolding live
  live-nil p h =
      All-imp _ _ (λ s f px. ground (arith, f px)) settlements
        (filter-filter-eq-nil p (λ s. not (contains consumed s.settlement_id)) settlements h)

  reference_candidates-nil :
      reference_candidates settlements consumed o ≡ []
      → (live consumed (filter (shares_txn o) settlements) ≡ [])
        × (live consumed (filter (shares_order o) settlements) ≡ [])
  unfolding reference_candidates
  reference_candidates-nil h = first_found-nil _ _ h

  -- Where there is no candidate, every settlement that agrees on a key is consumed.
  pub candidates_of-nil :
      candidates_of (index_from empty_index settlements) consumed o ≡ []
      → All (λ s. shares_key o s ≡ true → contains consumed s.settlement_id ≡ true) settlements
  candidates_of-nil h =
      let (none_by_txn, none_by_order) =
        reference_candidates-nil (rw candidates_of-eq-reference at h) in
      All-imp _ _ (λ s f e. by_either s f e) settlements
        (All-zip _ _ settlements (live-nil (shares_txn o) none_by_txn)
          (live-nil (shares_order o) none_by_order))
    where
      by_either :
          (s : Settlement)
          → ((shares_txn o s ≡ true → contains consumed s.settlement_id ≡ true)
              × (shares_order o s ≡ true → contains consumed s.settlement_id ≡ true))
          → shares_key o s ≡ true
          → contains consumed s.settlement_id ≡ true
      by_either s f e = elim (Bool-cases (shares_txn o s)) [
        | inl t ↦ f.0 t
        | inr t ↦ f.1 (rw t at e)
      ]
