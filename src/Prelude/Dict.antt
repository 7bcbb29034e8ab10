-- ===== src/Prelude/Dict.antt =====
-- Python's `dict`: an association list in insertion order, with one entry for a key.
use mathlib.Core.List.{List, [], ◌∷◌, ◌++◌, map}
use mathlib.Core.Logic.{inl, inr}
use mathlib.Core.Option.{Option, none, some}
use mathlib.Core.Path.{◌≡◌, refl, sym, subst}
use native.Mathlib.Omega.{arith}
use retail_reconciliation_ag.Prelude.Lists.{All}
use retail_reconciliation_ag.Prelude.Tests.{eq_of_test, Eq, Bool-cases, ◌==◌, if◌then◌else◌}

abbrev pub Dict {ℓ} : Type ℓ → Type ℓ → Type ℓ
Dict K V = List (K × V)

module _ {ℓ κ} {K : Type ℓ} {V : Type κ} where
  -- `d.keys()`, `d.values()`
  abbrev pub keys : List (K × V) → List K
  keys = map (λ e. e.0)

  abbrev pub values : List (K × V) → List V
  values = map (λ e. e.1)

module _ {ℓ κ} {K : Type ℓ} ⦃e : Eq K⦄ {V : Type κ} where
  -- `d.get(k)`
  unfoldable pub get : List (K × V) → K → Option V
  get [] k = none
  get ((j, v) ∷ d) k = let rest = get d k in if j == k then some v else rest

  -- `d.get(k, default)`
  abbrev pub get_or : List (K × V) → K → V → V
  get_or d k default = elim (get d k) [ none ↦ default | some v ↦ v ]

  -- `d[k] = v`: a known key keeps its place, a new one comes last.
  unfoldable pub set : List (K × V) → K → V → List (K × V)
  set [] k v = (k, v) ∷ []
  set ((j, w) ∷ d) k v = let rest = set d k v in if j == k then (j, v) ∷ d else (j, w) ∷ rest

  -- `del d[k]`
  unfoldable pub delete : List (K × V) → K → List (K × V)
  delete [] k = []
  delete ((j, w) ∷ d) k = let rest = delete d k in if j == k then d else (j, w) ∷ rest

  pub get-set :
      (d : List (K × V)) (k j : K) (v : V)
      → get (set d k v) j ≡ (if k == j then some v else get d j)
  unfolding get set
  get-set [] k j v = refl
  get-set ((i, w) ∷ d) k j v = ground (arith, get-set d k j v)

module _ {ℓ κ} {K : Type ℓ} ⦃e : Eq K⦄ {V : Type κ} where
  -- `d.setdefault(k, []).append(v)`
  unfoldable pub push : List (K × List V) → K → V → List (K × List V)
  push [] k v = (k, v ∷ []) ∷ []
  push ((j, vs) ∷ d) k v =
      let rest = push d k v in if j == k then (j, vs ++ v ∷ []) ∷ d else (j, vs) ∷ rest

  pub get-push :
      (d : List (K × List V)) (k j : K) (v : V)
      → get (push d k v) j ≡ (if k == j then some (get_or d j [] ++ v ∷ []) else get d j)
  unfolding get push
  get-push [] k j v = ground arith
  get-push ((i, vs) ∷ d) k j v = ground (arith, get-push d k j v)

  pub get_or-push :
      (d : List (K × List V)) (k j : K) (v : V)
      → get_or (push d k v) j [] ≡ (if k == j then get_or d j [] ++ v ∷ [] else get_or d j [])
  unfolding get push
  get_or-push [] k j v = ground arith
  get_or-push ((i, vs) ∷ d) k j v = ground (arith, get_or-push d k j v)

module _ {ℓ κ} {K : Type ℓ} ⦃e : Eq K⦄ {V : Type κ} where
  -- No key stands in two entries.
  abbrev pub HasDistinctKeys : List (K × V) → Type κ
  HasDistinctKeys [] = Unit
  HasDistinctKeys ((j, v) ∷ d) = (get d j ≡ none) × HasDistinctKeys d

module _ {ℓ κ} {K : Type ℓ} ⦃e : Eq K⦄ {V : Type κ} where
  pub push-HasDistinctKeys :
      (d : List (K × List V)) (k : K) (v : V) → HasDistinctKeys d → HasDistinctKeys (push d k v)
  unfolding push
  push-HasDistinctKeys [] k v h = (unfold get in refl, tt)
  push-HasDistinctKeys ((j, vs) ∷ d) k v h = elim (Bool-cases (j == k)) [
    | inl same ↦ rw same h
    | inr other ↦ rw other (ground (arith, get-push d k j v, h.0), push-HasDistinctKeys d k v h.1)
  ]

module _ {ℓ κ μ} {K : Type ℓ} ⦃e : Eq K⦄ {V : Type κ} (P : K → V → Type μ) where
  pub All-set :
      (d : List (K × V)) (k : K) (v : V)
      → All (λ x. P x.0 x.1) d
      → P k v
      → All (λ x. P x.0 x.1) (set d k v)
  unfolding set
  All-set [] k v h p = (p, tt)
  All-set ((j, w) ∷ d) k v h p = elim (Bool-cases (j == k)) [
    | inl same ↦ rw same (subst (λ x. P x v) (sym (eq_of_test j k same)) p, h.1)
    | inr other ↦ rw other (h.0, All-set d k v h.1 p)
  ]

  pub All-delete :
      (d : List (K × V)) (k : K) → All (λ x. P x.0 x.1) d → All (λ x. P x.0 x.1) (delete d k)
  unfolding delete
  All-delete [] k h = tt
  All-delete ((j, w) ∷ d) k h = elim (Bool-cases (j == k)) [
    | inl same ↦ rw same h.1
    | inr other ↦ rw other (h.0, All-delete d k h.1)
  ]

  pub All-get :
      (d : List (K × V)) (k : K) (v : V) → All (λ x. P x.0 x.1) d → get d k ≡ some v → P k v
  unfolding get
  All-get [] k v h g = absurd (ground arith)
  All-get ((j, w) ∷ d) k v h g = elim (Bool-cases (j == k)) [
    | inl same ↦
        let found : w ≡ v = ground arith in
        subst (λ x. P x v) (eq_of_test j k same) (subst (P j) found h.0)
    | inr other ↦ All-get d k v h.1 (ground arith)
  ]
