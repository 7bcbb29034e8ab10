-- ===== src/Prelude/Effects.antt =====
-- Code that changes a state and returns or raises. What was written before a raise stays written.
use mathlib.Core.Path.{◌≡◌, subst}
use retail_reconciliation_ag.Prelude.Errors.{Result, ok, raise}

abbrev pub Exec {ℓ} : Type ℓ → Type ℓ → Type ℓ
Exec S A = S → Result A × S

abbrev pub pure {ℓ} : {S A : Type ℓ} → A → Exec S A
pure a s = (ok a, s)

-- A computation that leaves the state alone.
abbrev pub lift {ℓ} : {S A : Type ℓ} → Result A → Exec S A
lift r s = (r, s)

abbrev pub gets {ℓ} : {S A : Type ℓ} → (S → A) → Exec S A
gets f s = (ok (f s), s)

abbrev pub modify : {S : Type 0} → (S → S) → Exec S (Unit {0})
modify f s = (ok tt, f s)

abbrev pub continue {ℓ} : {S A B : Type ℓ} → Result A → (A → Exec S B) → Exec S B
continue (ok a) f s = f a s
continue (raise e) f s = (raise e, s)

infixl 5 ◌>>=◌ ◌>>◌
abbrev pub ◌>>=◌ {ℓ} : {S A B : Type ℓ} → Exec S A → (A → Exec S B) → Exec S B
◌>>=◌ m f s = let (r, s') = m s in continue r f s'

abbrev pub ◌>>◌ {ℓ} : {S A B : Type ℓ} → Exec S A → Exec S B → Exec S B
◌>>◌ m n = m >>= λ _. n

-- What holds of the value and the state where the code returns.
abbrev pub Returns {ℓ κ} : {S A : Type ℓ} → (A → S → Type κ) → Result A × S → Type κ
Returns P (ok a, s) = P a s
Returns P (raise e, s) = Unit

module _ {ℓ κ μ} {S A B : Type ℓ} (Q : A → S → Type κ) (P : B → S → Type μ) where
  Returns-continue :
      (r : Result A) (s : S) (f : A → Exec S B)
      → Returns Q (r, s)
      → ((a : A) (s' : S) → Q a s' → Returns P (f a s'))
      → Returns P (continue r f s)
  Returns-continue (ok a) s f h k = k a s h
  Returns-continue (raise e) s f h k = tt

  pub Returns-bind :
      (run : Result A × S) (f : A → Exec S B)
      → Returns Q run
      → ((a : A) (s : S) → Q a s → Returns P (f a s))
      → Returns P (continue run.0 f run.1)
  Returns-bind run f h k = Returns-continue run.0 run.1 f h k

pub Returns-all {ℓ κ} :
    {S A : Type ℓ} (P : A → S → Type κ) (r : Result A) (s : S)
    → ((a : A) (s : S) → P a s)
    → Returns P (r, s)
Returns-all P (ok a) s f = f a s
Returns-all P (raise e) s f = tt

-- What every run that returns satisfies holds of one that has returned.
pub Returns-ok {ℓ κ} :
    {S A : Type ℓ} (P : A → S → Type κ) (run : Result A × S) (a : A) (s : S)
    → Returns P run
    → run ≡ (ok a, s)
    → P a s
Returns-ok P run a s h e = subst (Returns P) e h

-- What holds of the value and the state, or of the state alone where the code has raised.
abbrev pub After {ℓ κ} : {S A : Type ℓ} → (S → Type κ) → (A → Type κ) → Result A × S → Type κ
After I P (ok a, s) = I s × P a
After I P (raise e, s) = I s

module _ {ℓ κ} {S A B : Type ℓ} (I : S → Type κ) (Q : A → Type κ) (P : B → Type κ) where
  After-continue :
      (r : Result A) (s : S) (f : A → Exec S B)
      → After I Q (r, s)
      → ((a : A) (s' : S) → I s' → Q a → After I P (f a s'))
      → After I P (continue r f s)
  After-continue (ok a) s f h k = k a s h.0 h.1
  After-continue (raise e) s f h k = h

  pub After-bind :
      (run : Result A × S) (f : A → Exec S B)
      → After I Q run
      → ((a : A) (s : S) → I s → Q a → After I P (f a s))
      → After I P (continue run.0 f run.1)
  After-bind run f h k = After-continue run.0 run.1 f h k

pub After-state {ℓ κ} :
    {S A : Type ℓ} (I : S → Type κ) (P : A → Type κ) (r : Result A) (s : S) → After I P (r, s) → I s
After-state I P (ok a) s h = h.0
After-state I P (raise e) s h = h

pub After-all {ℓ κ} :
    {S A : Type ℓ} (I : S → Type κ) (P : A → Type κ) (r : Result A) (s : S)
    → I s
    → ((a : A) → P a)
    → After I P (r, s)
After-all I P (ok a) s h k = (h, k a)
After-all I P (raise e) s h k = h

-- The code returns, with a value of which `P` holds.
abbrev pub Succeeds {ℓ} : {S A : Type ℓ} → (A → Type 0) → Result A × S → Type 0
Succeeds P (ok a, s) = P a
Succeeds P (raise e, s) = ⊥

module _ {ℓ} {S A B : Type ℓ} (Q : A → Type 0) (P : B → Type 0) where
  Succeeds-continue :
      (r : Result A) (s : S) (f : A → Exec S B)
      → Succeeds Q (r, s)
      → ((a : A) (s' : S) → Q a → Succeeds P (f a s'))
      → Succeeds P (continue r f s)
  Succeeds-continue (ok a) s f h k = k a s h
  Succeeds-continue (raise e) s f h k = absurd h

  pub Succeeds-bind :
      (run : Result A × S) (f : A → Exec S B)
      → Succeeds Q run
      → ((a : A) (s : S) → Q a → Succeeds P (f a s))
      → Succeeds P (continue run.0 f run.1)
  Succeeds-bind run f h k = Succeeds-continue run.0 run.1 f h k
