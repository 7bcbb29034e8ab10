-- ===== src/Prelude/Tests.antt =====
-- Boolean tests: on the native numbers, by a decidable equality, and the conditional.
use Prim.Native.Nat.{ℕ, compare, Ordering, ◌≤◌, ◌<◌}
use Prim.Native.String.{String}
use mathlib.Core.Bool.{Bool, true, false, not, ◌||◌, false≢true}
use mathlib.Core.List.{List, [], ◌∷◌, ◌++◌}
use mathlib.Core.Logic.{◌↔◌, ◌⊎◌, inl, inr}
use mathlib.Core.Option.{Option, none, some}
use mathlib.Core.Path.{◌≡◌, refl, ap}
use native.Mathlib.Omega.{arith}
use text.Mathlib.Text.{◌==◌ as str_eq}
use text.Mathlib.TextEquality.{eq_iff}

abbrev pub ltb : ℕ → ℕ → Bool
ltb a b = elim (compare a b) [ Ordering.lt ↦ true | _ ↦ false ]

abbrev pub leb : ℕ → ℕ → Bool
leb a b = elim (compare a b) [ Ordering.gt ↦ false | _ ↦ true ]

pub leb→le : (a b : ℕ) → leb a b ≡ true → a ≤ b
leb→le a b h = ground arith

pub le→leb : (a b : ℕ) → a ≤ b → leb a b ≡ true
le→leb a b h = ground arith

pub lt→leb : (a b : ℕ) → b < a → leb a b ≡ false
lt→leb a b h = ground arith

infix 1 if◌then◌else◌
abbrev pub if◌then◌else◌ {ℓ} : {A : Type ℓ} → Bool → A → A → A
if true then x else y = x
if false then x else y = y

pub Bool-cases : (b : Bool) → (b ≡ true) ⊎ (b ≡ false)
Bool-cases true = inl refl
Bool-cases false = inr refl

pub Option-cases {ℓ} : {A : Type ℓ} (o : Option A) → (o ≡ none) ⊎ ((a : A) × (o ≡ some a))
Option-cases none = inl refl
Option-cases (some a) = inr (a, refl)

-- A type whose values the program compares by `==`.
pub record Eq {ℓ} (A : Type ℓ) : Type ℓ where
  pub eq_dec : (a b : A) → Dec (a ≡ b)

abbrev pub is_yes {ℓ} : {P : Type ℓ} → Dec P → Bool
is_yes (yes p) = true
is_yes (no p) = false

infix 50 ◌==◌
abbrev pub ◌==◌ {ℓ} : {A : Type ℓ} ⦃e : Eq A⦄ → A → A → Bool
◌==◌ ⦃e⦄ a b = is_yes (e.eq_dec a b)

abbrev pub decide_by : (b : Bool) {P : Type 0} → ((b ≡ true) ↔ P) → Dec P
decide_by true h = yes (h.0 refl)
decide_by false h = no (λ p. false≢true (h.1 p))

instance abbrev pub string_eq : Eq String
string_eq = record { eq_dec = λ a b. decide_by (str_eq a b) (eq_iff a b) }

abbrev pub same_nat : ℕ → ℕ → Bool
same_nat a b = elim (compare a b) [ Ordering.eq ↦ true | _ ↦ false ]

pub same_nat_iff : (a b : ℕ) → (same_nat a b ≡ true) ↔ (a ≡ b)
same_nat_iff a b = ground arith

instance abbrev pub nat_eq : Eq ℕ
nat_eq = record { eq_dec = λ a b. decide_by (same_nat a b) (same_nat_iff a b) }

abbrev pub both_equal {ℓ κ} :
    {A : Type ℓ} {B : Type κ} (p q : A × B) → Dec (p.0 ≡ q.0) → Dec (p.1 ≡ q.1) → Dec (p ≡ q)
both_equal p q (yes h) (yes k) = yes (cc)
both_equal p q (yes h) (no k) = no (λ e. k (ap (λ r. r.1) e))
both_equal p q (no h) _ = no (λ e. h (ap (λ r. r.0) e))

instance abbrev pub pair_eq {ℓ κ} : {A : Type ℓ} {B : Type κ} ⦃a : Eq A⦄ ⦃b : Eq B⦄ → Eq (A × B)
pair_eq ⦃a⦄ ⦃b⦄ = record { eq_dec = λ p q. both_equal p q (a.eq_dec p.0 q.0) (b.eq_dec p.1 q.1) }

abbrev pub same_option {ℓ} : {A : Type ℓ} → Discrete A → (p q : Option A) → Dec (p ≡ q)
same_option d none none = yes refl
same_option d none (some b) = no (λ e. cc)
same_option d (some a) none = no (λ e. cc)
same_option d (some a) (some b) = elim (d a b) [ yes h ↦ yes (ap some h) | no h ↦ no (λ e. h (cc)) ]

instance abbrev pub option_eq {ℓ} : {A : Type ℓ} ⦃a : Eq A⦄ → Eq (Option A)
option_eq ⦃a⦄ = record { eq_dec = same_option a.eq_dec }

module _ {ℓ} {A : Type ℓ} ⦃e : Eq A⦄ where
  pub eq_self : (a : A) → (a == a) ≡ true
  eq_self a = ground arith

  pub eq_of_test : (a b : A) → (a == b) ≡ true → a ≡ b
  eq_of_test a b h = ground arith

  -- `x in xs`, for a list or a set.
  abbrev pub contains : List A → A → Bool
  contains [] a = false
  contains (x ∷ xs) a = a == x || contains xs a

  pub contains-append :
      (xs ys : List A) (a : A) → contains ys a ≡ true → contains (xs ++ ys) a ≡ true
  contains-append [] ys a h = h
  contains-append (x ∷ xs) ys a h = ground (arith, contains-append xs ys a h)

  pub contains-append-or :
      (xs ys : List A) (a : A) → contains (xs ++ ys) a ≡ (contains xs a || contains ys a)
  contains-append-or [] ys a = refl
  contains-append-or (x ∷ xs) ys a = ground (arith, contains-append-or xs ys a)

-- The truth of an optional text: `None` and `""` are false.
abbrev pub truthy : Option String → Bool
truthy none = false
truthy (some s) = not (s == "")

-- `x or d` for an optional text.
abbrev pub or_else : Option String → String → String
or_else none d = d
or_else (some s) d = if s == "" then d else s
