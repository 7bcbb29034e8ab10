-- ===== src/Domain/Money/Rounding.antt =====
-- How `_to_money` rounds (src/reconcile/models/domain.py).
use native.Mathlib.Nat.{one-le-pow, pow-suc}
use retail_reconciliation_ag.Prelude.{
  ℕ, zero, suc, ◌+◌, ◌*◌, ◌/◌, ◌^◌, ◌≤◌, ◌<◌, ℤ, pos, negsuc, Bool, ltb, List, some, ◌⊎◌, ◌≡◌,
  arith, Bool-cases, inl, inr, refl,
}
use retail_reconciliation_ag.Domain.Decimal.{
  finite, quantized, invalid_operation, half_up, to_hundredths, quantize, digits_loop, digit_count,
}
use retail_reconciliation_ag.Domain.Reading.{strip, read_decimal}
use retail_reconciliation_ag.Domain.Money.{or_zero, to_money}

-- A quotient is the nearest number, a tie upwards.
half_up-nearest :
    (c d : ℕ)
    → 0 < d
    → (half_up c d * (2 * d) ≤ 2 * c + d) × (2 * c + d < suc (half_up c d) * (2 * d))
unfolding half_up
half_up-nearest c d h = (grind arith, grind arith)

ten_pow-pos : (n : ℕ) → 0 < 10 ^ n
ten_pow-pos n = one-le-pow n 10 (omega arith)

pub half_up_one : (c : ℕ) → half_up c 1 ≡ c
unfolding half_up
half_up_one c = omega arith

digits_loop-le : (k rounds n : ℕ) → n < 10 ^ suc k → digits_loop rounds n ≤ suc k
unfolding digits_loop
digits_loop-le k zero n h = omega arith
digits_loop-le zero (suc rounds) n h = ground arith
digits_loop-le (suc k) (suc rounds) n h = elim (Bool-cases (ltb n 10)) [
  | inl small ↦ rw small (omega arith)
  | inr large ↦
      let shorter : n / 10 < 10 ^ suc k = omega (arith, h, pow-suc 10 (suc k)) in
      rw large (omega (arith, digits_loop-le k rounds (n / 10) shorter))
]

pub digit_count-le : (k n : ℕ) → n < 10 ^ suc k → digit_count n ≤ suc k
unfolding digit_count
digit_count-le k n h = digits_loop-le k n n h

-- p hundredths are nearest to c * 10 ^ e, a tie taken away from zero.
abbrev pub IsNearest : ℕ → ℤ → ℕ → Type 0
IsNearest c (pos e) p = p ≡ c * 10 ^ (e + 2)
IsNearest c (negsuc zero) p = p ≡ c * 10
IsNearest c (negsuc (suc n)) p =
    (p * (2 * 10 ^ n) ≤ 2 * c + 10 ^ n) × (2 * c + 10 ^ n < suc p * (2 * 10 ^ n))

to_hundredths-IsNearest : (c : ℕ) (e : ℤ) → IsNearest c e (to_hundredths c e)
unfolding to_hundredths
to_hundredths-IsNearest c (pos e) = refl
to_hundredths-IsNearest c (negsuc zero) = refl
to_hundredths-IsNearest c (negsuc (suc n)) = half_up-nearest c (10 ^ n) (ten_pow-pos n)

-- A number that is read is rounded to the nearest paise, a tie away from zero, and keeps its sign; only
-- where that takes more than 28 digits is `InvalidOperation` raised instead.
pub to_money-IsNearest :
    (value : List ℕ) (s : Bool) (c : ℕ) (e : ℤ)
    → read_decimal (or_zero (strip value)) ≡ some (finite s c e)
    → (p : ℕ) × IsNearest c e p
      × (((to_money value ≡ quantized s p) × (p < 10 ^ 28))
          ⊎ ((to_money value ≡ invalid_operation) × (10 ^ 28 ≤ p)))
unfolding to_money quantize
to_money-IsNearest value s c e h = (
  to_hundredths c e,
  to_hundredths-IsNearest c e,
  rw h (elim (Bool-cases (ltb (to_hundredths c e) (10 ^ 28))) [
    | inl fits ↦ inl (rw fits refl, ground arith)
    | inr large ↦ inr (rw large refl, ground arith)
  ]),
)
