-- ===== src/Domain/Money/Digits.antt =====
-- The digits of a number, written by `str` and read by `Decimal`
-- (src/reconcile/models/domain.py).
use Prim.Native.Char.{code}
use Prim.Native.String.{String}
use Prim.Native.String as S
use text.Mathlib.TextLemmas.{cons-append, nil-append}
use retail_reconciliation_ag.Prelude.{
  ℕ, zero, suc, ◌+◌, ◌-◌, ◌*◌, ◌/◌, ◌%◌, ◌<◌, ◌≤◌, List, [], ◌∷◌, ◌++◌, false, ltb, nat_eq, All,
  All-append, ◌≡◌, refl, ap, ◌∙◌, arith, Bool-cases, inl, inr, digit, repr_loop, repr,
}
use retail_reconciliation_ag.Domain.Reading.{codes, is_digit, span_digits, value_from}

pub codes-append : (s t : String) → codes (S.◌++◌ s t) ≡ codes s ++ codes t
codes-append S.[] t = rw (nil-append t) refl
codes-append (S.◌∷◌ c s) t = rw (cons-append c s t) (ap (λ r. code c ∷ r) (codes-append s t))

pub codes-digit : (n : ℕ) → n < 10 → codes (digit n) ≡ (48 + n) ∷ []
unfolding digit
codes-digit zero h = refl
codes-digit (suc zero) h = refl
codes-digit (suc (suc zero)) h = refl
codes-digit (suc (suc (suc zero))) h = refl
codes-digit (suc (suc (suc (suc zero)))) h = refl
codes-digit (suc (suc (suc (suc (suc zero))))) h = refl
codes-digit (suc (suc (suc (suc (suc (suc zero)))))) h = refl
codes-digit (suc (suc (suc (suc (suc (suc (suc zero))))))) h = refl
codes-digit (suc (suc (suc (suc (suc (suc (suc (suc zero)))))))) h = refl
codes-digit (suc (suc (suc (suc (suc (suc (suc (suc (suc zero))))))))) h = refl
codes-digit (suc (suc (suc (suc (suc (suc (suc (suc (suc (suc n)))))))))) h = absurd (omega arith)

-- The code of a digit.
abbrev pub IsDigit : ℕ → Type 0
IsDigit c = (48 ≤ c) × (c ≤ 57)

pub value_from-snoc :
    (acc : ℕ) (cs : List ℕ) (c : ℕ)
    → value_from acc (cs ++ c ∷ []) ≡ value_from acc cs * 10 + (c - 48)
unfolding value_from
value_from-snoc acc [] c = refl
value_from-snoc acc (d ∷ cs) c = value_from-snoc (acc * 10 + (d - 48)) cs c

pub span_digits-append :
    (ds : List ℕ) (c : ℕ) (cs : List ℕ)
    → All IsDigit ds
    → is_digit c ≡ false
    → span_digits (ds ++ c ∷ cs) ≡ (ds, c ∷ cs)
unfolding span_digits
span_digits-append [] c cs h k = rw k refl
span_digits-append (d ∷ ds) c cs h k = rw (span_digits-append ds c cs h.1 k) (ground arith)

-- What `str(n)` writes: digits, at least one, with the value n.
pub record Writes (n : ℕ) (cs : List ℕ) : Type 0 where
  pub digits : All IsDigit cs
  pub head : ℕ
  pub tail : List ℕ
  pub filled : cs ≡ head ∷ tail
  pub value : value_from 0 cs ≡ n

one_digit : (n : ℕ) → n < 10 → Writes n (codes (digit n))
unfolding value_from
one_digit n h = rw (codes-digit n h) (record {
  digits = ((omega arith, omega arith), tt);
  head = 48 + n;
  tail = [];
  filled = refl;
  value = omega arith;
})

repr_loop-Writes : (rounds n : ℕ) → n ≤ rounds → Writes n (codes (repr_loop rounds n))
unfolding repr_loop
repr_loop-Writes zero n h = one_digit n (omega arith)
repr_loop-Writes (suc rounds) n h = elim (Bool-cases (ltb n 10)) [
  | inl small ↦ rw small (one_digit n (ground arith))
  | inr large ↦
      let front = repr_loop-Writes rounds (n / 10) (ground arith) in
      let last : codes (digit (n % 10)) ≡ (48 + n % 10) ∷ [] = codes-digit (n % 10) (omega arith) in
      rw (large, codes-append (repr_loop rounds (n / 10)) (digit (n % 10)), last)
        (record {
          digits = All-append IsDigit _ _ front.digits ((omega arith, omega arith), tt);
          head = front.head;
          tail = front.tail ++ (48 + n % 10) ∷ [];
          filled = ap (λ cs. cs ++ (48 + n % 10) ∷ []) front.filled;
          value =
              value_from-snoc 0 (codes (repr_loop rounds (n / 10))) (48 + n % 10)
              ∙ omega (arith, front.value);
        })
]

pub repr-Writes : (n : ℕ) → Writes n (codes (repr n))
unfolding repr
repr-Writes n = repr_loop-Writes n n (omega arith)
