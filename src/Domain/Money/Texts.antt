-- ===== src/Domain/Money/Texts.antt =====
-- Amounts written by `str` and read again (src/reconcile/models/domain.py).
use mathlib.Core.List.{append_assoc}
use mathlib.Core.Path.{subst}
use retail_reconciliation_ag.Prelude.{
  ℕ, ◌+◌, ◌-◌, ◌*◌, ◌/◌, ◌%◌, ◌^◌, ◌<◌, ◌≤◌, List, [], ◌∷◌, ◌++◌, filter, not, some, false, ◌==◌,
  nat_eq, All, All-append, All-imp, ◌≡◌, refl, sym, ap, ◌∙◌, arith, digit, repr, show_money, text,
  negsuc,
}
use retail_reconciliation_ag.Domain.Decimal.{finite, quantized, quantize, to_hundredths}
use retail_reconciliation_ag.Domain.Reading.{
  codes, is_space, drop_start, drop_end, cons_unless_space, strip, span_digits, value_from,
  take_sign, take_fraction, take_exponent, within_limits, build_number, read_number, read_decimal,
}
use retail_reconciliation_ag.Domain.Money.{to_money, or_zero}
use retail_reconciliation_ag.Domain.Money.Digits.{
  codes-append, codes-digit, IsDigit, value_from-snoc, span_digits-append, repr-Writes,
}
use retail_reconciliation_ag.Domain.Money.Rounding.{half_up_one, digit_count-le}

-- A digit or the point.
abbrev IsPlain : ℕ → Type 0
IsPlain c = (46 ≤ c) × (c ≤ 57)

not_space : (c : ℕ) → IsPlain c → is_space c ≡ false
unfolding is_space
not_space c h = ground arith

drop_start-plain : (cs : List ℕ) → All IsPlain cs → drop_start cs ≡ cs
unfolding drop_start
drop_start-plain [] h = refl
drop_start-plain (c ∷ cs) h = rw (not_space c h.0) refl

cons_unless_space-plain : (c : ℕ) (cs : List ℕ) → IsPlain c → cons_unless_space c cs ≡ c ∷ cs
unfolding cons_unless_space
cons_unless_space-plain c [] h = rw (not_space c h) refl
cons_unless_space-plain c (d ∷ ds) h = refl

drop_end-plain : (cs : List ℕ) → All IsPlain cs → drop_end cs ≡ cs
unfolding drop_end
drop_end-plain [] h = refl
drop_end-plain (c ∷ cs) h = rw (drop_end-plain cs h.1) (cons_unless_space-plain c cs h.0)

strip-plain : (cs : List ℕ) → All IsPlain cs → strip cs ≡ cs
unfolding strip
strip-plain cs h = rw (drop_start-plain cs h) (drop_end-plain cs h)

no_underscores : (cs : List ℕ) → All IsPlain cs → filter (λ c. not (c == 95)) cs ≡ cs
no_underscores [] h = refl
no_underscores (c ∷ cs) h = ground (arith, no_underscores cs h.1)

-- The text of an amount is digits, the point and two digits.
show_money-codes :
    (p : ℕ)
    → codes (show_money p) ≡ codes (repr (p / 100)) ++ 46 ∷ (48 + p % 100 / 10) ∷ (48 + p % 10) ∷ []
unfolding show_money text
show_money-codes p =
    rw
      (
        codes-append (repr (p / 100)),
        codes-append ".",
        codes-append (digit (p % 100 / 10)),
        codes-append (digit (p % 10)),
        codes-digit (p % 100 / 10) (omega arith),
        codes-digit (p % 10) (omega arith),
      )
      refl

digits-IsPlain : (cs : List ℕ) → All IsDigit cs → All IsPlain cs
digits-IsPlain cs h = All-imp _ _ (λ c d. (omega arith, d.1)) cs h

take_sign-digit : (c : ℕ) (cs : List ℕ) → IsDigit c → take_sign (c ∷ cs) ≡ (false, c ∷ cs)
unfolding take_sign
take_sign-digit c cs h = ground arith

span_digits-digits : (ds : List ℕ) → All IsDigit ds → span_digits ds ≡ (ds, [])
unfolding span_digits
span_digits-digits [] h = refl
span_digits-digits (d ∷ ds) h = rw (span_digits-digits ds h.1) (ground arith)

take_fraction-digits : (ds : List ℕ) → All IsDigit ds → take_fraction (46 ∷ ds) ≡ (ds, [])
unfolding take_fraction
take_fraction-digits ds h = span_digits-digits ds h

within_limits-small :
    (v : ℕ) → v < 10 ^ 28 → within_limits false v (negsuc 1) ≡ some (finite false v (negsuc 1))
unfolding within_limits
within_limits-small v small = ground (arith, digit_count-le 27 v small)

pub quantize-hundredths :
    (v : ℕ) → v < 10 ^ 28 → quantize (finite false v (negsuc 1)) ≡ quantized false v
unfolding quantize to_hundredths
quantize-hundredths v small = ground (arith, half_up_one v)

module _ (h : ℕ) (hs : List ℕ) (a b : ℕ) (front : All IsDigit (h ∷ hs))
    (back : All IsDigit (a ∷ b ∷ [])) where
  -- Digits, the point and two digits.
  abbrev written : List ℕ
  written = h ∷ hs ++ 46 ∷ a ∷ b ∷ []

  written-IsPlain : All IsPlain written
  written-IsPlain =
      All-append IsPlain (h ∷ hs) _ (digits-IsPlain (h ∷ hs) front)
        ((omega arith, omega arith), digits-IsPlain (a ∷ b ∷ []) back)

  read_number-written :
      value_from 0 ((h ∷ hs) ++ a ∷ b ∷ []) < 10 ^ 28
      → read_number false written
        ≡ some (finite false (value_from 0 ((h ∷ hs) ++ a ∷ b ∷ [])) (negsuc 1))
  unfolding read_number build_number take_exponent
  read_number-written small =
      rw
        (
          span_digits-append (h ∷ hs) 46 (a ∷ b ∷ []) front refl,
          take_fraction-digits (a ∷ b ∷ []) back,
        )
        (ground (arith, within_limits-small (value_from 0 ((h ∷ hs) ++ a ∷ b ∷ [])) small))

  read_decimal-written :
      value_from 0 ((h ∷ hs) ++ a ∷ b ∷ []) < 10 ^ 28
      → read_decimal written
        ≡ some (finite false (value_from 0 ((h ∷ hs) ++ a ∷ b ∷ [])) (negsuc 1))
  unfolding read_decimal
  read_decimal-written small =
      rw
        (
          strip-plain written written-IsPlain,
          no_underscores written written-IsPlain,
          take_sign-digit h (hs ++ 46 ∷ a ∷ b ∷ []) front.0,
          read_number-written small,
        )
        refl

  stripped-written : or_zero (strip written) ≡ written
  stripped-written = rw (strip-plain written written-IsPlain) refl

-- The value of the digits before the point with two more.
value_from-two :
    (ds : List ℕ) (a b : ℕ)
    → value_from 0 (ds ++ a ∷ b ∷ []) ≡ (value_from 0 ds * 10 + (a - 48)) * 10 + (b - 48)
value_from-two ds a b =
    ap (value_from 0) (sym (append_assoc ds (a ∷ []) (b ∷ [])))
    ∙ value_from-snoc 0 (ds ++ a ∷ []) b
    ∙ ap (λ v. v * 10 + (b - 48)) (value_from-snoc 0 ds a)

-- The text of an amount, in its parts.
record Parts (p : ℕ) : Type 0 where
  h : ℕ
  hs : List ℕ
  a : ℕ
  b : ℕ
  front : All IsDigit (h ∷ hs)
  back : All IsDigit (a ∷ b ∷ [])
  same : codes (show_money p) ≡ written h hs a b front back
  amount : value_from 0 ((h ∷ hs) ++ a ∷ b ∷ []) ≡ p

parts : (p : ℕ) → Parts p
parts p =
    let whole = repr-Writes (p / 100) in
    let a = 48 + p % 100 / 10 in
    let b = 48 + p % 10 in
    let ds : codes (repr (p / 100)) ≡ whole.head ∷ whole.tail = whole.filled in
    record {
      h = whole.head;
      hs = whole.tail;
      a = a;
      b = b;
      front = subst (All IsDigit) ds whole.digits;
      back = ((omega arith, omega arith), ((omega arith, omega arith), tt));
      same = show_money-codes p ∙ ap (λ cs. cs ++ 46 ∷ a ∷ b ∷ []) ds;
      amount =
          value_from-two (whole.head ∷ whole.tail) a b
          ∙ omega (arith, whole.value, ap (value_from 0) ds);
    }

-- `Decimal(str(amount))` is the amount, with two decimals.
pub read_decimal-show_money :
    (p : ℕ) → p < 10 ^ 28 → read_decimal (codes (show_money p)) ≡ some (finite false p (negsuc 1))
read_decimal-show_money p small =
    let t = parts p in
    ap read_decimal t.same
    ∙ read_decimal-written t.h t.hs t.a t.b t.front t.back (rw t.amount small)
    ∙ ap (λ v. some (finite false v (negsuc 1))) t.amount

-- An amount below 10 ^ 28 paise comes back as it is when `_to_money` reads the text that `str` writes
-- of it.
pub to_money-show_money :
    (paise : ℕ) → paise < 10 ^ 28 → to_money (codes (show_money paise)) ≡ quantized false paise
unfolding to_money
to_money-show_money p small =
    let t = parts p in
    let plain : or_zero (strip (codes (show_money p))) ≡ codes (show_money p) =
      ap (λ cs. or_zero (strip cs)) t.same
      ∙ stripped-written t.h t.hs t.a t.b t.front t.back
      ∙ sym t.same in
    rw (plain, read_decimal-show_money p small) (quantize-hundredths p small)
