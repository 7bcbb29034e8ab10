-- ===== src/Domain/Decimal.antt =====
-- Python's `decimal`, as src/reconcile/models/domain.py uses it: numbers, subtraction, and rounding to
-- two decimals.
use retail_reconciliation_ag.Prelude.{
  ℕ, zero, suc, ◌+◌, ◌-◌, ◌*◌, ◌/◌, ◌%◌, ◌^◌, Option, none, some, Bool, true, false, not, ◌&&◌,
  ◌||◌, ltb, leb, ◌==◌, nat_eq, if◌then◌else◌, ℤ, pos, negsuc, pos_part, neg_part, sub_ℕ, leb_ℤ,
}

-- `nan` is quiet, `snan` signals. The value of `finite s c e` is c * 10 ^ e, negative if `s`.
pub data Decimal : Type 0 where
  finite : Bool → ℕ → ℤ → Decimal
  infinite : Bool → Decimal
  nan snan : Decimal

-- The number of decimal digits, 1 for 0; more rounds than digits are no harm.
unfoldable pub digits_loop : ℕ → ℕ → ℕ
digits_loop zero n = 1
digits_loop (suc rounds) n =
    let rest = digits_loop rounds (n / 10) in if ltb n 10 then 1 else suc rest

unfoldable pub digit_count : ℕ → ℕ
unfolding digits_loop
digit_count n = digits_loop n n

infixl 65 ◌+ℤ◌
abbrev pub ◌+ℤ◌ : ℤ → ℤ → ℤ
a +ℤ b = sub_ℕ (pos_part a + pos_part b) (neg_part a + neg_part b)

-- c / d to the nearest number, a tie upwards.
unfoldable pub half_up : ℕ → ℕ → ℕ
half_up c d = (2 * c + d) / (2 * d)

-- c * 10 ^ e in hundredths, a tie away from zero.
unfoldable pub to_hundredths : ℕ → ℤ → ℕ
unfolding half_up
to_hundredths c (pos e) = c * 10 ^ (e + 2)
to_hundredths c (negsuc zero) = c * 10
to_hundredths c (negsuc (suc n)) = half_up c (10 ^ n)

-- What becomes of an amount: a number of hundredths, negative or not; a quiet NaN; or
-- `InvalidOperation`.
pub data Quantized : Type 0 where
  quantized : Bool → ℕ → Quantized
  not_a_number invalid_operation : Quantized

-- `amount.quantize(Decimal("0.01"), rounding=ROUND_HALF_UP)`, with the precision of 28 digits.
unfoldable pub quantize : Decimal → Quantized
unfolding to_hundredths
quantize (finite negative c e) =
    if ltb (to_hundredths c e) (10 ^ 28)
    then quantized negative (to_hundredths c e)
    else invalid_operation
quantize (infinite negative) = invalid_operation
quantize nan = not_a_number
quantize snan = invalid_operation

abbrev pub max : ℕ → ℕ → ℕ
max a b = if leb a b then b else a

-- c / d to the nearest number, a tie to the even one.
unfoldable pub half_even : ℕ → ℕ → ℕ
half_even c d =
    let q = c / d in
    if ltb (2 * (c % d)) d then q else if 2 * (c % d) == d && (q % 2) == 0 then q else q + 1

-- One digit less, where rounding up has made 10 ^ 28.
abbrev pub carried : ℕ → ℤ → ℕ × ℤ
carried c e = if c == 10 ^ 28 then (10 ^ 27, e +ℤ pos 1) else (c, e)

-- A result in the default context: 28 digits, no exponent below -1000026, `Overflow` above 999999.
unfoldable pub fit : Bool → ℕ → ℤ → Option Decimal
unfolding digit_count half_even
fit negative c e =
    let lost =
      max (digit_count c - 28) (pos_part (sub_ℕ 0 1000026 +ℤ sub_ℕ (neg_part e) (pos_part e))) in
    let (c', e') = carried (if lost == 0 then c else half_even c (10 ^ lost)) (e +ℤ pos lost) in
    if c' == 0 || leb_ℤ (e' +ℤ pos (digit_count c' - 1)) (pos 999999)
    then some (finite negative c' e')
    else none

-- The coefficient of c * 10 ^ e at the exponent `low`, which is at most e.
abbrev pub at_exponent : ℕ → ℤ → ℤ → ℕ
at_exponent c e low = c * 10 ^ pos_part (e +ℤ sub_ℕ (neg_part low) (pos_part low))

-- The difference of two signed coefficients, with its sign; a zero is negative only as (-0) - 0.
abbrev pub difference : Bool → ℕ → Bool → ℕ → Bool × ℕ
difference true a true b = if leb b a then (not (a == b), a - b) else (false, b - a)
difference false a false b = if leb b a then (false, a - b) else (true, b - a)
difference true a false b = (true, a + b)
difference false a true b = (false, a + b)

-- `a - b`; `none` where it raises.
unfoldable pub subtract : Decimal → Decimal → Option Decimal
unfolding fit
subtract snan b = none
subtract nan snan = none
subtract nan b = some nan
subtract a snan = none
subtract a nan = some nan
subtract (finite s c e) (finite t d f) =
    let low = if leb_ℤ e f then e else f in
    let (negative, result) = difference s (at_exponent c e low) t (at_exponent d f low) in
    fit negative result low
subtract (infinite s) (finite t d f) = some (infinite s)
subtract (finite s c e) (infinite t) = some (infinite (not t))
subtract (infinite true) (infinite false) = some (infinite true)
subtract (infinite false) (infinite true) = some (infinite false)
subtract (infinite true) (infinite true) = none
subtract (infinite false) (infinite false) = none
