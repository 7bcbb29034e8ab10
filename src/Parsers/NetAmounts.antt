-- ===== src/Parsers/NetAmounts.antt =====
-- The default of `net_amount` (src/reconcile/models/domain.py).
use retail_reconciliation_ag.Prelude.{
  ℕ, ◌-◌, ◌^◌, ◌<◌, ◌≤◌, String, Option, none, some, false, show_money, string_eq, ◌≡◌, ◌⊎◌, inl,
  inr, refl, arith, pos, negsuc,
}
use retail_reconciliation_ag.Prelude.Dict.{Dict, get}
use retail_reconciliation_ag.Domain.Decimal.{Decimal, finite, subtract, fit}
use retail_reconciliation_ag.Domain.Reading.{codes, read_decimal}
use retail_reconciliation_ag.Domain.Money.Rounding.{digit_count-le}
use retail_reconciliation_ag.Domain.Money.Texts.{read_decimal-show_money, quantize-hundredths}
use retail_reconciliation_ag.Parsers.Rows.{valid}
use retail_reconciliation_ag.Parsers.Fields.{Pydantic}
use retail_reconciliation_ag.Parsers.Models.{fee_of, default_net, net_amount_of, read_net}

fit-small : (c : ℕ) → c < 10 ^ 28 → fit false c (negsuc 1) ≡ some (finite false c (negsuc 1))
unfolding fit
fit-small c h = ground (arith, digit_count-le 27 c h)

subtract-hundredths :
    (a f : ℕ)
    → a < 10 ^ 28
    → f ≤ a
    → subtract (finite false a (negsuc 1)) (finite false f (negsuc 1))
      ≡ some (finite false (a - f) (negsuc 1))
unfolding subtract
subtract-hundredths a f small le = ground (arith, fit-small (a - f) (omega arith))

subtract-nothing :
    (a : ℕ)
    → a < 10 ^ 28
    → subtract (finite false a (negsuc 1)) (finite false 0 (pos 0))
      ≡ some (finite false a (negsuc 1))
unfolding subtract
subtract-nothing a small = ground (arith, fit-small a small)

default_net-difference :
    (lib : Pydantic) (amount rest : ℕ) (fee : Option String) (d : Decimal)
    → amount < 10 ^ 28
    → rest ≤ amount
    → read_decimal (codes (fee_of fee)) ≡ some d
    → subtract (finite false amount (negsuc 1)) d ≡ some (finite false rest (negsuc 1))
    → read_net lib (default_net none (some (show_money amount)) fee) ≡ valid rest
unfolding default_net
default_net-difference lib amount rest fee d small le reads less =
    rw (read_decimal-show_money amount small, reads, less, quantize-hundredths rest (omega arith))
      refl

-- A settlement without a net amount, whose amount and fee are written with two decimals, gets the
-- amount less the fee, where this is not negative and the amount is below 10 ^ 28 paise. Without a fee
-- it gets the amount.
pub net_amount_of-difference :
    (lib : Pydantic) (payload : Dict String String) (amount fee : ℕ)
    → amount < 10 ^ 28
    → fee ≤ amount
    → get payload "net_amount" ≡ none
    → get payload "amount" ≡ some (show_money amount)
    → ((get payload "fee" ≡ some (show_money fee)) ⊎ ((get payload "fee" ≡ none) × (fee ≡ 0)))
    → read_net lib (net_amount_of payload) ≡ valid (amount - fee)
unfolding net_amount_of
net_amount_of-difference lib payload amount fee small le no_net has_amount (inl has_fee) =
    rw (no_net, has_amount, has_fee)
      (default_net-difference lib amount (amount - fee) (some (show_money fee)) _ small
        (omega arith) (read_decimal-show_money fee (omega arith))
        (subtract-hundredths amount fee small le))
net_amount_of-difference lib payload amount fee small le no_net has_amount (inr (no_fee, free)) =
    rw (no_net, has_amount, no_fee, free)
      (default_net-difference lib amount (amount - 0) none (finite false 0 (pos 0)) small
        (omega arith) (unfold read_decimal in refl)
        (rw (sub_zero amount) (subtract-nothing amount small)))
  where
    sub_zero : (n : ℕ) → n - 0 ≡ n
    sub_zero n = omega arith
