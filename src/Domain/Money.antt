-- ===== src/Domain/Money.antt =====
-- src/reconcile/models/domain.py: `_to_money`, the type `Money`, and the default of `net_amount`.
pub mod Digits
pub mod Rounding
pub mod Texts
use retail_reconciliation_ag.Prelude.{
  ℕ, zero, suc, pos, List, [], ◌∷◌, Option, none, some, Bool, true, false, ltb, if◌then◌else◌,
}
use retail_reconciliation_ag.Domain.Decimal.{
  Decimal, finite, Quantized, quantized, not_a_number, invalid_operation, quantize, subtract,
}
use retail_reconciliation_ag.Domain.Reading.{codes, strip, read_decimal}

-- What pydantic makes of a cell for a field of the type `Money`, in paise: the amount; an error of
-- validation, for a negative amount or a NaN; or `InvalidOperation`, which is no `ValueError` and so
-- leaves the validation. A negative zero counts as zero.
pub data MoneyField : Type 0 where
  money : ℕ → MoneyField
  negative not_finite crashed : MoneyField

-- `Field(ge=Decimal("0"))`, and the finiteness that pydantic asks of a `Decimal`.
abbrev pub checked : Quantized → MoneyField
checked (quantized false paise) = money paise
checked (quantized true zero) = money 0
checked (quantized true (suc paise)) = negative
checked not_a_number = not_finite
checked invalid_operation = crashed

abbrev pub quantize_read : Option Decimal → Quantized
quantize_read none = invalid_operation
quantize_read (some d) = quantize d

-- `value.strip() or "0"`
abbrev pub or_zero : List ℕ → List ℕ
or_zero [] = codes "0"
or_zero (c ∷ cs) = c ∷ cs

-- `_to_money` of a text.
unfoldable pub to_money : List ℕ → Quantized
unfolding strip read_decimal quantize
to_money value = quantize_read (read_decimal (or_zero (strip value)))

abbrev pub money_field : List ℕ → MoneyField
money_field value = checked (to_money value)
