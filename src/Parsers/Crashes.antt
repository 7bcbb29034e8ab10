-- ===== src/Parsers/Crashes.antt =====
-- What `read_orders` does with an amount that is no number (src/reconcile/parsers,
-- src/reconcile/models/domain.py).
use retail_reconciliation_ag.Prelude.{
  ℕ, suc, String, List, [], ◌∷◌, ◌++◌, Option, some, false, string_eq, ◌≡◌, refl,
}
use retail_reconciliation_ag.Prelude.Dict.{Dict, get}
use retail_reconciliation_ag.Domain.Decimal.{invalid_operation}
use retail_reconciliation_ag.Domain.Reading.{codes}
use retail_reconciliation_ag.Domain.Money.{to_money}
use retail_reconciliation_ag.Parsers.Base.{
  parsed, raised, Source, Frame, Pandas, load_dataframe, require_columns,
}
use retail_reconciliation_ag.Parsers.Rows.{
  Validated, valid, invalid, crashed, Rows, collected, broke_off, add_row, validate_from,
  finish_rows, is_empty, payloads_of, validate_rows,
}
use retail_reconciliation_ag.Parsers.Fields.{Pydantic, ◌⊗◌, required, read_amount, or_issue}
use retail_reconciliation_ag.Parsers.Models.{validate_order}
use retail_reconciliation_ag.Parsers.Readers.{orders_required, orders_field_map, read_orders}

both-crashed :
    {A : Type 0} (B : Type 0) (v : Validated A) → ◌≡◌ {A = Validated (A × B)} (v ⊗ crashed) crashed
both-crashed B (valid a) = refl
both-crashed B (invalid i is) = refl
both-crashed B crashed = refl

module _ {A : Type 0} (validate : Dict String String → Validated A) where
  add_row-broke_off : (n : ℕ) (v : Validated A) → add_row n v broke_off ≡ broke_off
  add_row-broke_off n (valid a) = refl
  add_row-broke_off n (invalid i is) = refl
  add_row-broke_off n crashed = refl

  add_row-crashed : (n : ℕ) (rest : Rows A) → add_row n crashed rest ≡ broke_off
  add_row-crashed n (collected rows errors) = refl
  add_row-crashed n broke_off = refl

  validate_from-crashed :
      (n : ℕ) (before after : List (Dict String String)) (payload : Dict String String)
      → validate payload ≡ crashed
      → validate_from validate n (before ++ payload ∷ after) ≡ broke_off
  unfolding validate_from
  validate_from-crashed n [] after payload h =
      rw h (add_row-crashed n (validate_from validate (suc n) after))
  validate_from-crashed n (q ∷ before) after payload h =
      rw (validate_from-crashed (suc n) before after payload h) (add_row-broke_off n (validate q))

validate_order-crashed :
    (lib : Pydantic) (payload : Dict String String) (cell : String)
    → get payload "amount" ≡ some cell
    → to_money (codes cell) ≡ invalid_operation
    → validate_order lib payload ≡ crashed
unfolding validate_order
validate_order-crashed lib payload cell h k =
    let amount : required lib payload "amount" (read_amount lib "amount") ≡ crashed =
      rw (h, k) refl in
    rw amount (
      rw (both-crashed _ (required lib payload "store_id" valid)) (
        rw
          (both-crashed _ (
            required lib payload "order_date"
              (λ c. or_issue lib "order_date" (some c) (lib.read_date c))))
          (rw (both-crashed _ (required lib payload "order_id" valid)) refl)))

-- Where `Decimal` cannot read the amount of some row, as for "1,200", `read_orders` raises neither
-- `ParseError` nor any error with a row number, however the other rows are: `InvalidOperation` passes
-- through the validation.
pub read_orders-raised :
    (pandas : Pandas) (lib : Pydantic) (show : String → String) (source : Source)
    (filename : Option String)
    → (frame : Frame) (before after : List (Dict String String)) (payload : Dict String String)
      (cell : String)
    → load_dataframe pandas show source filename ≡ parsed frame
    → require_columns frame orders_required "Orders file" ≡ parsed tt
    → is_empty frame ≡ false
    → payloads_of orders_field_map frame ≡ before ++ payload ∷ after
    → get payload "amount" ≡ some cell
    → to_money (codes cell) ≡ invalid_operation
    → read_orders pandas lib show source filename ≡ raised
unfolding read_orders validate_rows
read_orders-raised pandas lib show source filename frame before after payload cell opened complete
      filled split h k =
    rw
      (
        opened,
        complete,
        filled,
        split,
        validate_from-crashed (validate_order lib) 0 before after payload
            (validate_order-crashed lib payload cell h k),
      )
      (unfold finish_rows in refl)
