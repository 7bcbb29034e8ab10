-- ===== src/Parsers/Fields.antt =====
-- How pydantic validates a field (src/reconcile/models/domain.py).
use retail_reconciliation_ag.Prelude.{
  ℕ, String, List, [], ◌∷◌, ◌++◌, Option, none, some, ◌==◌, string_eq, if◌then◌else◌,
}
use retail_reconciliation_ag.Prelude.Dict.{Dict, get}
use retail_reconciliation_ag.Domain.Enums.{
  StrEnum, value, PaymentType, PaymentGateway, OrderStatus, SettlementSource, RecipientRole,
  payment_type_enum, payment_gateway_enum, settlement_source_enum, recipient_role_enum,
  order_status_enum,
}
use retail_reconciliation_ag.Domain.Reading.{codes}
use retail_reconciliation_ag.Domain.Money.{
  MoneyField, money, negative, not_finite, to_money, money_field, checked,
}
use retail_reconciliation_ag.Domain.Money as M
use retail_reconciliation_ag.Parsers.Rows.{Validated, valid, invalid, crashed}

-- What pydantic does by itself: it reads a date, and words the error for a field and its text.
pub record Pydantic : Type 0 where
  pub read_date : String → Option ℕ
  pub message : String → Option String → String

abbrev pub and_then {ℓ κ} :
    {A : Type ℓ} {B : Type κ} → Validated A → (A → Validated B) → Validated B
and_then (valid a) f = f a
and_then (invalid issue issues) f = invalid issue issues
and_then crashed f = crashed

-- The next field; each is validated, whatever the errors of those before it.
infixr 5 ◌⊗◌
abbrev pub ◌⊗◌ {ℓ κ} : {A : Type ℓ} {B : Type κ} → Validated A → Validated B → Validated (A × B)
valid a ⊗ valid b = valid (a, b)
valid a ⊗ invalid issue issues = invalid issue issues
invalid issue issues ⊗ valid b = invalid issue issues
invalid issue issues ⊗ invalid more rest = invalid issue (issues ++ more ∷ rest)
valid a ⊗ crashed = crashed
invalid issue issues ⊗ crashed = crashed
crashed ⊗ rest = crashed

-- The member of an enumeration with a value.
abbrev pub member_of : {A : Type 0} ⦃s : StrEnum A⦄ → List A → String → Option A
member_of [] cell = none
member_of (a ∷ members) cell =
    let rest = member_of members cell in if value a == cell then some a else rest

abbrev pub payment_types : List PaymentType
payment_types =
    PaymentType.cash ∷ PaymentType.upi ∷ PaymentType.card ∷ PaymentType.netbanking
    ∷ PaymentType.wallet ∷ []

abbrev pub gateways : List PaymentGateway
gateways = PaymentGateway.razorpay ∷ PaymentGateway.payu ∷ PaymentGateway.cashfree ∷ []

abbrev pub roles : List RecipientRole
roles =
    RecipientRole.store_manager ∷ RecipientRole.payment_gateway ∷ RecipientRole.bank
    ∷ RecipientRole.admin ∷ []

abbrev pub sources : List SettlementSource
sources =
    SettlementSource.bank ∷ SettlementSource.razorpay ∷ SettlementSource.payu
    ∷ SettlementSource.cashfree ∷ []

abbrev pub statuses : List OrderStatus
statuses = OrderStatus.placed ∷ OrderStatus.cancelled ∷ []

abbrev pub some_valid : {A : Type 0} → Validated A → Validated (Option A)
some_valid v = and_then v (λ a. valid (some a))

module _ (lib : Pydantic) where
  abbrev pub issue_at : {A : Type 0} → String → Option String → Validated A
  issue_at field cell = invalid (record { location = field; message = lib.message field cell }) []

  abbrev pub or_issue : {A : Type 0} → String → Option String → Option A → Validated A
  or_issue field cell (some a) = valid a
  or_issue field cell none = issue_at field cell

  -- A field that has to be there.
  abbrev pub read_required :
      {A : Type 0} → String → (String → Validated A) → Option String → Validated A
  read_required field read none = issue_at field none
  read_required field read (some cell) = read cell

  abbrev pub required :
      {A : Type 0} → Dict String String → String → (String → Validated A) → Validated A
  required payload field read = read_required field read (get payload field)

  -- A field with a default.
  abbrev pub read_optional : {A : Type 0} → A → (String → Validated A) → Option String → Validated A
  read_optional default read none = valid default
  read_optional default read (some cell) = read cell

  abbrev pub optional :
      {A : Type 0} → Dict String String → String → A → (String → Validated A) → Validated A
  optional payload field default read = read_optional default read (get payload field)

  abbrev pub read_member : {A : Type 0} ⦃s : StrEnum A⦄ → List A → String → String → Validated A
  read_member members field cell = or_issue field (some cell) (member_of members cell)

  abbrev pub optional_text : Dict String String → String → Validated (Option String)
  optional_text payload field = optional payload field none (λ cell. valid (some cell))

  abbrev pub of_money : String → Option String → MoneyField → Validated ℕ
  of_money field cell (money paise) = valid paise
  of_money field cell negative = issue_at field cell
  of_money field cell not_finite = issue_at field cell
  of_money field cell M.crashed = crashed

  abbrev pub read_amount : String → String → Validated ℕ
  read_amount field cell = of_money field (some cell) (money_field (codes cell))
