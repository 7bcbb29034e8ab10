-- ===== src/Domain/Keys.antt =====
-- src/reconcile/models/domain.py: the identifiers of obligations and of routed exceptions.
use retail_reconciliation_ag.Prelude.{
  ℕ, String, [], ◌∷◌, Option, none, some, or_else, text, join, repr,
}
use retail_reconciliation_ag.Domain.Enums.{
  PaymentType, RecipientRole, ExceptionReason, value, payment_type_enum, recipient_role_enum,
  exception_reason_enum,
}

unfoldable pub make_obligation_id : String → PaymentType → Option String → ℕ → String
unfolding text repr
make_obligation_id order_id payment_type gateway_txn_id seq =
    or_else gateway_txn_id (text (order_id ∷ ":" ∷ value payment_type ∷ ":" ∷ repr seq ∷ []))

-- `PAYMENT_TYPE_WILDCARD`
abbrev pub payment_type_wildcard : String
payment_type_wildcard = "*"

abbrev payment_value : Option PaymentType → String
payment_value none = payment_type_wildcard
payment_value (some p) = value p

-- The text that `make_mismatch_key` hashes.
unfoldable pub raw_key :
    ExceptionReason → Option String → Option String → Option PaymentType → RecipientRole → String
unfolding join
raw_key reason order_id settlement_id payment_type recipient_role = join "|" (
    value reason
    ∷ or_else order_id ""
    ∷ or_else settlement_id ""
    ∷ payment_value payment_type
    ∷ value recipient_role
    ∷ [])

-- `sha1` is `hashlib.sha1(raw.encode("utf-8")).hexdigest()`.
module _ (sha1 : String → String) where
  unfoldable pub make_mismatch_key :
      ExceptionReason → Option String → Option String → Option PaymentType → RecipientRole → String
  unfolding raw_key
  make_mismatch_key reason order_id settlement_id payment_type recipient_role =
      sha1 (raw_key reason order_id settlement_id payment_type recipient_role)
