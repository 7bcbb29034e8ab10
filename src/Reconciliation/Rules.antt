-- ===== src/Reconciliation/Rules.antt =====
-- src/reconcile/reconciliation/rules.py
use retail_reconciliation_ag.Prelude.{
  String, List, [], ◌∷◌, none, some, Result, ok, raise, key_error, ◌>>=◌, contains, if◌then◌else◌,
}
use retail_reconciliation_ag.Prelude.Dict.{Dict, get}
use retail_reconciliation_ag.Config.{AppConfig, for_role}
use retail_reconciliation_ag.Domain.Enums.{
  ExceptionReason, RecipientRole, store_manager, payment_gateway, admin, cash_missing,
  online_missing, late_settlement, amount_short, amount_excess, duplicate_settlement,
  unmatched_settlement, order_sum_mismatch, fuzzy_match_review, recipient_role_eq,
  exception_reason_eq,
}
use retail_reconciliation_ag.Domain.Keys.{make_mismatch_key}
use retail_reconciliation_ag.Domain.Records.{ExceptionRecord}

pub record RecipientTarget : Type 0 where
  pub role : RecipientRole
  pub email : String
  pub mismatch_key : String

abbrev pub default_routing : Dict ExceptionReason (List RecipientRole)
default_routing =
    (cash_missing, store_manager ∷ [])
    ∷ (online_missing, payment_gateway ∷ [])
    ∷ (late_settlement, payment_gateway ∷ [])
    ∷ (amount_short, payment_gateway ∷ store_manager ∷ [])
    ∷ (amount_excess, payment_gateway ∷ store_manager ∷ [])
    ∷ (duplicate_settlement, payment_gateway ∷ RecipientRole.bank ∷ [])
    ∷ (unmatched_settlement, RecipientRole.bank ∷ payment_gateway ∷ [])
    ∷ (order_sum_mismatch, store_manager ∷ [])
    ∷ (fuzzy_match_review, admin ∷ [])
    ∷ []

-- `DEFAULT_ROUTING[reason]`
unfoldable pub default_roles : ExceptionReason → Result (List RecipientRole)
unfolding get
default_roles reason = elim (get default_routing reason) [
  | none ↦ raise key_error
  | some roles ↦ ok roles
]

-- The `if` of `resolve_targets`.
unfoldable pub resolve_roles : ExceptionRecord → Result (List RecipientRole)
unfolding default_roles
resolve_roles exception = elim exception.responsible_party [
  | none ↦ default_roles exception.reason
  | some party ↦ ok (party ∷ [])
]

-- `hashlib.sha1`, as for `make_mismatch_key`.
module _ (sha1 : String → String) where
  abbrev pub target_for : AppConfig → ExceptionRecord → RecipientRole → RecipientTarget
  target_for config exception role = record {
    role = role;
    email = for_role config.recipients role exception.payment_gateway;
    mismatch_key =
        make_mismatch_key sha1 exception.reason exception.order_id exception.settlement_id
          exception.payment_type role;
  }

  -- The loop of `resolve_targets`, with the roles seen so far.
  unfoldable pub targets_from :
      AppConfig → ExceptionRecord → List RecipientRole → List RecipientRole → List RecipientTarget
  targets_from config exception seen [] = []
  targets_from config exception seen (role ∷ roles) =
      let skipped = targets_from config exception seen roles in
      let added =
        target_for config exception role ∷ targets_from config exception (role ∷ seen) roles in
      if contains seen role then skipped else added

  unfoldable pub resolve_targets : ExceptionRecord → AppConfig → Result (List RecipientTarget)
  unfolding resolve_roles targets_from
  resolve_targets exception config = do
    roles ← resolve_roles exception
    ok (targets_from config exception [] roles)
