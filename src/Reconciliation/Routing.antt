-- ===== src/Reconciliation/Routing.antt =====
-- Whom `resolve_targets` routes an exception to (src/reconcile/reconciliation/rules.py).
use retail_reconciliation_ag.Prelude.{
  Bool, ◌||◌, String, List, [], ◌∷◌, map, Option, none, some, false, ok, ◌≡◌, ◌≢◌, refl, ap, arith,
  contains,
}
use retail_reconciliation_ag.Config.{AppConfig, for_role}
use retail_reconciliation_ag.Domain.Enums.{
  ExceptionReason, RecipientRole, recipient_role_eq, cash_missing, online_missing, late_settlement,
  amount_short, amount_excess, duplicate_settlement, unmatched_settlement, order_sum_mismatch,
  fuzzy_match_review, store_manager, payment_gateway, admin,
}
use retail_reconciliation_ag.Domain.Keys.{make_mismatch_key}
use retail_reconciliation_ag.Domain.Records.{ExceptionRecord}
use retail_reconciliation_ag.Reconciliation.Rules.{
  default_roles, resolve_roles, target_for, targets_from, resolve_targets,
}

-- No role is repeated: a test on lists.
abbrev pub repeats : List RecipientRole → List RecipientRole → Bool
repeats seen [] = false
repeats seen (role ∷ roles) = contains seen role || repeats (role ∷ seen) roles

-- Who is told about an exception: the responsible party, or else these roles.
abbrev pub routed_to : Option RecipientRole → ExceptionReason → List RecipientRole
routed_to (some party) reason = party ∷ []
routed_to none cash_missing = store_manager ∷ []
routed_to none order_sum_mismatch = store_manager ∷ []
routed_to none online_missing = payment_gateway ∷ []
routed_to none late_settlement = payment_gateway ∷ []
routed_to none amount_short = payment_gateway ∷ store_manager ∷ []
routed_to none amount_excess = payment_gateway ∷ store_manager ∷ []
routed_to none duplicate_settlement = payment_gateway ∷ RecipientRole.bank ∷ []
routed_to none unmatched_settlement = RecipientRole.bank ∷ payment_gateway ∷ []
routed_to none fuzzy_match_review = admin ∷ []

default_roles_lem :
    (reason : ExceptionReason)
    → (default_roles reason ≡ ok (routed_to none reason))
      × (repeats [] (routed_to none reason) ≡ false)
      × (routed_to none reason ≢ [])
unfolding default_roles
default_roles_lem cash_missing = (refl, refl, λ h. cc)
default_roles_lem _ = (refl, refl, λ h. cc)

resolve_roles_lem :
    (e : ExceptionRecord)
    → (resolve_roles e ≡ ok (routed_to e.responsible_party e.reason))
      × (repeats [] (routed_to e.responsible_party e.reason) ≡ false)
      × (routed_to e.responsible_party e.reason ≢ [])
unfolding resolve_roles
resolve_roles_lem e = go e.responsible_party
  where
    go :
        (party : Option RecipientRole)
        → ((elim party [ none ↦ default_roles e.reason | some p ↦ ok (p ∷ []) ])
            ≡ ok (routed_to party e.reason))
          × (repeats [] (routed_to party e.reason) ≡ false)
          × (routed_to party e.reason ≢ [])
    go none = default_roles_lem e.reason
    go (some p) = (refl, refl, λ h. cc)

module _ (sha1 : String → String) (config : AppConfig) (e : ExceptionRecord) where
  targets_from-map :
      (seen roles : List RecipientRole)
      → repeats seen roles ≡ false
      → targets_from sha1 config e seen roles ≡ map (target_for sha1 config e) roles
  unfolding targets_from
  targets_from-map seen [] h = refl
  targets_from-map seen (role ∷ roles) h = ground (arith, targets_from-map (role ∷ seen) roles)

  -- Routing never fails. It gives the responsible party alone where the exception names one, and else
  -- the roles that the table has for its reason, at least one, in order and none left out; each target
  -- has the address that the configuration gives the role for the exception's gateway, and the
  -- mismatch key of the exception for that role.
  pub resolve_targets_lem :
      (resolve_targets sha1 e config
        ≡ ok (
            map
              (λ role. record {
                role = role;
                email = for_role config.recipients role e.payment_gateway;
                mismatch_key =
                    make_mismatch_key sha1 e.reason e.order_id e.settlement_id e.payment_type role;
              })
              (routed_to e.responsible_party e.reason)))
      × (routed_to e.responsible_party e.reason ≢ [])
  unfolding resolve_targets
  resolve_targets_lem =
      let (resolved, single, filled) = resolve_roles_lem e in
      (rw resolved (ap ok (targets_from-map [] _ single)), filled)
