-- ===== src/Tests/Routing.antt =====
-- Routing, addresses and the life of exceptions on test data.
use retail_reconciliation_ag.Prelude.{
  String, [], ◌∷◌, map, some, ◌≡◌, ◌≢◌, refl, ok, length, filter, if◌then◌else◌,
}
use retail_reconciliation_ag.Domain.Enums.{RecipientRole, PaymentGateway}
use retail_reconciliation_ag.Config.{for_role, apply_recipient_overrides}
use retail_reconciliation_ag.Config.Overrides.{expected_address, for_role-apply_recipient_overrides}
use retail_reconciliation_ag.Reconciliation.Rules.{resolve_targets}
use retail_reconciliation_ag.Domain.Keys.{make_mismatch_key}
use retail_reconciliation_ag.Reconciliation.Routing.{routed_to, resolve_targets_lem}
use retail_reconciliation_ag.Audit.Tables.{Database, ExceptionLog, empty_database}
use retail_reconciliation_ag.Audit.Repository.{find_exception}
use retail_reconciliation_ag.Audit.Lifecycle.{mark_resolved}
use retail_reconciliation_ag.Audit.Resolution.{
  is_gone, mark_resolved_lem, find_exception-mark_resolved,
}
use retail_reconciliation_ag.Tests.{plain, config, late, recipients, settings}

resolve_targets_example :
    (resolve_targets plain late config
      ≡ ok (
          map
            (λ role. record {
              role = role;
              email = for_role config.recipients role late.payment_gateway;
              mismatch_key =
                  make_mismatch_key plain late.reason late.order_id late.settlement_id
                    late.payment_type role;
            })
            (routed_to late.responsible_party late.reason)))
    × (routed_to late.responsible_party late.reason ≢ [])
resolve_targets_example = resolve_targets_lem plain config late

for_role_example :
    for_role
      (apply_recipient_overrides recipients settings)
      RecipientRole.payment_gateway
      (some PaymentGateway.razorpay)
    ≡ expected_address recipients settings RecipientRole.payment_gateway
        (some PaymentGateway.razorpay)
for_role_example =
    for_role-apply_recipient_overrides recipients settings RecipientRole.payment_gateway
      (some PaymentGateway.razorpay)

abbrev row : String → String → ExceptionLog
row key status = record {
  mismatch_key = key;
  run_id = "r1";
  reason = "ONLINE_MISSING";
  status = status;
}

abbrev db : Database
db = record empty_database {
  exception_log = row "k1" "OPEN" ∷ row "k2" "ESCALATED" ∷ row "k3" "RESOLVED" ∷ [];
}

mark_resolved_example :
    ((mark_resolved "r2" ("k1" ∷ []) db).0 ≡ length (filter (is_gone ("k1" ∷ [])) db.exception_log))
    × ((mark_resolved "r2" ("k1" ∷ []) db).1 ≡ record db {
      exception_log =
          map
            (λ row.
              if is_gone ("k1" ∷ []) row
              then record row { status = "RESOLVED"; run_id = "r2" }
              else row)
            db.exception_log;
    })
    × ((again : String)
        → (mark_resolved again ("k1" ∷ []) (mark_resolved "r2" ("k1" ∷ []) db).1).0 ≡ 0)
mark_resolved_example = mark_resolved_lem "r2" ("k1" ∷ []) db

find_exception-mark_resolved_example :
    find_exception "k1" (mark_resolved "r2" ("k1" ∷ []) db).1.exception_log
    ≡ find_exception "k1" db.exception_log
find_exception-mark_resolved_example = find_exception-mark_resolved "r2" ("k1" ∷ []) "k1" db refl
