-- ===== src/Reconciliation/Sla.antt =====
-- src/reconcile/reconciliation/sla.py
use retail_reconciliation_ag.Prelude.{ℕ, Option, none, some, ℤ, sub_ℕ, leb_ℤ, if◌then◌else◌}
use retail_reconciliation_ag.Prelude.Dict.{Dict, get}
use retail_reconciliation_ag.Domain.Enums.{
  PaymentType, SlaStatus, within_sla, breached, na, is_online, payment_type_eq,
}
use retail_reconciliation_ag.Domain.Records.{Obligation}

unfoldable pub compute_age_days : ℕ → ℕ → ℤ
compute_age_days order_date as_of_date = sub_ℕ as_of_date order_date

-- The test on the grace of the payment type, `None` where none is configured.
unfoldable pub within_grace : Option ℤ → ℤ → SlaStatus
within_grace none age = na
within_grace (some grace) age = if leb_ℤ age grace then within_sla else breached

unfoldable pub sla_status : Obligation → ℕ → Dict PaymentType ℤ → SlaStatus × ℤ
unfolding compute_age_days within_grace is_online
sla_status obligation as_of_date grace_days =
    let age = compute_age_days obligation.order_date as_of_date in
    if is_online obligation.payment_type
    then (within_grace (get grace_days obligation.payment_type) age, age)
    else (na, age)
