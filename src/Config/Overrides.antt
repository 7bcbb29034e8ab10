-- ===== src/Config/Overrides.antt =====
-- The environment takes precedence over the YAML file (src/reconcile/config.py).
use retail_reconciliation_ag.Prelude.{
  String, Option, none, some, ◌≡◌, refl, arith, ◌==◌, string_eq, if◌then◌else◌,
}
use retail_reconciliation_ag.Prelude.Dict.{Dict, get, get_or, get-set}
use retail_reconciliation_ag.Domain.Enums.{PaymentGateway, RecipientRole, payment_gateway_eq}
use retail_reconciliation_ag.Config.{
  RecipientsConfig, RecipientSettings, for_role, apply_recipient_overrides, override_gateway,
  non_empty_or,
}

-- The variable of a gateway.
abbrev pub gateway_setting : RecipientSettings → PaymentGateway → String
gateway_setting settings PaymentGateway.razorpay = settings.recipient_pg_razorpay
gateway_setting settings PaymentGateway.payu = settings.recipient_pg_payu
gateway_setting settings PaymentGateway.cashfree = settings.recipient_pg_cashfree

-- The address that the role should have, by the precedence that the module states.
abbrev pub expected_address :
    RecipientsConfig → RecipientSettings → RecipientRole → Option PaymentGateway → String
expected_address recipients settings RecipientRole.store_manager gateway =
    non_empty_or settings.recipient_store_manager recipients.store_manager
expected_address recipients settings RecipientRole.bank gateway =
    non_empty_or settings.recipient_bank recipients.bank
expected_address recipients settings RecipientRole.payment_gateway (some gateway) =
    non_empty_or (gateway_setting settings gateway) (
      get_or recipients.payment_gateways gateway
        (non_empty_or settings.recipient_admin recipients.admin))
expected_address recipients settings _ gateway =
    non_empty_or settings.recipient_admin recipients.admin

get-override_gateway :
    (g h : PaymentGateway) (setting : String) (d : Dict PaymentGateway String)
    → get (override_gateway g setting d) h
      ≡ (if setting == "" then get d h else if g == h then some setting else get d h)
unfolding override_gateway
get-override_gateway g h setting d = ground (arith, get-set d g h setting)

get-overridden :
    (recipients : RecipientsConfig) (settings : RecipientSettings) (g : PaymentGateway)
    → get (apply_recipient_overrides recipients settings).payment_gateways g ≡ (
        if gateway_setting settings g == ""
        then get recipients.payment_gateways g
        else some (gateway_setting settings g))
unfolding apply_recipient_overrides
get-overridden recipients settings PaymentGateway.razorpay =
    simp get-override_gateway (ground arith)
get-overridden recipients settings PaymentGateway.payu = simp get-override_gateway (ground arith)
get-overridden recipients settings PaymentGateway.cashfree =
    simp get-override_gateway (ground arith)

admin-overridden :
    (recipients : RecipientsConfig) (settings : RecipientSettings)
    → (apply_recipient_overrides recipients settings).admin
      ≡ non_empty_or settings.recipient_admin recipients.admin
unfolding apply_recipient_overrides
admin-overridden recipients settings = refl

-- With the overrides applied, every role has the address of its variable if that is set, and else
-- the one of the file; a gateway without either has the address of the administrator, overridden or
-- not.
pub for_role-apply_recipient_overrides :
    (recipients : RecipientsConfig) (settings : RecipientSettings) (role : RecipientRole)
    (gateway : Option PaymentGateway)
    → for_role (apply_recipient_overrides recipients settings) role gateway
      ≡ expected_address recipients settings role gateway
unfolding for_role
for_role-apply_recipient_overrides recipients settings RecipientRole.store_manager gateway =
    unfold apply_recipient_overrides in refl
for_role-apply_recipient_overrides recipients settings RecipientRole.bank gateway =
    unfold apply_recipient_overrides in refl
for_role-apply_recipient_overrides recipients settings RecipientRole.admin gateway =
    unfold apply_recipient_overrides in refl
for_role-apply_recipient_overrides recipients settings RecipientRole.payment_gateway none =
    unfold apply_recipient_overrides in refl
for_role-apply_recipient_overrides recipients settings RecipientRole.payment_gateway
      (some gateway) =
    ground (arith, get-overridden recipients settings gateway, admin-overridden recipients settings)
