-- ===== src/Incidents.antt =====
-- src/reconcile/incidents/models.py, severity.py and service.py. The store writes the incident to
-- files, which is left out; the id that it draws comes from outside of the program.
use retail_reconciliation_ag.Prelude.{
  String, List, [], ◌∷◌, ◌++◌, Option, none, some, Bool, not, ◌&&◌, ◌==◌, string_eq, Result,
  if◌then◌else◌, text, join, truthy, or_else,
}
use retail_reconciliation_ag.Domain.Enums.{StrEnum, value, IncidentSeverity, RecipientRole}
use retail_reconciliation_ag.Notifications.Service.{Transport, Mailbox, SendResult, dispatch}

pub data FailureType : Type 0 where
  invalid_input llm_unavailable email_failed planner_error config_error : FailureType
  unsupported_payment_type unknown : FailureType

instance abbrev pub failure_type_enum : StrEnum FailureType
failure_type_enum = record {
  value_of = elim [
    | invalid_input ↦ "INVALID_INPUT"
    | llm_unavailable ↦ "LLM_UNAVAILABLE"
    | email_failed ↦ "EMAIL_FAILED"
    | planner_error ↦ "PLANNER_ERROR"
    | config_error ↦ "CONFIG_ERROR"
    | unsupported_payment_type ↦ "UNSUPPORTED_PAYMENT_TYPE"
    | unknown ↦ "UNKNOWN"
  ];
}

instance abbrev pub incident_severity_enum : StrEnum IncidentSeverity
incident_severity_enum = record {
  value_of = elim [
    | IncidentSeverity.low ↦ "LOW"
    | IncidentSeverity.medium ↦ "MEDIUM"
    | IncidentSeverity.high ↦ "HIGH"
    | IncidentSeverity.critical ↦ "CRITICAL"
  ];
}

-- The time stamp is left out, and the status is OPEN for every incident that is raised.
pub record Incident : Type 0 where
  pub incident_id : String
  pub run_id : String
  pub severity : IncidentSeverity
  pub failure_type : FailureType
  pub root_cause : String
  pub remediation_recommendation : Option String
  pub order_id : Option String

unfoldable pub determine_severity : FailureType → IncidentSeverity
determine_severity config_error = IncidentSeverity.critical
determine_severity llm_unavailable = IncidentSeverity.high
determine_severity email_failed = IncidentSeverity.high
determine_severity planner_error = IncidentSeverity.high
determine_severity invalid_input = IncidentSeverity.medium
determine_severity unsupported_payment_type = IncidentSeverity.low
determine_severity unknown = IncidentSeverity.high

-- `if x: lines.append(...)`
abbrev pub line_for : String → Option String → List String
line_for label value = if truthy value then text (label ∷ or_else value "" ∷ []) ∷ [] else []

unfoldable pub incident_email_body : Incident → String
unfolding text join
incident_email_body incident = join "\n" (
    text (
        "An unrecoverable failure occurred during reconciliation run " ∷ incident.run_id ∷ "." ∷ [])
      ∷ ""
      ∷ text ("Incident:    " ∷ incident.incident_id ∷ [])
      ∷ text ("Severity:    " ∷ value incident.severity ∷ [])
      ∷ text ("Failure:     " ∷ value incident.failure_type ∷ [])
      ∷ text ("Root cause:  " ∷ incident.root_cause ∷ [])
      ∷ line_for "Order:       " incident.order_id
    ++ line_for "Remediation: " incident.remediation_recommendation)

-- `IncidentService`, with the ids that its store draws.
pub record IncidentService (N : Type 0) : Type 0 where
  pub new_incident_id : N → String × N
  pub admin_email : String
  pub notification_service : Option (Transport N)
  pub best_effort_email : Bool

module _ {N : Type 0} (service : IncidentService N) where
  -- The mail of `_notify_admin`; what it raises is caught.
  unfoldable pub mail_admin : Option (Transport N) → Incident → Mailbox N → Mailbox N
  unfolding dispatch incident_email_body text
  mail_admin none incident mailbox = mailbox
  mail_admin (some notifications) incident mailbox =
      let sent_mail : Result SendResult × Mailbox N =
        dispatch notifications incident.run_id (text ("incident:" ∷ incident.incident_id ∷ []))
          RecipientRole.admin service.admin_email
          (text (
            "["
            ∷ value incident.severity
            ∷ "] Reconciliation incident "
            ∷ incident.incident_id
            ∷ []))
          (incident_email_body incident) mailbox in
      if service.best_effort_email && not (service.admin_email == "") then sent_mail.1 else mailbox

  unfoldable pub raise_incident :
      String
      → FailureType
      → String
      → Option String
      → Option String
      → Mailbox N
      → Incident × Mailbox N
  unfolding determine_severity mail_admin
  raise_incident run_id failure_type root_cause order_id remediation mailbox =
      let (incident_id, provider) = service.new_incident_id mailbox.provider in
      let incident : Incident = record {
        incident_id = incident_id;
        run_id = run_id;
        severity = determine_severity failure_type;
        failure_type = failure_type;
        root_cause = root_cause;
        remediation_recommendation = remediation;
        order_id = order_id;
      } in
      (
        incident,
        mail_admin service.notification_service incident (record mailbox { provider = provider }),
      )
