-- ===== src/Audit/Tables.antt =====
-- src/reconcile/models/db_models.py: the four tables. A row's time stamps are left out, and the
-- automatic ids are the positions in the lists.
use retail_reconciliation_ag.Prelude.{ℕ, Bool, String, List, [], Option}
use retail_reconciliation_ag.Prelude.Dict.{Dict}

-- What a JSON column holds.
pub data Json : Type 0 where
  number : ℕ → Json
  flag : Bool → Json
  string : String → Json
  counts : Dict String ℕ → Json

pub record RunLog : Type 0 where
  pub id : String
  pub status : String
  pub input_hash : Option String
  pub orders_count : ℕ
  pub settlements_count : ℕ
  pub summary_json : Option (Dict String Json)

pub record AuditLog : Type 0 where
  pub run_id : String
  pub order_id : Option String
  pub event_type : String
  pub action : Option String
  pub reason : Option String
  pub status : Option String
  pub details : Option (Dict String Json)

pub record NotificationLog : Type 0 where
  pub run_id : String
  pub mismatch_key : String
  pub recipient_role : String
  pub recipient_email : String
  pub channel : String
  pub status : String
  pub error : Option String

pub record ExceptionLog : Type 0 where
  pub mismatch_key : String
  pub run_id : String
  pub reason : String
  pub status : String

pub record Database : Type 0 where
  pub run_log : List RunLog
  pub audit_log : List AuditLog
  pub notification_log : List NotificationLog
  pub exception_log : List ExceptionLog

abbrev pub empty_database : Database
empty_database = record { run_log = []; audit_log = []; notification_log = []; exception_log = [] }
