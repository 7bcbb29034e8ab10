-- ===== src/Api/Routes.antt =====
-- src/reconcile/api/routes.py. The id of a run and the date that a request draws are arguments; the
-- thread that a request starts is a `Job`, which `worker` runs. Templates are named by their pages.
use retail_reconciliation_ag.Prelude.{
  ℕ, ◌*◌, String, List, [], ◌∷◌, ◌++◌, length, Option, none, some, Bool, true, false, not, ◌||◌,
  ltb, ◌==◌, string_eq, or_else, text, Result, ok, raise, if◌then◌else◌,
}
use retail_reconciliation_ag.Prelude.Dict.{Dict}
use retail_reconciliation_ag.Domain.Records.{Order, Settlement}
use retail_reconciliation_ag.Audit.Tables.{RunLog, AuditLog, NotificationLog}
use retail_reconciliation_ag.Notifications.Service.{Mailbox}
use retail_reconciliation_ag.Parsers.Base.{
  Parsed, parsed, parse_error, raised, then_parse, Source, bytes, path, Pandas,
}
use retail_reconciliation_ag.Parsers.Fields.{Pydantic}
use retail_reconciliation_ag.Parsers.Readers.{read_orders, read_settlements}
use retail_reconciliation_ag.Incidents.{IncidentService, invalid_input, raise_incident}
use retail_reconciliation_ag.Agent.State.{AgentDependencies}
use retail_reconciliation_ag.Agent.Service.{RunOutcome, run}
use retail_reconciliation_ag.Api.Registry.{RunRecord, start, set_outcome, set_error}
use retail_reconciliation_ag.Api.Progress.{Progress}

-- The context of the application, with the libraries that it stands on: `sha256` gives the hexadecimal
-- digest, and `show` is `repr` of a text.
pub record Server (N : Type 0) : Type 0 where
  pub demo_access_key : String
  pub max_entries : ℕ
  pub deps : AgentDependencies N
  pub incidents : IncidentService N
  pub pandas : Pandas
  pub pydantic : Pydantic
  pub show : String → String
  pub sha256 : List ℕ → String
  pub samples_dir : String

-- The registry, and the tables with what is outside of the program.
pub record Web (N : Type 0) : Type 0 where
  pub registry : Dict String RunRecord
  pub mailbox : Mailbox N

pub record RunDetail : Type 0 where
  pub run_row : RunLog
  pub events : List AuditLog
  pub notifications : List NotificationLog

pub data Response : Type 0 where
  progress_page : String → Bool → Response
  results : RunOutcome → Bool → Response
  error_page : ℕ → String → List String → Option String → Response
  progress_info : Progress → Response
  run_info : RunDetail → Response
  http_error : ℕ → String → Response
  server_error : Response

-- The form of `POST /reconcile`, with the header `X-Demo-Key`.
pub record Upload : Type 0 where
  pub demo_header : Option String
  pub demo_key : String
  pub orders_name : Option String
  pub orders_bytes : List ℕ
  pub settlements_name : Option String
  pub settlements_bytes : List ℕ
  pub dry_run : Bool

-- The arguments of `_worker`.
pub record Job : Type 0 where
  pub run_id : String
  pub orders : List Order
  pub settlements : List Settlement
  pub as_of : ℕ
  pub is_dry_run : Bool
  pub input_hash : Option String

-- A response, the thread that it starts, and what it leaves.
pub record Answer (N : Type 0) : Type 0 where
  pub response : Response
  pub thread : Option Job
  pub web : Web N

abbrev pub max_upload_bytes : ℕ
max_upload_bytes = 5 * 1024 * 1024

-- `compute_input_hash` (src/reconcile/audit/idempotency.py); 124 is the byte "|".
abbrev pub compute_input_hash : (List ℕ → String) → List ℕ → List ℕ → String
compute_input_hash sha256 orders settlements = sha256 (orders ++ 124 ∷ settlements)

-- `_check_size`, true where it raises.
abbrev pub is_too_large : List ℕ → List ℕ → Bool
is_too_large orders settlements =
    ltb max_upload_bytes (length orders) || ltb max_upload_bytes (length settlements)

-- `_check_demo_key`, true where it raises.
unfoldable pub is_locked : String → Option String → String → Bool
is_locked required header form_key =
    if required == "" then false else not (or_else header form_key == required)

abbrev pub refuse : {N : Type 0} → Response → Web N → Answer N
refuse response web = record { response = response; thread = none; web = web }

module _ {N : Type 0} (server : Server N) where
  -- `_start_background_run`, which answers with the page for the progress.
  unfoldable pub start_background_run : Job → Bool → Web N → Answer N
  unfolding start
  start_background_run job demo web = record {
    response = progress_page job.run_id demo;
    thread = some job;
    web = record web { registry = start server.max_entries job.run_id demo web.registry };
  }

  -- What `_worker` does with the end of a run.
  unfoldable pub finish_job : String → Dict String RunRecord → Result RunOutcome × Mailbox N → Web N
  unfolding set_outcome set_error
  finish_job run_id registry (ok outcome, mailbox) = record {
    registry = set_outcome run_id outcome registry;
    mailbox = mailbox;
  }
  finish_job run_id registry (raise e, mailbox) = record {
    registry = set_error run_id (server.deps.str_error e) registry;
    mailbox = mailbox;
  }

  unfoldable pub worker : Job → Web N → Web N
  unfolding finish_job run
  worker job web = finish_job job.run_id web.registry (
      run server.deps server.incidents job.orders job.settlements job.run_id job.as_of
        job.input_hash job.is_dry_run web.mailbox)

  -- The two readers, in a row.
  unfoldable pub read_files :
      Source → Option String → Source → Option String → Parsed (List Order × List Settlement)
  unfolding read_orders read_settlements
  read_files orders orders_name settlements settlements_name =
      then_parse (read_orders server.pandas server.pydantic server.show orders orders_name) (λ os.
        then_parse
          (read_settlements server.pandas server.pydantic server.show settlements settlements_name)
          (λ ss. parsed (os, ss)))

  -- The incident and the page for a file that cannot be parsed.
  unfoldable pub reject_files : String → String → List String → Web N → Answer N
  unfolding raise_incident
  reject_files run_id message errors web =
      let (incident, mailbox) =
        raise_incident server.incidents run_id invalid_input message none
          (some "Fix the highlighted rows and re-upload.") web.mailbox in
      refuse (error_page 400 message errors (some incident.incident_id))
        (record web { mailbox = mailbox })

  unfoldable pub accept_files :
      Upload → String → ℕ → Parsed (List Order × List Settlement) → Web N → Answer N
  unfolding start_background_run reject_files
  accept_files upload run_id today (parsed (os, ss)) web =
      start_background_run
        (record {
          run_id = run_id;
          orders = os;
          settlements = ss;
          as_of = today;
          is_dry_run = upload.dry_run;
          input_hash =
              some (compute_input_hash server.sha256 upload.orders_bytes upload.settlements_bytes);
        })
        false web
  accept_files upload run_id today (parse_error message errors) web =
      reject_files run_id message errors web
  accept_files upload run_id today raised web = refuse server_error web

  -- `POST /reconcile`
  unfoldable pub reconcile_endpoint : Upload → String → ℕ → Web N → Answer N
  unfolding is_locked read_files accept_files
  reconcile_endpoint upload run_id today web =
      if is_locked server.demo_access_key upload.demo_header upload.demo_key
      then refuse (http_error 401 "Invalid or missing demo access key.") web
      else if is_too_large upload.orders_bytes upload.settlements_bytes
      then refuse (http_error 413 "Uploaded file exceeds the 5 MB limit.") web
      else accept_files upload run_id today
          (read_files (bytes upload.orders_bytes) upload.orders_name
            (bytes upload.settlements_bytes) upload.settlements_name)
          web

  -- The samples that `POST /demo` reads, for a date of its own.
  unfoldable pub demo_run :
      String → ℕ → Bool → Parsed (List Order × List Settlement) → Web N → Answer N
  unfolding start_background_run
  demo_run run_id day dry_run (parsed (os, ss)) web =
      start_background_run
        (record {
          run_id = run_id;
          orders = os;
          settlements = ss;
          as_of = day;
          is_dry_run = dry_run;
          input_hash = none;
        })
        true web
  demo_run run_id day dry_run (parse_error message errors) web = refuse server_error web
  demo_run run_id day dry_run raised web = refuse server_error web

  -- `POST /demo`; 739775 is the ordinal of 8 June 2026.
  unfoldable pub demo_endpoint : Bool → String → Web N → Answer N
  unfolding read_files demo_run text
  demo_endpoint dry_run run_id web =
      demo_run run_id 739775 dry_run
        (read_files (path (text (server.samples_dir ∷ "/orders_sample.csv" ∷ []))) none
          (path (text (server.samples_dir ∷ "/settlements_sample.csv" ∷ []))) none)
        web
