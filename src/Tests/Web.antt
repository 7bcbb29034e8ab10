-- ===== src/Tests/Web.antt =====
-- Uploads on test data.
use retail_reconciliation_ag.Prelude.{
  string_eq, ℕ, [], ◌∷◌, some, none, true, false, ◌≡◌, ◌⊎◌, refl, arith,
}
use retail_reconciliation_ag.Audit.Repository.{find_run}
use retail_reconciliation_ag.Domain.Reading.{codes}
use retail_reconciliation_ag.Parsers.Base.{Pandas, frame}
use retail_reconciliation_ag.Parsers.Readers.{settlements_required}
use retail_reconciliation_ag.Prelude.Dict.{get, get_or}
use retail_reconciliation_ag.Audit.Tables.{Database, empty_database}
use retail_reconciliation_ag.Api.Metrics.{build_metrics_snapshot, total, build_metrics_snapshot_lem}
use retail_reconciliation_ag.Api.Registry.{pending}
use retail_reconciliation_ag.Api.Routes.{
  Server, Web, Upload, reconcile_endpoint, progress_page, http_error,
}
use retail_reconciliation_ag.Api.Pages.{results_page}
use retail_reconciliation_ag.Api.Uploads.{
  IsRefusedFor, IsAccepted, files_of, reconcile_endpoint-cases,
}
use retail_reconciliation_ag.Tests.{deps, mailbox}
use retail_reconciliation_ag.Tests.Runs.{incidents}
use retail_reconciliation_ag.Tests.Parsing.{lib, table}

-- Orders are read from spreadsheets, and settlements from other files.
abbrev office : Pandas
office = record {
  read_csv = λ source. frame (record {
    columns = settlements_required;
    rows = ("P1" ∷ "2024-01-02" ∷ "CASH" ∷ "10" ∷ "BANK" ∷ []) ∷ [];
  });
  read_excel = λ source. frame (table ("10" ∷ []));
}

abbrev server : Server ℕ
server = record {
  demo_access_key = "key";
  max_entries = 2;
  deps = deps;
  incidents = incidents;
  pandas = office;
  pydantic = lib;
  show = λ s. s;
  sha256 = λ cs. "digest";
  samples_dir = "samples";
}

abbrev web : Web ℕ
web = record { registry = ("r0", pending true) ∷ []; mailbox = mailbox }

abbrev upload : Upload
upload = record {
  demo_header = some "key";
  demo_key = "";
  orders_name = some "orders.xlsx";
  orders_bytes = codes "o";
  settlements_name = some "settlements.csv";
  settlements_bytes = codes "s";
  dry_run = false;
}

accepted_test : (reconcile_endpoint server upload "r1" 110 web).response ≡ progress_page "r1" false
unfolding reconcile_endpoint
accepted_test = refl

locked_test :
    (reconcile_endpoint server (record upload { demo_header = none }) "r1" 110 web).response
    ≡ http_error 401 "Invalid or missing demo access key."
unfolding reconcile_endpoint
locked_test = refl

waiting_test : results_page web "r0" ≡ progress_page "r0" true
unfolding results_page
waiting_test = refl

reconcile_endpoint-cases_example :
    IsRefusedFor server upload
      (files_of server upload)
      web
      (reconcile_endpoint server upload "r1" 110 web)
    ⊎ IsAccepted server "r1"
        (files_of server upload)
        (reconcile_endpoint server upload "r1" 110 web)
reconcile_endpoint-cases_example =
    reconcile_endpoint-cases server upload "r1" 110 web (omega arith) (omega arith)
      (unfold get in refl, tt) (unfold find_run in refl)

-- Two open exceptions and a closed one of another reason.
abbrev logged : Database
logged = record empty_database {
  exception_log =
      record { mismatch_key = "k1"; run_id = "r1"; reason = "CASH_MISSING"; status = "OPEN" }
      ∷ record { mismatch_key = "k2"; run_id = "r1"; reason = "CASH_MISSING"; status = "OPEN" }
      ∷ record { mismatch_key = "k3"; run_id = "r1"; reason = "AMOUNT_SHORT"; status = "RESOLVED" }
      ∷ [];
}

build_metrics_snapshot_example :
    (get_or (build_metrics_snapshot logged [] "closed" 0).exceptions_by_reason "CASH_MISSING" 0 ≡ 2)
    × (get_or (build_metrics_snapshot logged [] "closed" 0).notifications "CASH_MISSING" 0 ≡ 0)
    × (total (build_metrics_snapshot logged [] "closed" 0).exceptions_by_reason ≡ 3)
    × (total (build_metrics_snapshot logged [] "closed" 0).notifications ≡ 0)
build_metrics_snapshot_example = build_metrics_snapshot_lem logged [] "closed" 0 "CASH_MISSING"
